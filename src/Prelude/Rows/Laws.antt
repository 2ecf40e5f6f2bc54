-- ===== src/Prelude/Rows/Laws.antt =====
-- Reads after writes, on lists of rows.
use Prim.Native.Nat.{◌+◌, ◌<◌}
use mathlib.Core.Path.{◌≡◌, refl}
use mathlib.Core.Bool.{Bool, true, false}
use mathlib.Core.Option
use mathlib.Core.Option.{Option, none, some}
use mathlib.Core.List.{List, [], ◌∷◌, ◌++◌}
use native.Mathlib.Omega.{arith}
use appunvs.Prelude.Tests.{if◌then◌else◌}
use appunvs.Prelude.Rows.{All, find, count, update_where, delete_where, upsert}

module _ {ℓ} {A : Type ℓ} (p : A → Bool) where
  pub find_sound : (xs : List A) (y : A) → find p xs ≡ some y → p y ≡ true
  unfolding find
  find_sound [] y h = cc
  find_sound (x ∷ xs) y h = ground (arith, find_sound xs y)

  pub find-append_new :
      (xs : List A) (y : A) → find p xs ≡ none → p y ≡ true → find p (xs ++ y ∷ []) ≡ some y
  unfolding find
  find-append_new [] y h q = ground arith
  find-append_new (x ∷ xs) y h q = ground (arith, find-append_new xs y)

  pub find-append_old : (xs ys : List A) (y : A) → find p xs ≡ some y → find p (xs ++ ys) ≡ some y
  unfolding find
  find-append_old [] ys y h = cc
  find-append_old (x ∷ xs) ys y h = ground (arith, find-append_old xs ys y)

  pub find-append_miss : (xs : List A) (y : A) → p y ≡ false → find p (xs ++ y ∷ []) ≡ find p xs
  unfolding find
  find-append_miss [] y q = ground arith
  find-append_miss (x ∷ xs) y q = ground (arith, find-append_miss xs y q)

  pub count-append_hit :
      (xs : List A) (y : A) → p y ≡ true → count p (xs ++ y ∷ []) ≡ count p xs + 1
  unfolding count
  count-append_hit [] y q = ground arith
  count-append_hit (x ∷ xs) y q = ground (arith, count-append_hit xs y q)

  pub count-append_miss : (xs : List A) (y : A) → p y ≡ false → count p (xs ++ y ∷ []) ≡ count p xs
  unfolding count
  count-append_miss [] y q = ground arith
  count-append_miss (x ∷ xs) y q = ground (arith, count-append_miss xs y q)

  pub count_of_none : (xs : List A) → find p xs ≡ none → count p xs ≡ 0
  unfolding find count
  count_of_none [] h = refl
  count_of_none (x ∷ xs) h = ground (arith, count_of_none xs)

  pub count_of_some : (xs : List A) (y : A) → find p xs ≡ some y → 0 < count p xs
  unfolding find count
  count_of_some [] y h = cc
  count_of_some (x ∷ xs) y h = ground (arith, count_of_some xs y)

  pub update_of_none : (f : A → A) (xs : List A) → find p xs ≡ none → update_where p f xs ≡ xs
  unfolding find update_where
  update_of_none f [] h = refl
  update_of_none f (x ∷ xs) h = ground (arith, update_of_none f xs)

  -- The update keeps the key that it selects by.
  pub find-update :
      (f : A → A)
      → ((x : A) → p (f x) ≡ p x)
      → (xs : List A) → find p (update_where p f xs) ≡ Option.map f (find p xs)
  unfolding find update_where
  find-update f k [] = refl
  find-update f k (x ∷ xs) = ground (arith, k x, find-update f k xs)

  -- An update after which no row is selected any more.
  pub find-update_gone :
      (f : A → A)
      → ((x : A) → p (f x) ≡ false)
      → (xs : List A) → find p (update_where p f xs) ≡ none
  unfolding find update_where
  find-update_gone f k [] = refl
  find-update_gone f k (x ∷ xs) = ground (arith, k x, find-update_gone f k xs)

  -- Where nothing is selected, the rows that another read finds are not either.
  pub find_none_at :
      (q : A → Bool) (xs : List A) (y : A) → find p xs ≡ none → find q xs ≡ some y → p y ≡ false
  unfolding find
  find_none_at q [] y h e = absurd (ground (arith, e))
  find_none_at q (x ∷ xs) y h e = ground (arith, find_none_at q xs y)

  pub find-upsert_self :
      (f : A → A) (v : A) (xs : List A)
      → ((x : A) → p x ≡ true → p (f x) ≡ true)
      → p v ≡ true
      → find p (upsert p f v xs) ≡ elim (find p xs) [ none ↦ some v | some x ↦ some (f x) ]
  unfolding find upsert
  find-upsert_self f v [] k h = ground arith
  find-upsert_self f v (x ∷ xs) k h = ground (arith, k x, find-upsert_self f v xs k h)

  pub delete_of_none : (xs : List A) → find p xs ≡ none → delete_where p xs ≡ xs
  unfolding find delete_where
  delete_of_none [] h = refl
  delete_of_none (x ∷ xs) h = ground (arith, delete_of_none xs)

  pub find-delete_self : (xs : List A) → find p (delete_where p xs) ≡ none
  unfolding find delete_where
  find-delete_self [] = refl
  find-delete_self (x ∷ xs) = ground (arith, find-delete_self xs)

-- What a write that selects by p does to a read that selects by q, when no row meets both.
module _ {ℓ} {A : Type ℓ} (p q : A → Bool) (apart : (x : A) → p x ≡ true → q x ≡ false) where
  pub find-update_other :
      (f : A → A)
      → ((x : A) → p x ≡ true → q (f x) ≡ false)
      → (xs : List A) → find q (update_where p f xs) ≡ find q xs
  unfolding find update_where
  find-update_other f k [] = refl
  find-update_other f k (x ∷ xs) = ground (arith, apart x, k x, find-update_other f k xs)

  pub find-upsert_other :
      (f : A → A) (v : A)
      → ((x : A) → p x ≡ true → q (f x) ≡ false)
      → q v ≡ false
      → (xs : List A) → find q (upsert p f v xs) ≡ find q xs
  unfolding find upsert
  find-upsert_other f v k h [] = ground arith
  find-upsert_other f v k h (x ∷ xs) = ground (arith, apart x, k x, find-upsert_other f v k h xs)

  pub find-delete_other : (xs : List A) → find q (delete_where p xs) ≡ find q xs
  unfolding find delete_where
  find-delete_other [] = refl
  find-delete_other (x ∷ xs) = ground (arith, apart x, find-delete_other xs)

module _ {ℓ} {A : Type ℓ} (p q : A → Bool) (weaker : (x : A) → q x ≡ true → p x ≡ true) where
  pub find_none-weaker : (xs : List A) → find p xs ≡ none → find q xs ≡ none
  unfolding find
  find_none-weaker [] h = refl
  find_none-weaker (x ∷ xs) h = ground (arith, weaker x, find_none-weaker xs)

module _ {ℓ κ ι} {A : Type ℓ} (P : A → Type κ) (Q : A → Type ι) where
  pub All-weaken : ((x : A) → P x → Q x) → (xs : List A) → All P xs → All Q xs
  All-weaken f [] _ = tt
  All-weaken f (x ∷ xs) (p, ps) = (f x p, All-weaken f xs ps)

  kept_if :
      (b : Bool) (x : A) (xs : List A)
      → (b ≡ false → Q x)
      → All Q xs
      → All Q (if b then xs else x ∷ xs)
  kept_if true x xs f h = h
  kept_if false x xs f h = (f refl, h)

  -- What stays after a DELETE.
  pub All-delete_where :
      (p : A → Bool)
      → ((x : A) → p x ≡ false → P x → Q x)
      → (xs : List A) → All P xs
      → All Q (delete_where p xs)
  unfolding delete_where
  All-delete_where p f [] _ = tt
  All-delete_where p f (x ∷ xs) (h, hs) =
      kept_if (p x) x (delete_where p xs) (λ e. f x e h) (All-delete_where p f xs hs)

module _ {ℓ κ} {A : Type ℓ} (P : A → Type κ) where
  pub All-append_one : (xs : List A) (y : A) → All P xs → P y → All P (xs ++ y ∷ [])
  All-append_one [] y _ h = (h, tt)
  All-append_one (x ∷ xs) y (p, ps) h = (p, All-append_one xs y ps h)

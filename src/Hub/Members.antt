-- ===== src/Hub/Members.antt =====
-- The sets of connections in relay/internal/hub/hub.go, as lists without repetition.
use appunvs.Prelude.{
  ℕ, ◌≡◌, refl, ap, Bool, true, false, not, ◌&&◌, List, [], ◌∷◌, ◌==◌, nat_eq, if◌then◌else◌,
  select, find, arith, Bool-cases, inl, inr, delete_where,
}
use appunvs.Hub.{has}

-- A list with no id twice, as the keys of a Go map are.
abbrev pub Unique : List ℕ → Type 0
Unique [] = Unit
Unique (x ∷ xs) = (has x xs ≡ false) × Unique xs

pub has_apart :
    (id i : ℕ) (ids : List ℕ) → has id ids ≡ false → has i ids ≡ true → (i == id) ≡ false
has_apart id i ids fresh mem = elim (Bool-cases (i == id)) [
  | inl e ↦ let same : i ≡ id = ground arith in absurd (ground (arith, fresh, rw same at mem))
  | inr e ↦ e
]

pub select_ext :
    (p q : ℕ → Bool) (ids : List ℕ)
    → ((i : ℕ) → has i ids ≡ true → p i ≡ q i)
    → select p ids ≡ select q ids
unfolding select find
select_ext p q [] same = refl
select_ext p q (id ∷ ids) same =
    let rest = select_ext p q ids (λ i mem. same i (ground (arith, mem))) in
    let here : p id ≡ q id = same id (ground arith) in ground (arith, rest, here)

pub has-select : (p : ℕ → Bool) (i : ℕ) (ids : List ℕ) → has i (select p ids) ≡ (has i ids && p i)
unfolding select find
has-select p i [] = refl
has-select p i (id ∷ ids) = elim (Bool-cases (id == i)) [
  | inl e ↦
      let same : id ≡ i = ground arith in
      let rest = has-select p i ids in let here = ap p same in ground (arith, rest, here)
  | inr e ↦ let rest = has-select p i ids in ground (arith, rest)
]

Unique-if :
    (b : Bool) (id : ℕ) (ids : List ℕ)
    → has id ids ≡ false
    → Unique ids
    → Unique (if b then id ∷ ids else ids)
Unique-if true id ids fresh u = (fresh, u)
Unique-if false id ids fresh u = u

Unique-if' :
    (b : Bool) (id : ℕ) (ids : List ℕ)
    → has id ids ≡ false
    → Unique ids
    → Unique (if b then ids else id ∷ ids)
Unique-if' true id ids fresh u = u
Unique-if' false id ids fresh u = (fresh, u)

pub select-Unique : (p : ℕ → Bool) (ids : List ℕ) → Unique ids → Unique (select p ids)
unfolding select
select-Unique p [] u = tt
select-Unique p (id ∷ ids) (fresh, u) =
    let still = has-select p id ids in
    Unique-if (p id) id (select p ids) (ground (arith, still, fresh)) (select-Unique p ids u)

pub has_delete :
    (id i : ℕ) (ids : List ℕ)
    → has i (delete_where (λ x. x == id) ids) ≡ (has i ids && not (i == id))
unfolding delete_where find
has_delete id i [] = refl
has_delete id i (x ∷ xs) = let rest = has_delete id i xs in ground (arith, rest)

pub delete-Unique : (id : ℕ) (ids : List ℕ) → Unique ids → Unique (delete_where (λ x. x == id) ids)
unfolding delete_where
delete-Unique id [] u = tt
delete-Unique id (x ∷ xs) (fresh, u) =
    let still = has_delete id x xs in
    Unique-if' (x == id) x (delete_where (λ x. x == id) xs) (ground (arith, still, fresh))
      (delete-Unique id xs u)

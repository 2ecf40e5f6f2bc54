-- ===== src/Prelude/Codes.antt =====
-- Equality of lists of characters.
use appunvs.Prelude.Tests.{nat_eq}
use appunvs.Prelude.Text.{codes_beq}
use Prim.Native.Nat.{ℕ}
use mathlib.Core.Path.{◌≡◌, refl}
use mathlib.Core.Logic.{◌↔◌}
use mathlib.Core.Bool.{true}
use mathlib.Core.List.{List, [], ◌∷◌}
use native.Mathlib.Omega.{arith}

pub codes_beq_refl : (xs : List ℕ) → codes_beq xs xs ≡ true
unfolding codes_beq
codes_beq_refl [] = refl
codes_beq_refl (x ∷ xs) = let rest = codes_beq_refl xs in ground (arith, rest)

pub codes_beq_sound : (xs ys : List ℕ) → codes_beq xs ys ≡ true → xs ≡ ys
unfolding codes_beq
codes_beq_sound [] [] h = refl
codes_beq_sound [] (y ∷ ys) h = absurd (ground arith)
codes_beq_sound (x ∷ xs) [] h = absurd (ground arith)
codes_beq_sound (x ∷ xs) (y ∷ ys) h =
    let rest = codes_beq_sound xs ys (ground arith) in let same : x ≡ y = ground arith in cc

pub codes_beq_iff : (xs ys : List ℕ) → (codes_beq xs ys ≡ true) ↔ (xs ≡ ys)
codes_beq_iff xs ys = (codes_beq_sound xs ys, λ e. rw e (codes_beq_refl ys))

pub codes_beq_sym : (xs ys : List ℕ) → codes_beq xs ys ≡ codes_beq ys xs
unfolding codes_beq
codes_beq_sym [] [] = refl
codes_beq_sym [] (y ∷ ys) = refl
codes_beq_sym (x ∷ xs) [] = refl
codes_beq_sym (x ∷ xs) (y ∷ ys) = let rest = codes_beq_sym xs ys in ground (arith, rest)

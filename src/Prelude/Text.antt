-- ===== src/Prelude/Text.antt =====
-- Texts as lists of code points, for the code that looks inside them. (strings.ToUpper and the
-- like; letters outside ASCII are left alone.)
use Prim.Native.Nat.{ℕ, ◌+◌, ◌-◌}
use Prim.Native.Char.{code}
use Prim.Native.String.{String}
use mathlib.Core.Bool.{Bool, true, false, ◌&&◌, ◌||◌}
use mathlib.Core.Option.{Option, none, some}
use mathlib.Core.List.{List, [], ◌∷◌, map}
use appunvs.Prelude.Tests.{ltb, Eq, ◌==◌, leb, if◌then◌else◌, nat_eq}

abbrev pub codes : String → List ℕ
codes String.[] = []
codes (String.◌∷◌ c s) = code c ∷ codes s

unfoldable pub codes_beq : List ℕ → List ℕ → Bool
codes_beq [] [] = true
codes_beq [] (_ ∷ _) = false
codes_beq (_ ∷ _) [] = false
codes_beq (a ∷ s) (b ∷ t) = a == b && codes_beq s t

instance abbrev pub codes_eq : Eq (List ℕ)
unfolding codes_beq
codes_eq = record { beq = codes_beq }

upper_code : ℕ → ℕ
upper_code c = if leb b'a' c && leb c b'z' then c - 32 else c

lower_code : ℕ → ℕ
lower_code c = if leb b'A' c && leb c b'Z' then c + 32 else c

-- strings.ToUpper, strings.ToLower
unfoldable pub to_upper : List ℕ → List ℕ
unfolding upper_code
to_upper = map upper_code

unfoldable pub to_lower : List ℕ → List ℕ
unfolding lower_code
to_lower = map lower_code

-- The rest of s behind prefix p, if it has that prefix.
unfoldable pub strip_prefix? : List ℕ → List ℕ → Option (List ℕ)
strip_prefix? [] s = some s
strip_prefix? (_ ∷ _) [] = none
strip_prefix? (a ∷ p) (b ∷ s) = let rest = strip_prefix? p s in if a == b then rest else none

-- strings.HasPrefix s p
unfoldable pub has_prefix : List ℕ → List ℕ → Bool
unfolding strip_prefix?
has_prefix s p = elim (strip_prefix? p s) [ none ↦ false | some _ ↦ true ]

-- strings.TrimPrefix s p
unfoldable pub trim_prefix : List ℕ → List ℕ → List ℕ
unfolding strip_prefix?
trim_prefix s p = elim (strip_prefix? p s) [ none ↦ s | some rest ↦ rest ]

-- unicode.IsSpace
abbrev pub is_space : ℕ → Bool
is_space c =
    (leb 9 c && leb c 13)
    || c == 32
    || c == 133
    || c == 160
    || c == 5760
    || (leb 8192 c && leb c 8202)
    || c == 8232
    || c == 8233
    || c == 8239
    || c == 8287
    || c == 12_288

unfoldable pub trim_left : List ℕ → List ℕ
trim_left [] = []
trim_left (c ∷ cs) = let rest = trim_left cs in if is_space c then rest else c ∷ cs

-- A space is dropped if nothing but spaces stands behind it.
abbrev keep_before : ℕ → List ℕ → List ℕ
keep_before c [] = if is_space c then [] else c ∷ []
keep_before c (d ∷ ds) = c ∷ d ∷ ds

unfoldable pub trim_right : List ℕ → List ℕ
trim_right [] = []
trim_right (c ∷ cs) = keep_before c (trim_right cs)

-- strings.TrimSpace
unfoldable pub trim_space : List ℕ → List ℕ
unfolding trim_left trim_right
trim_space s = trim_right (trim_left s)

-- strings.ReplaceAll(s, "-", "")
unfoldable pub without_dashes : String → String
without_dashes String.[] = String.[]
without_dashes (String.◌∷◌ c s) =
    let rest = without_dashes s in if code c == b'-' then rest else String.◌∷◌ c rest

-- ORDER BY a text: the order of the codes.
abbrev pub codes_ltb : List ℕ → List ℕ → Bool
codes_ltb _ [] = false
codes_ltb [] (_ ∷ _) = true
codes_ltb (x ∷ xs) (y ∷ ys) =
    let rest = codes_ltb xs ys in if ltb x y then true else if ltb y x then false else rest

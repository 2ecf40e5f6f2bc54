-- ===== src/Prelude/Tests.antt =====
-- Boolean tests, the conditional and case splits that keep their equation. (Go's comparisons.)
use Prim.Native.Nat.{ℕ, ◌≤◌, compare, Ordering}
use Prim.Native.String.{String}
use mathlib.Core.Path.{◌≡◌, refl}
use mathlib.Core.Logic.{◌↔◌, ◌⊎◌, ◌≢◌, inl, inr}
use mathlib.Core.Bool.{Bool, true, false, false≢true}
use mathlib.Core.Option.{Option, none, some}
use native.Mathlib.Omega.{arith}
use text.Mathlib.Text.{◌==◌ as str_eq}
use text.Mathlib.TextEquality.{eq_iff}

abbrev pub ltb : ℕ → ℕ → Bool
ltb a b = elim (compare a b) [ Ordering.lt ↦ true | _ ↦ false ]

abbrev pub leb : ℕ → ℕ → Bool
leb a b = elim (compare a b) [ Ordering.gt ↦ false | _ ↦ true ]

infix 1 if◌then◌else◌
abbrev pub if◌then◌else◌ {ℓ} : {A : Type ℓ} → Bool → A → A → A
if true then x else y = x
if false then x else y = y

pub Bool-cases : (b : Bool) → (b ≡ true) ⊎ (b ≡ false)
Bool-cases true = inl refl
Bool-cases false = inr refl

pub Option-cases {ℓ} : {A : Type ℓ} (o : Option A) → (o ≡ none) ⊎ ((a : A) × (o ≡ some a))
Option-cases none = inl refl
Option-cases (some a) = inr (a, refl)

-- Texts are compared by a decision, which hands each branch its equation.
dec_of_test : {s t : String} (b : Bool) → (b ≡ true) ↔ (s ≡ t) → Dec (s ≡ t)
dec_of_test true h = yes (h.0 refl)
dec_of_test false h = no (λ e. false≢true (h.1 e))

unfoldable pub String-discrete : Discrete String
unfolding dec_of_test
String-discrete s t = dec_of_test (str_eq s t) (eq_iff s t)

-- Equality as a test, for the types that Go compares by `==`.
pub record Eq {ℓ} (A : Type ℓ) : Type ℓ where
  pub beq : A → A → Bool

infix 50 ◌==◌
abbrev pub ◌==◌ {ℓ} : {A : Type ℓ} ⦃e : Eq A⦄ → A → A → Bool
◌==◌ ⦃e⦄ = e.beq

abbrev pub of_dec {ℓ} : {P : Type ℓ} → Dec P → Bool
of_dec (yes _) = true
of_dec (no _) = false

abbrev nat_beq : ℕ → ℕ → Bool
nat_beq a b = elim (compare a b) [ Ordering.eq ↦ true | _ ↦ false ]

instance abbrev pub nat_eq : Eq ℕ
nat_eq = record { beq = nat_beq }

instance abbrev pub string_eq : Eq String
string_eq = record { beq = λ s t. of_dec (String-discrete s t) }

pub leb→le : (a b : ℕ) → leb a b ≡ true → a ≤ b
leb→le a b h = ground arith

pub string_beq_refl : (s : String) → (s == s) ≡ true
string_beq_refl s = ground arith

pub string_beq_sound : (s t : String) → (s == t) ≡ true → s ≡ t
string_beq_sound s t h = ground arith

abbrev pub is_some {ℓ} : {A : Type ℓ} → Option A → Bool
is_some none = false
is_some (some _) = true

-- A fact for every text but one.
pub elsewhere {ℓ} : {P : Type ℓ} (s t : String) → (s ≢ t → P) → (s ≡ t) ⊎ P
elsewhere s t f = elim (String-discrete s t) [ yes e ↦ inl e | no n ↦ inr (f n) ]

-- A fact for every pair of a text and another but one.
pub elsewhere_pair {ℓ} :
    {P : Type ℓ} (s t u v : String) → ((s ≢ t) ⊎ (u ≢ v) → P) → ((s ≡ t) × (u ≡ v)) ⊎ P
elsewhere_pair s t u v f = elim (String-discrete s t) [
  | no n ↦ inr (f (inl n))
  | yes e ↦ elim (String-discrete u v) [ yes g ↦ inl (e, g) | no n ↦ inr (f (inr n)) ]
]

pub elsewhere_day {ℓ} :
    {P : Type ℓ} (s t : String) (m n : ℕ) → ((s ≢ t) ⊎ (m ≢ n) → P) → ((s ≡ t) × (m ≡ n)) ⊎ P
elsewhere_day s t m n f = elim (String-discrete s t) [
  | no x ↦ inr (f (inl x))
  | yes e ↦ elim (Bool-cases (nat_beq m n)) [
    | inl g ↦ inl (e, ground arith)
    | inr g ↦ inr (f (inr (ground arith)))
  ]
]

pub or_right {ℓ κ ι} : {A : Type ℓ} {P : Type κ} {Q : Type ι} → A ⊎ P → (P → Q) → A ⊎ Q
or_right (inl a) f = inl a
or_right (inr p) f = inr (f p)

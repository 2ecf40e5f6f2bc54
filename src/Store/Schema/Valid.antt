-- ===== src/Store/Schema/Valid.antt =====
-- Which names relay/internal/store/schema.go takes.
use appunvs.Prelude.{
  ◌≡◌, ◌≢◌, ◌↔◌, refl, String, true, false, List, [], ◌∷◌, arith, ◌==◌, string_eq, nat_eq, codes,
  Bool-cases, inl, inr, ◌⊎◌, ℕ,
}
use appunvs.Store.Action.{ok, err, invalid_name, reserved_name}
use appunvs.Store.Schema.Names.{
  matches_name, starts_with_underscore, is_lower, valid_table_name, valid_column_name,
}

-- The name rule refuses a leading underscore and the empty text by itself.
underscore_lem : (cs : List ℕ) → starts_with_underscore cs ≡ true → matches_name cs ≡ false
unfolding starts_with_underscore matches_name is_lower
underscore_lem [] h = refl
underscore_lem (c ∷ cs) h = let e : c ≡ 95 = ground arith in rw e refl

empty_lem : (s : String) → s ≡ "" → matches_name (codes s) ≡ false
unfolding matches_name
empty_lem s e = rw e refl

-- A table's name is taken exactly when it matches ^[a-z][a-z0-9_]{0,63}$, and a column's exactly when
-- it does and is not "id"; what is refused is refused as reserved or as invalid.
pub valid_names :
    (s : String)
    → ((valid_table_name s ≡ ok tt) ↔ (matches_name (codes s) ≡ true))
      × ((valid_column_name s ≡ ok tt) ↔ ((matches_name (codes s) ≡ true) × (s ≢ "id")))
      × ((valid_table_name s ≡ ok tt)
          ⊎ (valid_table_name s ≡ err reserved_name)
          ⊎ (valid_table_name s ≡ err invalid_name))
      × ((valid_column_name s ≡ ok tt)
          ⊎ (valid_column_name s ≡ err reserved_name)
          ⊎ (valid_column_name s ≡ err invalid_name))
unfolding valid_table_name valid_column_name
valid_names s =
    let under = underscore_lem (codes s) in
    let nothing = empty_lem s in
    (
      (λ h. ground arith, λ h. back h),
      (λ h. (ground arith, ground arith), λ (h, n). back_column h n),
      ground arith,
      ground arith,
    )
  where
    back : matches_name (codes s) ≡ true → valid_table_name s ≡ ok tt
    back h = elim (Bool-cases (s == "")) [
      | inl e ↦ absurd (ground (arith, empty_lem s (ground arith), h))
      | inr e ↦ elim (Bool-cases (starts_with_underscore (codes s))) [
        | inl u ↦ absurd (ground (arith, underscore_lem (codes s) u, h))
        | inr u ↦ ground (arith, e, u, h)
      ]
    ]

    back_column : matches_name (codes s) ≡ true → s ≢ "id" → valid_column_name s ≡ ok tt
    back_column h n = elim (Bool-cases (s == "")) [
      | inl e ↦ absurd (ground (arith, empty_lem s (ground arith), h))
      | inr e ↦ elim (Bool-cases (starts_with_underscore (codes s))) [
        | inl u ↦ absurd (ground (arith, underscore_lem (codes s) u, h))
        | inr u ↦ ground (arith, e, u, h, n)
      ]
    ]

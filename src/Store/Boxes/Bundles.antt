-- ===== src/Store/Boxes/Bundles.antt =====
-- PutBundle of relay/internal/store/boxes.go, and what GetBundle finds after it.
use mathlib.Core.Option
use appunvs.Prelude.{
  elsewhere_pair, ◌≡◌, ◌≢◌, refl, String, false, Option, some, arith, string_eq, find, upsert,
  Option-cases, ◌⊎◌, inl, inr,
}
use appunvs.Prelude.Rows.Laws.{find-upsert_self, find-upsert_other}
use appunvs.Pb.RoundTrip.{parse_build_state-build_state_string}
use appunvs.Store.Tables.{BoxRow, BundleRow, Tables}
use appunvs.Store.Action.{Env, World, ok, exec}
use appunvs.Store.Boxes.{
  Bundle, row_of_bundle, bundle_of_row, has_id, is_version, put_bundle, upsert_bundle,
}

-- The bundle of a box at a version.
abbrev pub lookup_bundle : Tables → String → String → Option Bundle
lookup_bundle t box_id version =
    Option.map bundle_of_row (find (is_version box_id version) t.app_bundles)

pub bundle_of_row-row_of_bundle : (b : Bundle) → bundle_of_row (row_of_bundle b) ≡ b
unfolding bundle_of_row row_of_bundle
bundle_of_row-row_of_bundle b = rw parse_build_state-build_state_string

-- PutBundle for a box that exists, when the driver does not refuse it: GetBundle then finds exactly
-- that bundle under its box and version, and any other pair as before. No box changes.
pub put_bundle_effect :
    (b : Bundle) (r : BoxRow) (env : Env) (w : World)
    → find (has_id b.box_id) w.app_boxes ≡ some r
    → env.fails w.place ≡ false
    → let (res, w') = put_bundle b env w in
      (res ≡ ok tt)
      × (lookup_bundle w'.tables b.box_id b.version ≡ some b)
      × ((id version : String)
          → ((id ≡ b.box_id) × (version ≡ b.version))
            ⊎ (lookup_bundle w'.tables id version ≡ lookup_bundle w.tables id version))
      × (w'.app_boxes ≡ w.app_boxes)
unfolding put_bundle exec upsert_bundle row_of_bundle
put_bundle_effect b r env w h q = (
  ground (arith, key),
  ground (arith, key, written, bundle_of_row-row_of_bundle b),
  (λ id version.
      elsewhere_pair id b.box_id version b.version
        λ ne. ground (arith, key, untouched id version ne)),
  ground (arith, key),
)
  where
    row : BundleRow
    row = row_of_bundle b

    key : (row.box_id ≡ b.box_id) × (row.version ≡ b.version)
    key = (refl, refl)

    written :
        find
          (is_version b.box_id b.version)
          (upsert (is_version b.box_id b.version) (λ _. row) row w.app_bundles)
        ≡ some row
    written =
        let e =
          find-upsert_self (is_version b.box_id b.version) (λ _. row) row w.app_bundles
            (λ x _. ground arith) (ground arith) in
        ground (arith, e)

    untouched :
        (id version : String)
        → (id ≢ b.box_id) ⊎ (version ≢ b.version)
        → find
            (is_version id version)
            (upsert (is_version b.box_id b.version) (λ _. row) row w.app_bundles)
          ≡ find (is_version id version) w.app_bundles
    untouched id version ne =
        find-upsert_other (is_version b.box_id b.version) (is_version id version)
          (λ x e. ground arith) (λ _. row) row (λ x e. ground arith) (ground arith) w.app_bundles

-- The same, read off a run that ended well.
pub put_bundle-ok :
    (b : Bundle) (env : Env) (w w' : World)
    → put_bundle b env w ≡ (ok tt, w')
    → (lookup_bundle w'.tables b.box_id b.version ≡ some b) × (w'.app_boxes ≡ w.app_boxes)
put_bundle-ok b env w w' h = elim (Option-cases (find (has_id b.box_id) w.app_boxes)) [
  | inl e ↦ absurd (unfold put_bundle exec upsert_bundle row_of_bundle in ground arith)
  | inr (r, e) ↦
      let (_, a, _, c) = put_bundle_effect b r env w e went in
      (ground (arith, a), ground (arith, c))
]
  where
    went : env.fails w.place ≡ false
    went = unfold put_bundle exec in ground arith

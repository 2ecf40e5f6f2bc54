-- ===== src/Box/Service/Refused.antt =====
-- BuildAndPublish of relay/internal/box/service.go where it ends badly.
use appunvs.Prelude.{
  ◌≡◌, refl, sym, ap, ◌∙◌, String, false, some, arith, ◌+◌, ℕ, ◌⊎◌, inl, inr, string_eq, find,
}
use appunvs.Pb.Stage.{PublishState, BuildState}
use appunvs.Store.Tables.{BoxRow}
use appunvs.Store.Action.{
  Env, World, Result, Error, ok, err, driver, box_archived, Calm, run-cases, bind-of-ok,
  bind-of-err, query, now_millis,
}
use appunvs.Store.Boxes
use appunvs.Store.Boxes.{Box, Bundle, or_not_found, has_id}
use appunvs.Store.Boxes.Laws.{lookup_box}
use appunvs.Store.Boxes.Bundles.{lookup_bundle, put_bundle_effect}
use appunvs.Box.Gates.{gate_sandbox}
use appunvs.Box.Service.{
  Deps, Source, build_and_publish, is_archived, build_and_store, after_build, record_failure,
  pending_bundle, truncate_log,
}

-- A box that is there is what Get answers with, unless the driver refuses.
get_there :
    (namespace id : String) (box : Box) (env : Env) (w : World)
    → lookup_box w.tables namespace id ≡ some box
    → let (r, w') = Boxes.get namespace id env w in
      ((r ≡ ok box) ⊎ (r ≡ err driver)) × (w'.tables ≡ w.tables)
unfolding Boxes.get query or_not_found
get_there namespace id box env w h = ground arith

-- A publish of an archived box writes no table and answers with an error: the gate's, the driver's
-- where the box is read, or that the box is archived.
pub archived_refused :
    (d : Deps) (namespace : String) (src : Source) (box : Box) (env : Env) (w : World)
    → Calm (gate_sandbox d.pricing namespace)
    → lookup_box w.tables namespace src.box_id ≡ some box
    → box.state ≡ PublishState.archived
    → let gate = (gate_sandbox d.pricing namespace env w).0 in
      let (r, w') = build_and_publish d namespace src env w in
      (((e : Error) × (gate ≡ err e) × (r ≡ err e))
        ⊎ ((gate ≡ ok tt) × ((r ≡ err driver) ⊎ (r ≡ err box_archived))))
      × (w'.tables ≡ w.tables)
unfolding build_and_publish is_archived
archived_refused d namespace src box env w quiet own shut =
    elim (run-cases (gate_sandbox d.pricing namespace env w)) [
      | inr (e, w1, g) ↦
          rw (bind-of-err (gate_sandbox d.pricing namespace) _ env w w1 g)
            (inl (e, ap (λ x. x.0) g, refl), same w1 g)
      | inl (_, w1, g) ↦
          let (got, still) = get_there namespace src.box_id box env w1 (rw (same w1 g) own) in
          rw (bind-of-ok (gate_sandbox d.pricing namespace) _ env w w1 g)
            (inr (ap (λ x. x.0) g, ground (arith, got)), ground (arith, got, still, same w1 g))
    ]
  where
    same :
        {r : Result (Unit {0})} (w1 : World)
        → gate_sandbox d.pricing namespace env w ≡ (r, w1)
        → w1.tables ≡ w.tables
    same w1 g = sym (ap (λ (x : Result (Unit {0}) × World). x.1.tables) g) ∙ quiet env w

-- With a driver that refuses nothing, a builder that answers an error: the publish answers that
-- error, stores a failed bundle with the cut log under the version, and changes no box and no
-- other bundle.
pub failed_build :
    (d : Deps) (namespace : String) (box : Box) (src : Source) (e : Error) (r : BoxRow) (env : Env)
    (w : World)
    → Calm (d.build src)
    → ((w' : World) → (d.build src env w').0 ≡ err e)
    → ((n : ℕ) → env.fails n ≡ false)
    → find (has_id box.id) w.app_boxes ≡ some r
    → let (res, w') = build_and_store d namespace box src env w in
      (res ≡ err e)
      × ((at : ℕ) × (lookup_bundle w'.tables box.id src.version
            ≡ some (record (pending_bundle box src.version at) {
              build_state = BuildState.failed;
              build_log = truncate_log (d.message e);
            })))
      × ((id version : String)
          → ((id ≡ box.id) × (version ≡ src.version))
            ⊎ (lookup_bundle w'.tables id version ≡ lookup_bundle w.tables id version))
      × (w'.app_boxes ≡ w.app_boxes)
unfolding build_and_store after_build record_failure pending_bundle now_millis
failed_build d namespace box src e r env w calm bad sure own =
    let w1 : World = record w { place = w.place + 1 } in
    let pending = pending_bundle box src.version (env.clock w.place) in
    let (put, _, others, boxes) = put_bundle_effect pending r env w1 own (sure w1.place) in
    let w2 = (Boxes.put_bundle pending env w1).1 in
    let w3 = (d.build src env w2).1 in
    let quiet = calm env w2 in
    let own3 : find (has_id box.id) w3.app_boxes ≡ some r = ground (arith, quiet, boxes) in
    let w4 : World = record w3 { place = w3.place + 1 } in
    let failed : Bundle = record pending {
      build_state = BuildState.failed;
      build_log = truncate_log (d.message e);
      built_at = env.clock w3.place;
    } in
    let (put', stored, others', boxes') = put_bundle_effect failed r env w4 own3 (sure w4.place) in
    (
      ground (arith, bad w2, put),
      (env.clock w3.place, ground (arith, bad w2, put, stored)),
      (λ id version.
          let a = others id version in
          let b = others' id version in ground (arith, bad w2, put, a, b, quiet)),
      ground (arith, bad w2, put, boxes, boxes', quiet),
    )

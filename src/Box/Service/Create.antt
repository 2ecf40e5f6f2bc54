-- ===== src/Box/Service/Create.antt =====
-- Create of relay/internal/box/service.go: the cap on a namespace's active boxes.
use appunvs.Prelude.{◌≡◌, refl, ap, ◌∙◌, String, some, arith, ◌+◌, ℕ}
use appunvs.Pb.Stage.{PublishState, RuntimeKind}
use appunvs.Store.Action.{Env, World, ok, bind-eq-ok, after_calm, now_millis-Calm, now_millis}
use appunvs.Store.Boxes
use appunvs.Store.Boxes.{Box, filled, active_boxes}
use appunvs.Store.Boxes.Laws.{lookup_box}
use appunvs.Store.Boxes.Counts.{create-counts}
use appunvs.Usage.Plans.{Plan}
use appunvs.Usage.Quota.{store_sources}
use appunvs.Usage.Quota.Laws.{Within}
use appunvs.Box.Gates.{gate_storage}
use appunvs.Box.Gates.Laws.{gate_storage-ok}
use appunvs.Box.Service.{Deps, new_id, create, draft_box}
use appunvs.Box.Service.Publish.{IsCalm}

module _ (d : Deps) (calm : IsCalm d) (plan_for : String → Plan)
    (priced : d.pricing.quota ≡ some store_sources)
    (planned : d.pricing.plan_for ≡ some plan_for) where
  -- A create that answers well found the namespace below its plan's cap on active boxes; the box it
  -- answers with is the namespace's draft, stored with its times filled in, and the namespace has one
  -- active box more.
  pub create-Within :
      (namespace device title : String) (runtime : RuntimeKind) (b : Box) (env : Env) (w w' : World)
      → create d namespace device title runtime env w ≡ (ok b, w')
      → Within (plan_for namespace).active_boxes (active_boxes namespace w.tables)
        × (active_boxes namespace w'.tables ≡ active_boxes namespace w.tables + 1)
        × (b.namespace ≡ namespace)
        × (b.state ≡ PublishState.draft)
        × ((now : ℕ) × (lookup_box w'.tables namespace b.id ≡ some (filled now b)))
  unfolding create new_id draft_box
  create-Within namespace device title runtime b env w w' h =
      let (_, w1, e1, h1) = bind-eq-ok (gate_storage d.pricing namespace) _ env w h in
      let (below, same) = gate_storage-ok d.pricing plan_for priced planned namespace env w w1 e1 in
      after_calm (new_id d "box_") _ env w1 (λ env w. ground (arith, calm.random_hex 12 env w)) h1
        λ id w2 same2 h2. after_calm now_millis _ env w2 now_millis-Calm h2 λ now w3 same3 h3.
          let (_, w4, e4, h4) =
            bind-eq-ok (Boxes.create (draft_box namespace device title runtime id now)) _ env w3
              h3 in
          let answer : b ≡ draft_box namespace device title runtime id now = ground (arith, h4) in
          let (found, more, _) =
            create-counts (draft_box namespace device title runtime id now) env w3 w4 refl e4 in
          let back : w3.tables ≡ w.tables = same3 ∙ same2 ∙ same in
          let end_ : w'.tables ≡ w4.tables = ground (arith, h4) in
          (
            below,
            rw end_ (more ∙ ap (λ t. active_boxes namespace t + 1) back),
            ap (λ x. x.namespace) answer,
            ap (λ x. x.state) answer,
            (env.clock w3.place, rw (answer, end_) found),
          )

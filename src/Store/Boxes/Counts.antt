-- ===== src/Store/Boxes/Counts.antt =====
-- The rows that Create of relay/internal/store/boxes.go adds, and what ActiveByNamespace counts.
use appunvs.Prelude.{
  elsewhere, String-discrete, ◌≡◌, refl, String, Bool, true, false, not, ◌&&◌, none, some, [], ◌∷◌,
  ◌++◌, arith, ◌+◌, ◌==◌, string_eq, find, Option-cases, inl, inr, ◌⊎◌,
}
use appunvs.Prelude.Rows.Laws.{
  count-append_hit, count-append_miss, find-append_new, find_none-weaker,
}
use appunvs.Pb.Stage.{PublishState, publish_state_string}
use appunvs.Store.Tables.{BoxRow}
use appunvs.Store.Action.{Env, World, ok, exec, now_millis}
use appunvs.Store.Boxes.{Box, row_of_box, owned, has_id, filled, create, insert_box, active_boxes}
use appunvs.Store.Boxes.Laws.{lookup_box, box_of_row-row_of_box}

pub create-ok :
    (b : Box) (env : Env) (w w' : World)
    → create b env w ≡ (ok tt, w')
    → (find (has_id b.id) w.app_boxes ≡ none)
      × (w'.tables ≡ record w.tables {
        app_boxes = w.app_boxes ++ row_of_box (filled (env.clock w.place) b) ∷ [];
      })
unfolding create exec now_millis insert_box row_of_box filled
create-ok b env w w' h = elim (Option-cases (find (has_id b.id) w.app_boxes)) [
  | inl e ↦ (e, ground arith)
  | inr (r, e) ↦ absurd (ground arith)
]

draft_lem : ◌==◌ {A = String} "draft" "archived" ≡ false
unfolding String-discrete
draft_lem = refl

abbrev active : String → BoxRow → Bool
active namespace r = r.namespace == namespace && not (r.state == "archived")

-- A draft that Create stored is found, and counts as one more active box of its own namespace and
-- of no other.
pub create-counts :
    (b : Box) (env : Env) (w w' : World)
    → b.state ≡ PublishState.draft
    → create b env w ≡ (ok tt, w')
    → (lookup_box w'.tables b.namespace b.id ≡ some (filled (env.clock w.place) b))
      × (active_boxes b.namespace w'.tables ≡ active_boxes b.namespace w.tables + 1)
      × ((namespace : String)
          → (namespace ≡ b.namespace)
            ⊎ (active_boxes namespace w'.tables ≡ active_boxes namespace w.tables))
unfolding active_boxes filled row_of_box publish_state_string
create-counts b env w w' draft h =
    let row = row_of_box (filled (env.clock w.place) b) in
    let (fresh, e) = create-ok b env w w' h in
    let named : row.state ≡ "draft" = rw draft in
    let mine : owned b.namespace b.id row ≡ true = ground arith in
    let counted : active b.namespace row ≡ true = rw (named, draft_lem) (ground arith) in
    let own_fresh =
      find_none-weaker (has_id b.id) (owned b.namespace b.id) (λ r q. ground arith) w.app_boxes
        fresh in
    (
      rw
          (
            e,
            find-append_new (owned b.namespace b.id) w.app_boxes row own_fresh mine,
            box_of_row-row_of_box (filled (env.clock w.place) b),
          )
          refl,
      rw e (count-append_hit (active b.namespace) w.app_boxes row counted),
      λ ns.
          elsewhere ns b.namespace
            λ ne. rw e (count-append_miss (active ns) w.app_boxes row (ground arith)),
    )

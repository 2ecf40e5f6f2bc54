-- ===== src/Store/Boxes/Laws.antt =====
-- What each operation of relay/internal/store/boxes.go does to the boxes and bundles that a later
-- read finds.
use mathlib.Core.Option
use appunvs.Prelude.{
  elsewhere, ◌≡◌, ◌≢◌, refl, String, Bool, true, false, Option, none, some, List, arith, ◌+◌,
  string_eq, find, update_where, Option-cases, ◌⊎◌, inl, inr,
}
use appunvs.Prelude.Rows.Laws.{
  find_sound, find-append_new, find_none-weaker, find-update, find-update_other, count_of_none,
  count_of_some, update_of_none,
}
use appunvs.Pb.Stage.{PublishState, publish_state_string}
use appunvs.Pb.RoundTrip.{
  parse_publish_state-publish_state_string, parse_runtime_kind-runtime_kind_string,
}
use appunvs.Store.Tables.{BoxRow, Tables}
use appunvs.Store.Action.{Env, World, ok, err, box_not_found, driver, query, exec, now_millis}
use appunvs.Store.Boxes.{
  Box, row_of_box, box_of_row, owned, has_id, filled, create, get, set_state, update_box,
  require_rows, or_not_found, insert_box, set_current_version,
}

-- The box that a namespace sees under an id.
abbrev pub lookup_box : Tables → String → String → Option Box
lookup_box t namespace id = Option.map box_of_row (find (owned namespace id) t.app_boxes)

pub box_of_row-row_of_box : (b : Box) → box_of_row (row_of_box b) ≡ b
unfolding box_of_row row_of_box
box_of_row-row_of_box b =
    rw (parse_publish_state-publish_state_string, parse_runtime_kind-runtime_kind_string)

owned-has_id :
    (namespace id : String) (r : BoxRow) → owned namespace id r ≡ true → has_id id r ≡ true
owned-has_id namespace id r h = ground arith

owned_self : (b : Box) → owned b.namespace b.id (row_of_box b) ≡ true
unfolding row_of_box
owned_self b = ground arith

-- A box that Create stored is what Get finds for its namespace, with the defaults filled in.
pub get-create :
    (b : Box) (env : Env) (w w' : World)
    → create b env w ≡ (ok tt, w')
    → env.fails w'.place ≡ false
    → (get b.namespace b.id env w').0 ≡ ok (filled (env.clock w.place) b)
unfolding create get now_millis exec query insert_box or_not_found filled row_of_box
get-create b env w w' h q =
    let key = b.id in
    ground (
      arith,
      owned_self (filled (env.clock w.place) b),
      box_of_row-row_of_box (filled (env.clock w.place) b),
      find_none-weaker (has_id b.id) (owned b.namespace b.id) (owned-has_id b.namespace b.id)
          w.app_boxes,
      find-append_new (owned b.namespace b.id) w.app_boxes
          (row_of_box (filled (env.clock w.place) b)),
    )

abbrev Owned : String → String → BoxRow → Type 0
Owned namespace id r = (r.namespace ≡ namespace) × (r.id ≡ id)

owned-Owned :
    (namespace id : String) (r : BoxRow) → owned namespace id r ≡ true → Owned namespace id r
owned-Owned namespace id r h = ground arith

find-owned_cases :
    (namespace id : String) (rows : List BoxRow)
    → (find (owned namespace id) rows ≡ none)
      ⊎ ((r : BoxRow) × (find (owned namespace id) rows ≡ some r) × Owned namespace id r)
find-owned_cases namespace id rows = elim (Option-cases (find (owned namespace id) rows)) [
  | inl e ↦ inl e
  | inr (r, e) ↦ inr (r, e, owned-Owned namespace id r (find_sound (owned namespace id) rows r e))
]

-- Get answers with a box of the namespace that asks and of the id that it asks for, which the table
-- holds; it changes no table.
pub get-owned :
    (namespace id : String) (b : Box) (env : Env) (w w' : World)
    → get namespace id env w ≡ (ok b, w')
    → (b.namespace ≡ namespace)
      × (b.id ≡ id)
      × (lookup_box w.tables namespace id ≡ some b)
      × (w'.tables ≡ w.tables)
unfolding get query or_not_found box_of_row
get-owned namespace id b env w w' h = ground (arith, find-owned_cases namespace id w.app_boxes)

-- An id that the namespace does not own: reading it, changing its state and changing its version
-- all answer "box not found" (or the driver's error) and change no table.
pub foreign_box :
    (namespace id version : String) (state : PublishState) (env : Env) (w : World)
    → lookup_box w.tables namespace id ≡ none
    → let got = get namespace id env w in
      let moved = set_state namespace id state env w in
      let bumped = set_current_version namespace id version env w in
      ((got.0 ≡ err box_not_found) ⊎ (got.0 ≡ err driver))
      × ((moved.0 ≡ err box_not_found) ⊎ (moved.0 ≡ err driver))
      × ((bumped.0 ≡ err box_not_found) ⊎ (bumped.0 ≡ err driver))
      × (got.1.tables ≡ w.tables)
      × (moved.1.tables ≡ w.tables)
      × (bumped.1.tables ≡ w.tables)
unfolding get set_state set_current_version query exec now_millis or_not_found update_box
    require_rows
foreign_box namespace id version state env w h =
    let own = owned namespace id in
    let missing : find own w.app_boxes ≡ none = ground arith in
    let now = env.clock w.place in
    ground (
      arith,
      missing,
      count_of_none own w.app_boxes missing,
      update_of_none own (λ r. record r { state = publish_state_string state; updated_at = now })
          w.app_boxes missing,
      update_of_none own (λ r. record r { current_version = version; updated_at = now }) w.app_boxes
          missing,
    )

-- A write to one box by a function that keeps its key: what it and every other box become.
module _ (f : BoxRow → BoxRow) (keeps : (r : BoxRow) → (f r).id ≡ r.id)
    (same : (r : BoxRow) → (f r).namespace ≡ r.namespace) where
  update-owned :
      (namespace id : String) (rows : List BoxRow) {r : BoxRow}
      → find (owned namespace id) rows ≡ some r
      → find (owned namespace id) (update_where (owned namespace id) f rows) ≡ some (f r)
  update-owned namespace id rows h =
      rw (find-update (owned namespace id) f (λ x. rw (keeps x, same x)) rows, h)

  update-others :
      (namespace id other_namespace other : String) (rows : List BoxRow)
      → other ≢ id
      → find (owned other_namespace other) (update_where (owned namespace id) f rows)
        ≡ find (owned other_namespace other) rows
  update-others namespace id other_namespace other rows ne =
      find-update_other (owned namespace id) (owned other_namespace other) (λ x h. ground arith) f
        (λ x h. ground (arith, keeps x, same x)) rows

-- SetState on a box that the namespace owns, when the driver does not refuse it: the box gets the
-- state and the time of the call, keeps everything else, and no other id changes for any namespace.
pub set_state_effect :
    (namespace id : String) (state : PublishState) (b : Box) (env : Env) (w : World)
    → lookup_box w.tables namespace id ≡ some b
    → env.fails (w.place + 1) ≡ false
    → let (r, w') = set_state namespace id state env w in
      (r ≡ ok tt)
      × (lookup_box w'.tables namespace id
          ≡ some (record b { state = state; updated_at = env.clock w.place }))
      × ((ns other : String)
          → (other ≡ id) ⊎ (lookup_box w'.tables ns other ≡ lookup_box w.tables ns other))
      × (w'.app_bundles ≡ w.app_bundles)
unfolding set_state exec now_millis update_box require_rows box_of_row
set_state_effect namespace id state b env w h q = elim (Option-cases (find own w.app_boxes)) [
  | inl e ↦ absurd (ground arith)
  | inr (r, e) ↦
      let u = update-owned f (λ _. refl) (λ _. refl) namespace id w.app_boxes e in
      let c = count_of_some own w.app_boxes r e in
      let p = parse_publish_state-publish_state_string state in
      (
        ground (arith, c),
        ground (arith, c, u, p),
        (λ ns other. elsewhere other id λ ne.
            let o = update-others f (λ _. refl) (λ _. refl) namespace id ns other w.app_boxes ne in
            ground (arith, c, o)),
        ground (arith, c),
      )
]
  where
    own : BoxRow → Bool
    own = owned namespace id

    f : BoxRow → BoxRow
    f r = record r { state = publish_state_string state; updated_at = env.clock w.place }

-- SetCurrentVersion likewise: the version and the time of the call, and nothing else.
pub set_current_version_effect :
    (namespace id version : String) (b : Box) (env : Env) (w : World)
    → lookup_box w.tables namespace id ≡ some b
    → env.fails (w.place + 1) ≡ false
    → let (r, w') = set_current_version namespace id version env w in
      (r ≡ ok tt)
      × (lookup_box w'.tables namespace id
          ≡ some (record b { current_version = version; updated_at = env.clock w.place }))
      × ((ns other : String)
          → (other ≡ id) ⊎ (lookup_box w'.tables ns other ≡ lookup_box w.tables ns other))
      × (w'.app_bundles ≡ w.app_bundles)
unfolding set_current_version exec now_millis update_box require_rows box_of_row
set_current_version_effect namespace id version b env w h q =
    elim (Option-cases (find own w.app_boxes)) [
      | inl e ↦ absurd (ground arith)
      | inr (r, e) ↦
          let u = update-owned f (λ _. refl) (λ _. refl) namespace id w.app_boxes e in
          let c = count_of_some own w.app_boxes r e in
          (
            ground (arith, c),
            ground (arith, c, u),
            (λ ns other. elsewhere other id λ ne.
                let o =
                  update-others f (λ _. refl) (λ _. refl) namespace id ns other w.app_boxes ne in
                ground (arith, c, o)),
            ground (arith, c),
          )
    ]
  where
    own : BoxRow → Bool
    own = owned namespace id

    f : BoxRow → BoxRow
    f r = record r { current_version = version; updated_at = env.clock w.place }

-- The same, read off a run that ended well.
pub set_state-ok :
    (namespace id : String) (state : PublishState) (env : Env) (w w' : World)
    → set_state namespace id state env w ≡ (ok tt, w')
    → (b : Box) × (lookup_box w.tables namespace id ≡ some b)
      × (lookup_box w'.tables namespace id
          ≡ some (record b { state = state; updated_at = env.clock w.place }))
      × (w'.app_bundles ≡ w.app_bundles)
set_state-ok namespace id state env w w' h =
    elim (Option-cases (lookup_box w.tables namespace id)) [
      | inl e ↦ absurd (ground (arith, foreign_box namespace id "" state env w e))
      | inr (b, e) ↦
          let (_, a, _, c) = set_state_effect namespace id state b env w e went in
          (b, e, ground (arith, a), ground (arith, c))
    ]
  where
    went : env.fails (w.place + 1) ≡ false
    went = unfold set_state exec now_millis in ground arith

pub set_current_version-ok :
    (namespace id version : String) (env : Env) (w w' : World)
    → set_current_version namespace id version env w ≡ (ok tt, w')
    → (b : Box) × (lookup_box w.tables namespace id ≡ some b)
      × (lookup_box w'.tables namespace id
          ≡ some (record b { current_version = version; updated_at = env.clock w.place }))
      × (w'.app_bundles ≡ w.app_bundles)
set_current_version-ok namespace id version env w w' h =
    elim (Option-cases (lookup_box w.tables namespace id)) [
      | inl e ↦ absurd (ground (arith, foreign_box namespace id version PublishState.draft env w e))
      | inr (b, e) ↦
          let (_, a, _, c) = set_current_version_effect namespace id version b env w e went in
          (b, e, ground (arith, a), ground (arith, c))
    ]
  where
    went : env.fails (w.place + 1) ≡ false
    went = unfold set_current_version exec now_millis in ground arith

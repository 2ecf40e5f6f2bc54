-- ===== src/Store/Boxes.antt =====
-- relay/internal/store/boxes.go: the boxes and the bundles that were built for them.
pub mod Laws
pub mod Bundles
pub mod Counts
use appunvs.Prelude.{
  ℕ, String, Bool, true, false, not, ◌&&◌, Option, none, some, List, [], ◌∷◌, ◌++◌, map, ◌==◌, ltb,
  leb, if◌then◌else◌, string_eq, nat_eq, find, select, count, update_where, upsert, order_by,
}
use appunvs.Pb.Stage.{
  PublishState, BuildState, RuntimeKind, publish_state_string, build_state_string,
  runtime_kind_string, parse_publish_state, parse_build_state, parse_runtime_kind,
}
use appunvs.Store.Tables.{BoxRow, BundleRow, Tables}
use appunvs.Store.Action.{
  Error, box_not_found, unique, foreign_key, Result, ok, err, Action, pure, fail, ◌>>=◌, ◌>>◌,
  now_millis, query, exec,
}

pub record Box : Type 0 where
  pub id : String
  pub namespace : String
  pub provider_device_id : String
  pub title : String
  pub runtime : RuntimeKind
  pub state : PublishState
  pub current_version : String
  pub created_at : ℕ
  pub updated_at : ℕ

pub record Bundle : Type 0 where
  pub box_id : String
  pub version : String
  pub uri : String
  pub content_hash : String
  pub size_bytes : ℕ
  pub build_state : BuildState
  pub build_log : List ℕ
  pub built_at : ℕ
  pub expires_at : ℕ

-- The row that Create's INSERT writes.
unfoldable pub row_of_box : Box → BoxRow
row_of_box b = record {
  id = b.id;
  namespace = b.namespace;
  provider_device_id = b.provider_device_id;
  title = b.title;
  runtime = runtime_kind_string b.runtime;
  state = publish_state_string b.state;
  current_version = b.current_version;
  created_at = b.created_at;
  updated_at = b.updated_at;
}

-- What Get and List read from a row.
unfoldable pub box_of_row : BoxRow → Box
box_of_row r = record {
  id = r.id;
  namespace = r.namespace;
  provider_device_id = r.provider_device_id;
  title = r.title;
  runtime = parse_runtime_kind r.runtime;
  state = parse_publish_state r.state;
  current_version = r.current_version;
  created_at = r.created_at;
  updated_at = r.updated_at;
}

-- The row that PutBundle's INSERT writes.
unfoldable pub row_of_bundle : Bundle → BundleRow
row_of_bundle b = record {
  box_id = b.box_id;
  version = b.version;
  uri = b.uri;
  content_hash = b.content_hash;
  size_bytes = b.size_bytes;
  build_state = build_state_string b.build_state;
  build_log = b.build_log;
  built_at = b.built_at;
  expires_at = b.expires_at;
}

-- What GetBundle reads from a row.
unfoldable pub bundle_of_row : BundleRow → Bundle
bundle_of_row r = record {
  box_id = r.box_id;
  version = r.version;
  uri = r.uri;
  content_hash = r.content_hash;
  size_bytes = r.size_bytes;
  build_state = parse_build_state r.build_state;
  build_log = r.build_log;
  built_at = r.built_at;
  expires_at = r.expires_at;
}

-- WHERE id = ?
abbrev pub has_id : String → BoxRow → Bool
has_id id r = r.id == id

-- WHERE namespace = ? AND id = ?
abbrev pub owned : String → String → BoxRow → Bool
owned namespace id r = r.namespace == namespace && r.id == id

-- WHERE box_id = ? AND version = ?
abbrev pub is_version : String → String → BundleRow → Bool
is_version box_id version r = r.box_id == box_id && r.version == version

-- The defaults of Create, at the time `now`.
unfoldable pub filled : ℕ → Box → Box
filled now b = record b {
  state = elim b.state [ PublishState.unspecified ↦ PublishState.draft | s ↦ s ];
  created_at = if b.created_at == 0 then now else b.created_at;
  updated_at = if b.updated_at == 0 then now else b.updated_at;
}

-- INSERT INTO app_boxes; id is the primary key.
unfoldable pub insert_box : BoxRow → Tables → Result (Unit {0} × Tables)
insert_box r t = elim (find (has_id r.id) t.app_boxes) [
  | some _ ↦ err unique
  | none ↦ ok (tt, record t { app_boxes = t.app_boxes ++ r ∷ [] })
]

-- Boxes.Create
unfoldable pub create : Box → Action (Unit {0})
create b = do now ← now_millis; exec (insert_box (row_of_box (filled now b)))

-- What a QueryRow that finds no row becomes.
unfoldable pub or_not_found : {A B : Type 0} → (A → B) → Option A → Action B
or_not_found f none = fail box_not_found
or_not_found f (some r) = pure (f r)

-- Boxes.Get
unfoldable pub get : String → String → Action Box
get namespace id = do
  found ← query (λ t. find (owned namespace id) t.app_boxes)
  or_not_found box_of_row found

-- ORDER BY updated_at DESC
abbrev pub newer : BoxRow → BoxRow → Bool
newer a b = ltb b.updated_at a.updated_at

-- Boxes.List
unfoldable pub list : String → Action (List Box)
list namespace =
    query λ t. map box_of_row (order_by newer (select (λ r. r.namespace == namespace) t.app_boxes))

-- UPDATE app_boxes … WHERE namespace = ? AND id = ?, with the rows affected.
unfoldable pub update_box : (BoxRow → BoxRow) → String → String → Tables → Result (ℕ × Tables)
update_box f namespace id t = ok (
  count (owned namespace id) t.app_boxes,
  record t { app_boxes = update_where (owned namespace id) f t.app_boxes },
)

unfoldable pub require_rows : ℕ → Action (Unit {0})
require_rows n = if n == 0 then fail box_not_found else pure tt

-- Boxes.SetState
unfoldable pub set_state : String → String → PublishState → Action (Unit {0})
set_state namespace id state = do
  now ← now_millis
  rows ← exec (
      update_box (λ r. record r { state = publish_state_string state; updated_at = now }) namespace
        id)
  require_rows rows

-- Boxes.SetCurrentVersion
unfoldable pub set_current_version : String → String → String → Action (Unit {0})
set_current_version namespace id version = do
  now ← now_millis
  rows ←
      exec (update_box (λ r. record r { current_version = version; updated_at = now }) namespace id)
  require_rows rows

-- The JOIN of app_bundles with app_boxes: is the row's box one of the namespace?
unfoldable pub box_in_namespace : String → List BoxRow → String → Bool
box_in_namespace namespace boxes box_id = elim (find (has_id box_id) boxes) [
  | none ↦ false
  | some r ↦ r.namespace == namespace
]

-- The COUNT of SandboxRunsByNamespace, and that of ActiveByNamespace.
unfoldable pub sandbox_runs : String → ℕ → Tables → ℕ
sandbox_runs namespace since t =
    count (λ r. box_in_namespace namespace t.app_boxes r.box_id && leb since r.built_at)
      t.app_bundles

unfoldable pub active_boxes : String → Tables → ℕ
active_boxes namespace t =
    count (λ r. r.namespace == namespace && not (r.state == "archived")) t.app_boxes

-- Boxes.SandboxRunsByNamespace
unfoldable pub sandbox_runs_by_namespace : String → ℕ → Action ℕ
sandbox_runs_by_namespace namespace since = query (sandbox_runs namespace since)

-- Boxes.ActiveByNamespace
unfoldable pub active_by_namespace : String → Action ℕ
active_by_namespace namespace = query (active_boxes namespace)

-- INSERT INTO app_bundles … ON CONFLICT(box_id, version) DO UPDATE: every column but the key comes
-- from the new row, so the old row is replaced. box_id references app_boxes(id).
unfoldable pub upsert_bundle : BundleRow → Tables → Result (Unit {0} × Tables)
upsert_bundle r t = elim (find (has_id r.box_id) t.app_boxes) [
  | none ↦ err foreign_key
  | some _ ↦ ok (
    tt,
    record t { app_bundles = upsert (is_version r.box_id r.version) (λ _. r) r t.app_bundles },
  )
]

-- Boxes.PutBundle
unfoldable pub put_bundle : Bundle → Action (Unit {0})
put_bundle b = exec (upsert_bundle (row_of_bundle b))

-- Boxes.GetBundle
unfoldable pub get_bundle : String → String → Action Bundle
get_bundle box_id version = do
  found ← query (λ t. find (is_version box_id version) t.app_bundles)
  or_not_found bundle_of_row found

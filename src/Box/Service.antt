-- ===== src/Box/Service.antt =====
-- relay/internal/box/service.go. The builder, the artifact store, the workspace and the random
-- source are collaborators of the service, and stand as a record of actions.
pub mod Create
pub mod Publish
pub mod Refused
use Prim.Native.String.{◌++◌ as append}
use appunvs.Prelude.{
  ℕ, zero, suc, ◌+◌, ◌-◌, ◌*◌, ◌/◌, String, Bool, true, false, Option, none, some, List, [], ◌∷◌,
  ◌++◌, map, ◌==◌, leb, if◌then◌else◌, string_eq, length, codes,
}
use appunvs.Pb.Stage.{PublishState, BuildState, RuntimeKind}
use appunvs.Store.Action.{
  Error, box_not_found, box_archived, Result, ok, err, Action, pure, fail, attempt, ◌>>=◌, ◌>>◌,
  now_millis,
}
use appunvs.Store.Boxes
use appunvs.Store.Boxes.{Box, Bundle}
use appunvs.Box.Gates.{Pricing, gate_sandbox, gate_storage}

abbrev pub Files : Type 0
Files = List (String × List ℕ)

-- sandbox.Source
pub record Source : Type 0 where
  pub box_id : String
  pub version : String
  pub entry_point : String
  pub files : Files

-- sandbox.Result
pub record Built : Type 0 where
  pub bytes : List ℕ
  pub log : List ℕ

-- artifact.Object
pub record Object : Type 0 where
  pub hash : String
  pub size_bytes : ℕ

-- box.Event
pub record Event : Type 0 where
  pub type : String
  pub box_id : String
  pub version : String
  pub uri : String
  pub content_hash : String
  pub size_bytes : ℕ

-- workspace.WriteOp, as BuildAndPublish fills it in.
pub record WriteOp : Type 0 where
  pub path : String
  pub content : List ℕ

-- The calls on a box's workspace.Repo; `open_repo` is Store.Open.
pub record Workspace : Type 0 where
  pub open_repo : String → Action (Unit {0})
  pub commit : String → List WriteOp → String → Action (Unit {0})
  pub snapshot : String → Action Files

pub record Deps : Type 0 where
  pub build : Source → Action Built
  pub put : List ℕ → Action Object
  pub sign_url : String → ℕ → Action (String × ℕ)
  pub workspace : Option Workspace
  pub publish_event : Option (String → Event → Action (Unit {0}))
  pub pricing : Pricing
  -- hex.EncodeToString of n random bytes
  pub random_hex : ℕ → Action String
  -- fmt.Sprintf("v%d-%s", seconds, hex)
  pub version_name : ℕ → String → String
  -- err.Error()
  pub message : Error → List ℕ

-- SignedURLTTL
abbrev pub signed_url_ttl : ℕ
signed_url_ttl = 30 * 60 * 1000

-- The last n bytes.
unfoldable pub last_bytes : ℕ → List ℕ → List ℕ
last_bytes n [] = []
last_bytes n (x ∷ xs) =
    let rest = last_bytes n xs in if leb (length (x ∷ xs)) n then x ∷ xs else rest

-- truncateLog
unfoldable pub truncate_log : List ℕ → List ℕ
unfolding last_bytes
truncate_log s = if leb (length s) 4096 then s else codes "...[truncated]\n" ++ last_bytes 4096 s

unfoldable pub is_archived : PublishState → Bool
is_archived PublishState.archived = true
is_archived _ = false

unfoldable pub is_published : PublishState → Bool
is_published PublishState.published = true
is_published _ = false

-- The box that Service.Create stores.
unfoldable pub draft_box : String → String → String → RuntimeKind → String → ℕ → Box
draft_box namespace device title runtime id now = record {
  id = id;
  namespace = namespace;
  provider_device_id = device;
  title = title;
  runtime = elim runtime [ RuntimeKind.unspecified ↦ RuntimeKind.rn_bundle | k ↦ k ];
  state = PublishState.draft;
  current_version = "";
  created_at = now;
  updated_at = now;
}

-- The row that marks the bundle as building.
unfoldable pub pending_bundle : Box → String → ℕ → Bundle
pending_bundle box version now = record {
  box_id = box.id;
  version = version;
  uri = "";
  content_hash = "";
  size_bytes = 0;
  build_state = BuildState.running;
  build_log = [];
  built_at = now;
  expires_at = 0;
}

module _ (d : Deps) where
  -- newID
  unfoldable pub new_id : String → Action String
  new_id prefix = do hex ← d.random_hex 12; pure (append prefix hex)

  -- newVersion
  unfoldable pub new_version : Action String
  new_version = do hex ← d.random_hex 6; now ← now_millis; pure (d.version_name (now / 1000) hex)

  -- Service.Create
  unfoldable pub create : String → String → String → RuntimeKind → Action Box
  unfolding new_id
  create namespace device title runtime = do
    gate_storage d.pricing namespace
    id ← new_id "box_"
    now ← now_millis
    let box = draft_box namespace device title runtime id now
    Boxes.create box
    pure box

  -- A current bundle that is missing is "no current bundle".
  unfoldable pub current_bundle : Box → Action (Option Bundle)
  current_bundle b = if b.current_version == "" then pure none else do
    found ← attempt (Boxes.get_bundle b.id b.current_version)
    elim found [ ok bundle ↦ pure (some bundle) | err box_not_found ↦ pure none | err e ↦ fail e ]

  -- Service.Get
  unfoldable pub get : String → String → Action (Box × Option Bundle)
  unfolding current_bundle
  get namespace id = do b ← Boxes.get namespace id; current ← current_bundle b; pure (b, current)

  -- Service.List
  unfoldable pub list : String → Action (List Box)
  list = Boxes.list

  -- Service.Archive
  unfoldable pub archive : String → String → Action (Unit {0})
  archive namespace id = Boxes.set_state namespace id PublishState.archived

  -- The files to build: with a workspace, what HEAD holds after the incoming files are committed.
  unfoldable pub staged_files : Source → String → Action Files
  staged_files src version = elim d.workspace [
    | none ↦ pure src.files
    | some ws ↦ do
      ws.open_repo src.box_id
      elim src.files [
        | [] ↦ pure tt
        | f ∷ fs ↦
            ws.commit src.box_id (map (λ (p, c). record { path = p; content = c }) (f ∷ fs))
              (append "publish " version)
      ]
      ws.snapshot src.box_id
  ]

  -- The two failure paths: the pending row becomes a failed one, whatever the driver says to that.
  unfoldable pub record_failure : Bundle → List ℕ → Error → Action Bundle
  record_failure pending log e = do
    now ← now_millis
    attempt (
        Boxes.put_bundle (record pending {
          build_state = BuildState.failed;
          build_log = truncate_log log;
          built_at = now;
        }))
    fail e

  unfoldable pub notify : String → Bundle → Action (Unit {0})
  notify namespace b = elim d.publish_event [
    | none ↦ pure tt
    | some publish ↦ publish namespace (record {
      type = "bundle_ready";
      box_id = b.box_id;
      version = b.version;
      uri = b.uri;
      content_hash = b.content_hash;
      size_bytes = b.size_bytes;
    })
  ]

  -- The last writes of BuildAndPublish: record the bundle, point the box at it, flip the state to
  -- PUBLISHED if it was not, and notify.
  unfoldable pub make_live : String → Box → Bundle → Action Bundle
  unfolding notify
  make_live namespace box bundle = do
    Boxes.put_bundle bundle
    Boxes.set_current_version namespace box.id bundle.version
    if is_published box.state
        then pure tt
        else Boxes.set_state namespace box.id PublishState.published
    notify namespace bundle
    pure bundle

  -- BuildAndPublish after the upload.
  unfoldable pub finish : String → Box → Bundle → List ℕ → Object → Action Bundle
  finish namespace box pending log object = do
    (url, expires) ← d.sign_url object.hash signed_url_ttl
    now ← now_millis
    make_live namespace box (record {
      box_id = box.id;
      version = pending.version;
      uri = url;
      content_hash = object.hash;
      size_bytes = object.size_bytes;
      build_state = BuildState.succeeded;
      build_log = truncate_log log;
      built_at = now;
      expires_at = expires;
    })

  -- BuildAndPublish once the upload has answered, and once the builder has.
  unfoldable pub after_upload : String → Box → Bundle → Built → Result Object → Action Bundle
  after_upload namespace box pending res (err e) =
      record_failure pending (codes "artifact upload: " ++ d.message e) e
  after_upload namespace box pending res (ok object) = finish namespace box pending res.log object

  unfoldable pub after_build : String → Box → Bundle → Result Built → Action Bundle
  after_build namespace box pending (err e) = record_failure pending (d.message e) e
  after_build namespace box pending (ok res) = do
    stored ← attempt (d.put res.bytes)
    after_upload namespace box pending res stored

  -- BuildAndPublish from the pending row on.
  unfoldable pub build_and_store : String → Box → Source → Action Bundle
  build_and_store namespace box src = do
    now ← now_millis
    Boxes.put_bundle (pending_bundle box src.version now)
    built ← attempt (d.build src)
    after_build namespace box (pending_bundle box src.version now) built

  -- Service.BuildAndPublish
  unfoldable pub build_and_publish : String → Source → Action Bundle
  build_and_publish namespace src = do
    gate_sandbox d.pricing namespace
    box ← Boxes.get namespace src.box_id
    if is_archived box.state then fail box_archived else do
      version ← if src.version == "" then new_version else pure src.version
      files ← staged_files (record src { box_id = box.id }) version
      build_and_store namespace box (record src { version = version; files = files })

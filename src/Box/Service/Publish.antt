-- ===== src/Box/Service/Publish.antt =====
-- BuildAndPublish of relay/internal/box/service.go, from the gate to the published box.
use Prim.Native.String.{◌++◌ as append}
use appunvs.Prelude.{
  map, ℕ, String, true, some, List, [], ◌∷◌, ◌≡◌, ◌≢◌, inl, inr, refl, arith, ap, sym, ◌∙◌,
  if◌then◌else◌, ◌==◌, string_eq, Bool-cases, Option-cases,
}
use appunvs.Pb.Stage.{PublishState, BuildState}
use appunvs.Store.Tables.{Tables}
use appunvs.Store.Action.{
  Error, Env, World, Action, Result, ok, err, pure, attempt, now_millis, bind-eq-ok, Calm,
  after_calm, now_millis-Calm, bind-Calm,
}
use appunvs.Store.Boxes
use appunvs.Store.Boxes.{Box, Bundle}
use appunvs.Store.Boxes.Laws.{lookup_box, get-owned, set_state-ok, set_current_version-ok}
use appunvs.Store.Boxes.Bundles.{lookup_bundle, put_bundle-ok}
use appunvs.Box.Gates.{gate_sandbox}
use appunvs.Box.Service.{
  Deps, Source, Event, Files, Object, Workspace, WriteOp, Built, finish, notify, build_and_store,
  build_and_publish, record_failure, make_live, after_upload, after_build, is_published,
  is_archived, staged_files, new_version,
}

-- The builder, the artifact store, the workspace, the notifications and the random source keep to
-- themselves.
pub record IsCalm (d : Deps) : Type 0 where
  pub build : (src : Source) → Calm (d.build src)
  pub put : (bytes : List ℕ) → Calm (d.put bytes)
  pub sign_url : (hash : String) (ttl : ℕ) → Calm (d.sign_url hash ttl)
  pub publish_event :
      (publish : String → Event → Action (Unit {0}))
      → d.publish_event ≡ some publish
      → (namespace : String) (e : Event) → Calm (publish namespace e)
  pub open_repo : (ws : Workspace) → d.workspace ≡ some ws → (id : String) → Calm (ws.open_repo id)
  pub commit :
      (ws : Workspace)
      → d.workspace ≡ some ws
      → (id : String) (ops : List WriteOp) (text : String) → Calm (ws.commit id ops text)
  pub snapshot : (ws : Workspace) → d.workspace ≡ some ws → (id : String) → Calm (ws.snapshot id)
  pub random_hex : (n : ℕ) → Calm (d.random_hex n)

-- A bundle that is live: stored as succeeded, and the version that its published box points at.
pub record IsLive (t : Tables) (namespace id : String) (b : Bundle) : Type 0 where
  pub of_box : b.box_id ≡ id
  pub succeeded : b.build_state ≡ BuildState.succeeded
  pub stored : lookup_bundle t b.box_id b.version ≡ some b
  pub box : Box
  pub found : lookup_box t namespace id ≡ some box
  pub current : box.current_version ≡ b.version
  pub published : box.state ≡ PublishState.published

is_published-eq : (s : PublishState) → is_published s ≡ true → s ≡ PublishState.published
unfolding is_published
is_published-eq s h = ground arith

module _ (d : Deps) (calm : IsCalm d) where
  notify-Calm : (namespace : String) (b : Bundle) → Calm (notify d namespace b)
  unfolding notify
  notify-Calm namespace b env w = elim (Option-cases d.publish_event) [
    | inl e ↦ rw (e, notify)
    | inr (publish, e) ↦ rw (e, notify) (calm.publish_event publish e namespace _ env w)
  ]

  -- After the version is set, the box is published: it was, or SetState makes it so.
  flip-published :
      (namespace : String) (box now_box : Box) (env : Env) (w w' : World)
      → lookup_box w.tables namespace box.id ≡ some now_box
      → now_box.state ≡ box.state
      → (if is_published box.state
            then pure tt
            else Boxes.set_state namespace box.id PublishState.published)
          env w
        ≡ (ok tt, w')
      → (b : Box) × (lookup_box w'.tables namespace box.id ≡ some b)
        × (b.current_version ≡ now_box.current_version)
        × (b.state ≡ PublishState.published)
        × (w'.app_bundles ≡ w.app_bundles)
  flip-published namespace box now_box env w w' own same h =
      elim (Bool-cases (is_published box.state)) [
        | inl e ↦ (now_box, ground arith, refl, same ∙ is_published-eq box.state e, ground arith)
        | inr e ↦
            let (b, found, after, bundles) =
              set_state-ok namespace box.id PublishState.published env w w' (rw e at h) in
            (
              record b { state = PublishState.published; updated_at = env.clock w.place },
              after,
              ground arith,
              refl,
              bundles,
            )
      ]

  make_live-IsLive :
      (namespace : String) (box : Box) (bundle b : Bundle) (env : Env) (w w' : World)
      → lookup_box w.tables namespace box.id ≡ some box
      → bundle.box_id ≡ box.id
      → bundle.build_state ≡ BuildState.succeeded
      → make_live d namespace box bundle env w ≡ (ok b, w')
      → IsLive w'.tables namespace box.id b
  unfolding make_live
  make_live-IsLive namespace box bundle b env w w' own same good h =
      let (_, w1, e1, h1) = bind-eq-ok (Boxes.put_bundle bundle) _ env w h in
      let (_, w2, e2, h2) = bind-eq-ok (Boxes.set_current_version _ _ _) _ env w1 h1 in
      let (_, w3, e3, h3) =
        bind-eq-ok (if is_published box.state then pure tt else _) _ env w2 h2 in
      let (_, w4, e4, h4) = bind-eq-ok (notify d namespace bundle) _ env w3 h3 in
      let (stored, boxes) = put_bundle-ok bundle env w w1 e1 in
      let (old, was, after, bundles) =
        set_current_version-ok namespace box.id bundle.version env w1 w2 e2 in
      let own1 : lookup_box w1.tables namespace box.id ≡ some box = rw boxes own in
      let (live, found, version, state, bundles') =
        flip-published namespace box _ env w2 w3 after (ground (arith, own1, was)) e3 in
      let quiet : w4.tables ≡ w3.tables =
        ap (λ (x : Result (Unit {0}) × World). x.1.tables) (sym e4)
        ∙ notify-Calm namespace bundle env w3 in
      let end_ : w'.tables ≡ w3.tables =
        ap (λ (x : Result Bundle × World). x.1.tables) (sym h4) ∙ quiet in
      let answer : b ≡ bundle = ground (arith, h4) in
      rw (answer, end_)
        (record {
          of_box = same;
          succeeded = good;
          stored = rw (bundles', bundles) stored;
          box = live;
          found = found;
          current = version;
          published = state;
        })

  finish-IsLive :
      (namespace : String) (box : Box) (pending : Bundle) (log : List ℕ) (object : Object)
      (b : Bundle) (env : Env) (w w' : World)
      → lookup_box w.tables namespace box.id ≡ some box
      → finish d namespace box pending log object env w ≡ (ok b, w')
      → IsLive w'.tables namespace box.id b
  unfolding finish
  finish-IsLive namespace box pending log object b env w w' own h =
      after_calm (d.sign_url object.hash _) _ env w (calm.sign_url object.hash _) h
        λ signed w1 q1 h1. after_calm now_millis _ env w1 now_millis-Calm h1 λ now w2 q2 h2.
          make_live-IsLive namespace box _ b env w2 w' (rw (q2, q1) own) refl refl h2

  failure-not-ok :
      (pending : Bundle) (log : List ℕ) (e : Error) (b : Bundle) (env : Env) (w w' : World)
      → record_failure d pending log e env w ≢ (ok b, w')
  unfolding record_failure now_millis
  failure-not-ok pending log e b env w w' h = ground arith

  after_upload-IsLive :
      (namespace : String) (box : Box) (pending : Bundle) (res : Built) (stored : Result Object)
      (b : Bundle) (env : Env) (w w' : World)
      → lookup_box w.tables namespace box.id ≡ some box
      → after_upload d namespace box pending res stored env w ≡ (ok b, w')
      → IsLive w'.tables namespace box.id b
  unfolding after_upload
  after_upload-IsLive namespace box pending res (err e) b env w w' own h =
      absurd (failure-not-ok pending _ e b env w w' h)
  after_upload-IsLive namespace box pending res (ok object) b env w w' own h =
      finish-IsLive namespace box pending res.log object b env w w' own h

  after_build-IsLive :
      (namespace : String) (box : Box) (pending : Bundle) (built : Result Built) (b : Bundle)
      (env : Env) (w w' : World)
      → lookup_box w.tables namespace box.id ≡ some box
      → after_build d namespace box pending built env w ≡ (ok b, w')
      → IsLive w'.tables namespace box.id b
  unfolding after_build
  after_build-IsLive namespace box pending (err e) b env w w' own h =
      absurd (failure-not-ok pending _ e b env w w' h)
  after_build-IsLive namespace box pending (ok res) b env w w' own h =
      after_calm (attempt (d.put res.bytes)) (after_upload d namespace box pending res) env w
        (calm.put res.bytes) h
        λ stored w1 q1 h1.
          after_upload-IsLive namespace box pending res stored b env w1 w' (rw q1 own) h1

  build_and_store-IsLive :
      (namespace : String) (box : Box) (src : Source) (b : Bundle) (env : Env) (w w' : World)
      → lookup_box w.tables namespace box.id ≡ some box
      → build_and_store d namespace box src env w ≡ (ok b, w')
      → IsLive w'.tables namespace box.id b
  unfolding build_and_store
  build_and_store-IsLive namespace box src b env w w' own h =
      after_calm now_millis _ env w now_millis-Calm h λ now w1 q1 h1.
        let (_, w2, e2, h2) = bind-eq-ok (Boxes.put_bundle _) _ env w1 h1 in
        let (_, boxes) = put_bundle-ok _ env w1 w2 e2 in
        after_calm (attempt (d.build src)) (after_build d namespace box _) env w2 (calm.build src)
          h2
          λ built w3 q3 h3.
            after_build-IsLive namespace box _ built b env w3 w' (rw (q3, boxes, q1) own) h3

  staged_files-Calm : (src : Source) (version : String) → Calm (staged_files d src version)
  unfolding staged_files
  staged_files-Calm src version = elim (Option-cases d.workspace) [
    | inl e ↦ rw (e, staged_files) (λ env w. refl)
    | inr (ws, e) ↦
        rw (e, staged_files)
          (bind-Calm (ws.open_repo src.box_id) _ (calm.open_repo ws e src.box_id)
            λ _. bind-Calm _ _ (commit ws e src.files) λ _. calm.snapshot ws e src.box_id)
  ]
    where
      commit :
          (ws : Workspace)
          → d.workspace ≡ some ws
          → (files : Files)
          → Calm (elim files [
            | [] ↦ pure tt
            | f ∷ fs ↦
                ws.commit src.box_id
                  (map (λ (p, c). record { path = p; content = c }) (f ∷ fs))
                  (append "publish " version)
          ])
      commit ws e [] = λ env w. refl
      commit ws e (f ∷ fs) = calm.commit ws e src.box_id _ _

  version-Calm :
      (src : Source) → Calm (if src.version == "" then new_version d else pure src.version)
  unfolding new_version
  version-Calm src = elim (Bool-cases (src.version == "")) [
    | inl e ↦ rw e (
        bind-Calm (d.random_hex 6) _ (calm.random_hex 6)
          λ hex. bind-Calm now_millis _ now_millis-Calm λ now env w. refl)
    | inr e ↦ rw e (λ env w. refl)
  ]

  -- A run of BuildAndPublish that ends well, with collaborators that leave the tables alone and a
  -- gate that does: the bundle that it answers with was built well, is stored under its version,
  -- and the box of that id in the namespace is published and points at that version.
  pub build_and_publish-IsLive :
      (namespace : String) (src : Source) (b : Bundle) (env : Env) (w w' : World)
      → Calm (gate_sandbox d.pricing namespace)
      → build_and_publish d namespace src env w ≡ (ok b, w')
      → IsLive w'.tables namespace src.box_id b
  unfolding build_and_publish
  build_and_publish-IsLive namespace src b env w w' quiet h =
      after_calm (gate_sandbox d.pricing namespace) _ env w quiet h λ _ w1 q1 h1.
        let (box, w2, e2, h2) = bind-eq-ok (Boxes.get namespace src.box_id) _ env w1 h1 in
        let (_, same, own, q2) = get-owned namespace src.box_id box env w1 w2 e2 in
        elim (Bool-cases (is_archived box.state)) [
          | inl e ↦ absurd (ground (arith, h2, e))
          | inr e ↦
              after_calm (if src.version == "" then new_version d else pure src.version) _ env w2
                (version-Calm src) (rw e at h2)
                λ version w3 q3 h3.
                  after_calm (staged_files d (record src { box_id = box.id }) version) _ env w3
                    (staged_files-Calm _ version) h3
                    λ files w4 q4 h4. rw (sym same) (
                      build_and_store-IsLive namespace box _ b env w4 w' (rw (q4, q3, q2, same) own)
                        h4)
        ]

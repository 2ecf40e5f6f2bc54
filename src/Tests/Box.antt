-- ===== src/Tests/Box.antt =====
-- Runs of relay/internal/box.
use appunvs.Prelude.{
  ℕ, ◌+◌, ◌≡◌, ◌⊎◌, refl, String, none, some, [], ◌∷◌, String-discrete, find, upsert, update_where,
  count, codes_beq, to_upper, to_lower, trim_prefix, length, codes, arith,
}
use appunvs.Prelude.Int.{pos}
use appunvs.Pb.Stage.{
  PublishState, BuildState, RuntimeKind, parse_publish_state, parse_runtime_kind,
}
use appunvs.Store.Action.{
  World, Error, ok, err, other, driver, box_archived, exec, query, now_millis, Calm,
}
use appunvs.Store.Turns
use appunvs.Store.Boxes
use appunvs.Store.Boxes.{Box, Bundle, filled, active_boxes}
use appunvs.Store.Boxes.Laws.{lookup_box}
use appunvs.Store.Boxes.Bundles.{lookup_bundle}
use appunvs.Usage.Plans.{plan_free}
use appunvs.Usage.Quota
use appunvs.Usage.Quota.{store_sources}
use appunvs.Usage.Quota.Laws.{Within}
use appunvs.Box.Gates.{Pricing, gate_storage, gate_sandbox}
use appunvs.Box.Gates
use appunvs.Box.Service
use appunvs.Box.Service.{
  Deps, Source, Built, Object, build_and_publish, build_and_store, create, pending_bundle,
  truncate_log,
}
use appunvs.Box.Service.Publish.{IsCalm, IsLive, build_and_publish-IsLive}
use appunvs.Box.Service.Create.{create-Within}
use appunvs.Box.Service.Refused.{archived_refused, failed_build}
use appunvs.Tests.Data.{env, world, tables, old_box, box_row}

-- Collaborators that answer at once and keep to themselves.
abbrev deps : Deps
deps = record {
  build = λ src env w. (ok (record { bytes = 1 ∷ []; log = [] }), w);
  put = λ bytes env w. (ok (record { hash = "h"; size_bytes = length bytes }), w);
  sign_url = λ hash ttl env w. (ok ("url", 99), w);
  workspace = none;
  publish_event = none;
  pricing = record { quota = none; plan_for = none };
  random_hex = λ n env w. (ok "abc", w);
  version_name = λ t hex. hex;
  message = λ e. codes "failed";
}

deps_run : IsCalm deps
deps_run = record {
  build = λ src env w. refl;
  put = λ bytes env w. refl;
  sign_url = λ hash ttl env w. refl;
  publish_event = λ f e. absurd (ground arith);
  open_repo = λ ws e. absurd (ground arith);
  commit = λ ws e. absurd (ground arith);
  snapshot = λ ws e. absurd (ground arith);
  random_hex = λ n env w. refl;
}

abbrev source : Source
source = record { box_id = "box_1"; version = "v1"; entry_point = "index.tsx"; files = [] }

abbrev published : World
published = (build_and_publish deps "ann" source env world).1

abbrev live : Bundle
live = record {
  box_id = "box_1";
  version = "v1";
  uri = "url";
  content_hash = "h";
  size_bytes = 1;
  build_state = BuildState.succeeded;
  build_log = [];
  built_at = env.clock 3;
  expires_at = 99;
}

published_run : build_and_publish deps "ann" source env world ≡ (ok live, published)
unfolding build_and_publish gate_sandbox Boxes.get Boxes.or_not_found Boxes.box_of_row query exec
    now_millis Service.is_archived Service.staged_files build_and_store pending_bundle
    Boxes.put_bundle Boxes.upsert_bundle Boxes.row_of_bundle Service.after_build
    Service.after_upload Service.finish Service.make_live truncate_log Boxes.set_current_version
    Boxes.set_state Boxes.update_box Boxes.require_rows Service.is_published Service.notify find
    count update_where upsert String-discrete parse_publish_state parse_runtime_kind codes_beq
    to_upper to_lower trim_prefix
published_run = refl

gate_run : Calm (gate_sandbox deps.pricing "ann")
unfolding gate_sandbox
gate_run _ _ = refl

build_and_publish-IsLive_example : IsLive published.tables "ann" "box_1" live
build_and_publish-IsLive_example =
    build_and_publish-IsLive deps deps_run "ann" source live env world published gate_run
      published_run

-- The same with the store's quota: the free plan has room for one box, and the user of these tables
-- has one, so a second user creates.
abbrev priced : Deps
priced = record deps {
  pricing = record { quota = some store_sources; plan_for = some (λ _. plan_free) };
}

priced_run : IsCalm priced
priced_run = record {
  build = λ src _ w. refl;
  put = λ bytes _ w. refl;
  sign_url = λ hash ttl _ w. refl;
  publish_event = λ f e. absurd (ground arith);
  open_repo = λ ws e. absurd (ground arith);
  commit = λ ws e. absurd (ground arith);
  snapshot = λ ws e. absurd (ground arith);
  random_hex = λ n _ w. refl;
}

abbrev drafted : World
drafted = (create priced "eve" "dev" "todo" RuntimeKind.unspecified env world).1

abbrev draft : Box
draft = Service.draft_box "eve" "dev" "todo" RuntimeKind.unspecified "box_abc" (env.clock 5)

drafted_run :
    create priced "eve" "dev" "todo" RuntimeKind.unspecified env world ≡ (ok draft, drafted)
unfolding create gate_storage Gates.plan_error Quota.check_storage Quota.decide_storage Quota.allow
    Quota.used Turns.llm_spent_by_namespace Boxes.sandbox_runs_by_namespace
    Boxes.active_by_namespace active_boxes query exec now_millis Service.new_id Service.draft_box
    Boxes.create Boxes.insert_box Boxes.row_of_box filled find count String-discrete
drafted_run = refl

create-Within_example :
    Within (pos 1) (active_boxes "eve" world.tables)
    × (active_boxes "eve" drafted.tables ≡ active_boxes "eve" world.tables + 1)
    × (draft.namespace ≡ "eve")
    × (draft.state ≡ PublishState.draft)
    × ((now : ℕ) × (lookup_box drafted.tables "eve" draft.id ≡ some (filled now draft)))
create-Within_example =
    create-Within priced priced_run (λ _. plan_free) refl refl "eve" "dev" "todo"
      RuntimeKind.unspecified draft env world drafted drafted_run

abbrev shut : World
shut = record world {
  tables = record tables { app_boxes = record box_row { state = "archived" } ∷ [] };
}

abbrev shut_box : Box
shut_box = record old_box { state = PublishState.archived }

shut_run : lookup_box shut.tables "ann" "box_1" ≡ some shut_box
unfolding find String-discrete Boxes.box_of_row parse_publish_state parse_runtime_kind codes_beq
    to_upper to_lower trim_prefix
shut_run = refl

archived_refused_example :
    let gate = (gate_sandbox deps.pricing "ann" env shut).0 in
    let (r, w) = build_and_publish deps "ann" source env shut in
    (((e : Error) × (gate ≡ err e) × (r ≡ err e))
      ⊎ ((gate ≡ ok tt) × ((r ≡ err driver) ⊎ (r ≡ err box_archived))))
    × (w.tables ≡ shut.tables)
archived_refused_example =
    archived_refused deps "ann" source shut_box env shut gate_run shut_run refl

abbrev broken : Deps
broken = record deps { build = λ src _ w. (err other, w) }

box_row_run : find (Boxes.has_id "box_1") world.app_boxes ≡ some box_row
unfolding find String-discrete
box_row_run = refl

failed_build_example :
    let (res, w) = build_and_store broken "ann" old_box source env world in
    (res ≡ err other)
    × ((at : ℕ) × (lookup_bundle w.tables "box_1" "v1"
          ≡ some (record (pending_bundle old_box "v1" at) {
            build_state = BuildState.failed;
            build_log = truncate_log (broken.message other);
          })))
    × ((id version : String)
        → ((id ≡ "box_1") × (version ≡ "v1"))
          ⊎ (lookup_bundle w.tables id version ≡ lookup_bundle world.tables id version))
    × (w.app_boxes ≡ world.app_boxes)
failed_build_example =
    failed_build broken "ann" old_box source other box_row env world (λ _ w. refl) (λ w. refl)
      (λ n. refl) box_row_run

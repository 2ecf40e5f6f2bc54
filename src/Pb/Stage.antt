-- ===== src/Pb/Stage.antt =====
-- The enums of relay/internal/pb/stage.go (PublishState, BuildState, RuntimeKind), with their
-- protojson names.
use appunvs.Prelude.{
  ℕ, String, List, ◌==◌, codes, to_upper, to_lower, trim_prefix, if◌then◌else◌, codes_eq,
}

pub data PublishState : Type 0 where
  unspecified draft published archived : PublishState

-- PublishState.String
unfoldable pub publish_state_string : PublishState → String
publish_state_string PublishState.draft = "draft"
publish_state_string PublishState.published = "published"
publish_state_string PublishState.archived = "archived"
publish_state_string PublishState.unspecified = "unspecified"

publish_state_of_name : List ℕ → PublishState
publish_state_of_name s =
    if s == codes "draft"
    then PublishState.draft
    else if s == codes "published"
    then PublishState.published
    else if s == codes "archived"
    then PublishState.archived
    else PublishState.unspecified

-- ParsePublishState: the short name or the fully qualified one, in any case.
unfoldable pub parse_publish_state : String → PublishState
unfolding publish_state_of_name
parse_publish_state s =
    publish_state_of_name (to_lower (trim_prefix (to_upper (codes s)) (codes "PUBLISH_STATE_")))

pub data BuildState : Type 0 where
  unspecified queued running succeeded failed : BuildState

-- BuildState.String
unfoldable pub build_state_string : BuildState → String
build_state_string BuildState.queued = "queued"
build_state_string BuildState.running = "running"
build_state_string BuildState.succeeded = "succeeded"
build_state_string BuildState.failed = "failed"
build_state_string BuildState.unspecified = "unspecified"

build_state_of_name : List ℕ → BuildState
build_state_of_name s =
    if s == codes "queued"
    then BuildState.queued
    else if s == codes "running"
    then BuildState.running
    else if s == codes "succeeded"
    then BuildState.succeeded
    else if s == codes "failed"
    then BuildState.failed
    else BuildState.unspecified

-- ParseBuildState: the short name or the fully qualified one, in any case.
unfoldable pub parse_build_state : String → BuildState
unfolding build_state_of_name
parse_build_state s =
    build_state_of_name (to_lower (trim_prefix (to_upper (codes s)) (codes "BUILD_STATE_")))

pub data RuntimeKind : Type 0 where
  unspecified rn_bundle : RuntimeKind

-- RuntimeKind.String
unfoldable pub runtime_kind_string : RuntimeKind → String
runtime_kind_string RuntimeKind.rn_bundle = "rn_bundle"
runtime_kind_string RuntimeKind.unspecified = "unspecified"

runtime_kind_of_name : List ℕ → RuntimeKind
runtime_kind_of_name s =
    if s == codes "rn_bundle" then RuntimeKind.rn_bundle else RuntimeKind.unspecified

-- ParseRuntimeKind: the short name or the fully qualified one, in any case.
unfoldable pub parse_runtime_kind : String → RuntimeKind
unfolding runtime_kind_of_name
parse_runtime_kind s =
    runtime_kind_of_name (to_lower (trim_prefix (to_upper (codes s)) (codes "RUNTIME_KIND_")))

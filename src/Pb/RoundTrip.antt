-- ===== src/Pb/RoundTrip.antt =====
-- Printing and parsing the enums of relay/internal/pb.
use Prim.Native.String.{◌++◌ as append}
use appunvs.Prelude.{String, ◌≡◌, refl, codes_beq, to_upper, to_lower, trim_prefix}
use appunvs.Pb.Enums.{
  Platform, platform_string, parse_platform, Role, role_string, parse_role, Op, op_string, parse_op,
}
use appunvs.Pb.Stage.{
  PublishState, publish_state_string, parse_publish_state, BuildState, build_state_string,
  parse_build_state, RuntimeKind, runtime_kind_string, parse_runtime_kind,
}

-- The names of an enum: the short one and the fully qualified one parse back.
pub record HasNames {A : Type 0} (string : A → String) (parse : String → A) (qualifier : String)
    : Type 0 where
  pub short : (x : A) → parse (string x) ≡ x
  pub qualified : (x : A) → parse (append qualifier (string x)) ≡ x

pub parse_platform-platform_string : (x : Platform) → parse_platform (platform_string x) ≡ x
unfolding parse_platform platform_string codes_beq to_upper to_lower trim_prefix
parse_platform-platform_string Platform.unspecified = refl
parse_platform-platform_string Platform.browser = refl
parse_platform-platform_string Platform.desktop = refl
parse_platform-platform_string Platform.mobile = refl

parse_platform-append : (x : Platform) → parse_platform (append "PLATFORM_" (platform_string x)) ≡ x
unfolding parse_platform platform_string codes_beq to_upper to_lower trim_prefix
parse_platform-append Platform.unspecified = refl
parse_platform-append Platform.browser = refl
parse_platform-append Platform.desktop = refl
parse_platform-append Platform.mobile = refl

Platform-names : HasNames platform_string parse_platform "PLATFORM_"
Platform-names = record {
  short = parse_platform-platform_string;
  qualified = parse_platform-append;
}

pub parse_role-role_string : (x : Role) → parse_role (role_string x) ≡ x
unfolding parse_role role_string codes_beq to_upper to_lower trim_prefix
parse_role-role_string Role.unspecified = refl
parse_role-role_string Role.provider = refl
parse_role-role_string Role.connector = refl
parse_role-role_string Role.both = refl

parse_role-append : (x : Role) → parse_role (append "ROLE_" (role_string x)) ≡ x
unfolding parse_role role_string codes_beq to_upper to_lower trim_prefix
parse_role-append Role.unspecified = refl
parse_role-append Role.provider = refl
parse_role-append Role.connector = refl
parse_role-append Role.both = refl

Role-names : HasNames role_string parse_role "ROLE_"
Role-names = record { short = parse_role-role_string; qualified = parse_role-append }

pub parse_op-op_string : (x : Op) → parse_op (op_string x) ≡ x
unfolding parse_op op_string codes_beq to_upper to_lower trim_prefix
parse_op-op_string Op.unspecified = refl
parse_op-op_string Op.upsert = refl
parse_op-op_string Op.delete = refl
parse_op-op_string Op.table_create = refl
parse_op-op_string Op.table_delete = refl
parse_op-op_string Op.column_add = refl
parse_op-op_string Op.column_delete = refl
parse_op-op_string Op.quota_exceeded = refl

parse_op-append : (x : Op) → parse_op (append "OP_" (op_string x)) ≡ x
unfolding parse_op op_string codes_beq to_upper to_lower trim_prefix
parse_op-append Op.unspecified = refl
parse_op-append Op.upsert = refl
parse_op-append Op.delete = refl
parse_op-append Op.table_create = refl
parse_op-append Op.table_delete = refl
parse_op-append Op.column_add = refl
parse_op-append Op.column_delete = refl
parse_op-append Op.quota_exceeded = refl

Op-names : HasNames op_string parse_op "OP_"
Op-names = record { short = parse_op-op_string; qualified = parse_op-append }

pub parse_publish_state-publish_state_string :
    (x : PublishState) → parse_publish_state (publish_state_string x) ≡ x
unfolding parse_publish_state publish_state_string codes_beq to_upper to_lower trim_prefix
parse_publish_state-publish_state_string PublishState.unspecified = refl
parse_publish_state-publish_state_string PublishState.draft = refl
parse_publish_state-publish_state_string PublishState.published = refl
parse_publish_state-publish_state_string PublishState.archived = refl

parse_publish_state-append :
    (x : PublishState) → parse_publish_state (append "PUBLISH_STATE_" (publish_state_string x)) ≡ x
unfolding parse_publish_state publish_state_string codes_beq to_upper to_lower trim_prefix
parse_publish_state-append PublishState.unspecified = refl
parse_publish_state-append PublishState.draft = refl
parse_publish_state-append PublishState.published = refl
parse_publish_state-append PublishState.archived = refl

PublishState-names : HasNames publish_state_string parse_publish_state "PUBLISH_STATE_"
PublishState-names = record {
  short = parse_publish_state-publish_state_string;
  qualified = parse_publish_state-append;
}

pub parse_build_state-build_state_string :
    (x : BuildState) → parse_build_state (build_state_string x) ≡ x
unfolding parse_build_state build_state_string codes_beq to_upper to_lower trim_prefix
parse_build_state-build_state_string BuildState.unspecified = refl
parse_build_state-build_state_string BuildState.queued = refl
parse_build_state-build_state_string BuildState.running = refl
parse_build_state-build_state_string BuildState.succeeded = refl
parse_build_state-build_state_string BuildState.failed = refl

parse_build_state-append :
    (x : BuildState) → parse_build_state (append "BUILD_STATE_" (build_state_string x)) ≡ x
unfolding parse_build_state build_state_string codes_beq to_upper to_lower trim_prefix
parse_build_state-append BuildState.unspecified = refl
parse_build_state-append BuildState.queued = refl
parse_build_state-append BuildState.running = refl
parse_build_state-append BuildState.succeeded = refl
parse_build_state-append BuildState.failed = refl

BuildState-names : HasNames build_state_string parse_build_state "BUILD_STATE_"
BuildState-names = record {
  short = parse_build_state-build_state_string;
  qualified = parse_build_state-append;
}

pub parse_runtime_kind-runtime_kind_string :
    (x : RuntimeKind) → parse_runtime_kind (runtime_kind_string x) ≡ x
unfolding parse_runtime_kind runtime_kind_string codes_beq to_upper to_lower trim_prefix
parse_runtime_kind-runtime_kind_string RuntimeKind.unspecified = refl
parse_runtime_kind-runtime_kind_string RuntimeKind.rn_bundle = refl

parse_runtime_kind-append :
    (x : RuntimeKind) → parse_runtime_kind (append "RUNTIME_KIND_" (runtime_kind_string x)) ≡ x
unfolding parse_runtime_kind runtime_kind_string codes_beq to_upper to_lower trim_prefix
parse_runtime_kind-append RuntimeKind.unspecified = refl
parse_runtime_kind-append RuntimeKind.rn_bundle = refl

RuntimeKind-names : HasNames runtime_kind_string parse_runtime_kind "RUNTIME_KIND_"
RuntimeKind-names = record {
  short = parse_runtime_kind-runtime_kind_string;
  qualified = parse_runtime_kind-append;
}

-- Every value of each of the six wire enums prints to a name that parses back to it, with or
-- without the enum's qualifier.
pub enum_names :
    HasNames platform_string parse_platform "PLATFORM_"
    × HasNames role_string parse_role "ROLE_"
    × HasNames op_string parse_op "OP_"
    × HasNames publish_state_string parse_publish_state "PUBLISH_STATE_"
    × HasNames build_state_string parse_build_state "BUILD_STATE_"
    × HasNames runtime_kind_string parse_runtime_kind "RUNTIME_KIND_"
enum_names =
    (Platform-names, Role-names, Op-names, PublishState-names, BuildState-names, RuntimeKind-names)

-- ===== src/Pb/Enums.antt =====
-- The enums of the wire protocol: Platform, Role and Op of relay/internal/pb/wire.go, with their
-- protojson names.
use appunvs.Prelude.{
  ℕ, String, List, ◌==◌, codes, to_upper, to_lower, trim_prefix, if◌then◌else◌, codes_eq, Bool,
  ◌||◌,
}

pub data Platform : Type 0 where
  unspecified browser desktop mobile : Platform

-- Platform.String
unfoldable pub platform_string : Platform → String
platform_string Platform.browser = "browser"
platform_string Platform.desktop = "desktop"
platform_string Platform.mobile = "mobile"
platform_string Platform.unspecified = "unspecified"

platform_of_name : List ℕ → Platform
platform_of_name s =
    if s == codes "browser"
    then Platform.browser
    else if s == codes "desktop"
    then Platform.desktop
    else if s == codes "mobile"
    then Platform.mobile
    else Platform.unspecified

-- ParsePlatform: the short name or the fully qualified one, in any case.
unfoldable pub parse_platform : String → Platform
unfolding platform_of_name
parse_platform s =
    platform_of_name (to_lower (trim_prefix (to_upper (codes s)) (codes "PLATFORM_")))

pub data Role : Type 0 where
  unspecified provider connector both : Role

-- Role.String
unfoldable pub role_string : Role → String
role_string Role.provider = "provider"
role_string Role.connector = "connector"
role_string Role.both = "both"
role_string Role.unspecified = "unspecified"

role_of_name : List ℕ → Role
role_of_name s =
    if s == codes "provider"
    then Role.provider
    else if s == codes "connector"
    then Role.connector
    else if s == codes "both"
    then Role.both
    else Role.unspecified

-- ParseRole: the short name or the fully qualified one, in any case.
unfoldable pub parse_role : String → Role
unfolding role_of_name
parse_role s = role_of_name (to_lower (trim_prefix (to_upper (codes s)) (codes "ROLE_")))

pub data Op : Type 0 where
  unspecified upsert delete table_create table_delete column_add column_delete quota_exceeded : Op

-- Op.String
unfoldable pub op_string : Op → String
op_string Op.upsert = "upsert"
op_string Op.delete = "delete"
op_string Op.table_create = "table_create"
op_string Op.table_delete = "table_delete"
op_string Op.column_add = "column_add"
op_string Op.column_delete = "column_delete"
op_string Op.quota_exceeded = "quota_exceeded"
op_string Op.unspecified = "unspecified"

op_of_name : List ℕ → Op
op_of_name s =
    if s == codes "upsert"
    then Op.upsert
    else if s == codes "delete"
    then Op.delete
    else if s == codes "table_create"
    then Op.table_create
    else if s == codes "table_delete"
    then Op.table_delete
    else if s == codes "column_add"
    then Op.column_add
    else if s == codes "column_delete"
    then Op.column_delete
    else if s == codes "quota_exceeded"
    then Op.quota_exceeded
    else Op.unspecified

-- ParseOp: the short name or the fully qualified one, in any case.
unfoldable pub parse_op : String → Op
unfolding op_of_name
parse_op s = op_of_name (to_lower (trim_prefix (to_upper (codes s)) (codes "OP_")))

role_is : Role → Role → Bool
role_is Role.provider Role.provider = Bool.true
role_is Role.connector Role.connector = Bool.true
role_is Role.both Role.both = Bool.true
role_is Role.unspecified Role.unspecified = Bool.true
role_is _ _ = Bool.false

-- Role.IsProvider
unfoldable pub is_provider : Role → Bool
unfolding role_is
is_provider r = role_is r Role.provider || role_is r Role.both

-- Role.IsConnector
unfoldable pub is_connector : Role → Bool
unfolding role_is
is_connector r = role_is r Role.connector || role_is r Role.both

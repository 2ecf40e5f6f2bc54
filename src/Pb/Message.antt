-- ===== src/Pb/Message.antt =====
-- The Message of relay/internal/pb/wire.go and its JSON shape in relay/internal/pb/json.go.
use appunvs.Prelude.{
  codes_beq, to_upper, to_lower, trim_prefix, ℕ, suc, ◌≡◌, refl, String, Option, none, some, List,
  arith, Eq, ◌==◌, nat_eq, string_eq, if◌then◌else◌,
}
use appunvs.Pb.Enums.{Role, Op, role_string, op_string, parse_role, parse_op}
use appunvs.Pb.RoundTrip.{parse_role-role_string, parse_op-op_string}

-- The shape of a JSON value, as encoding/json decodes it. out_of_range is one that has a number too large
-- for a float64 in it, such as 1e999: a json.RawMessage takes it, an interface{} does not.
pub data Value : Type 0 where
  null boolean number array object out_of_range : Value
  text : String → Value

-- What json.Unmarshal answers when it reads a payload into a map: an error, or the map, whose keys
-- are unique.
pub data Decoded : Type 0 where
  undecodable : Decoded
  fields : List (String × Value) → Decoded

-- A json.RawMessage: no bytes, or n + 1 of them with what they decode to.
pub data Payload : Type 0 where
  empty : Payload
  bytes : ℕ → Decoded → Payload

unfoldable pub size : Payload → ℕ
size Payload.empty = 0
size (Payload.bytes n _) = suc n

pub record Message : Type 0 where
  pub seq : ℕ
  pub device_id : String
  pub user_id : String
  pub namespace : String
  pub role : Role
  pub op : Op
  pub table : String
  pub payload : Payload
  pub ts : ℕ

-- messageWire, where `none` is a field that omitempty leaves out.
pub record MessageWire : Type 0 where
  pub seq : Option ℕ
  pub device_id : Option String
  pub user_id : Option String
  pub namespace : Option String
  pub role : Option String
  pub op : Option String
  pub table : Option String
  pub payload : Option Payload
  pub ts : Option ℕ

-- omitempty and what a missing field decodes to.
unfoldable pub omit : {A : Type 0} ⦃e : Eq A⦄ → A → A → Option A
omit z x = if x == z then none else some x

unfoldable pub or_empty : {A : Type 0} → A → Option A → A
or_empty z none = z
or_empty z (some x) = x

-- An enum is written by name, and the unspecified one not at all.
unfoldable pub wire_role : Role → String
wire_role Role.unspecified = ""
wire_role r = role_string r

unfoldable pub wire_op : Op → String
wire_op Op.unspecified = ""
wire_op o = op_string o

unfoldable pub wire_payload : Payload → Option Payload
wire_payload Payload.empty = none
wire_payload p = some p

-- Message.MarshalJSON
unfoldable pub marshal : Message → MessageWire
unfolding wire_role wire_op wire_payload
marshal m = record {
  seq = omit 0 m.seq;
  device_id = omit "" m.device_id;
  user_id = omit "" m.user_id;
  namespace = omit "" m.namespace;
  role = omit "" (wire_role m.role);
  op = omit "" (wire_op m.op);
  table = omit "" m.table;
  payload = wire_payload m.payload;
  ts = omit 0 m.ts;
}

-- Message.UnmarshalJSON
unfoldable pub unmarshal : MessageWire → Message
unmarshal w = record {
  seq = or_empty 0 w.seq;
  device_id = or_empty "" w.device_id;
  user_id = or_empty "" w.user_id;
  namespace = or_empty "" w.namespace;
  role = parse_role (or_empty "" w.role);
  op = parse_op (or_empty "" w.op);
  table = or_empty "" w.table;
  payload = or_empty Payload.empty w.payload;
  ts = or_empty 0 w.ts;
}

or_empty-omit_nat : (n : ℕ) → or_empty 0 (omit 0 n) ≡ n
unfolding omit or_empty
or_empty-omit_nat n = ground arith

or_empty-omit_text : (s : String) → or_empty "" (omit "" s) ≡ s
unfolding omit or_empty
or_empty-omit_text s = ground arith

parse_role-wire_role : (r : Role) → parse_role (wire_role r) ≡ r
unfolding wire_role
parse_role-wire_role Role.unspecified =
    unfold parse_role codes_beq to_upper to_lower trim_prefix in refl
parse_role-wire_role Role.provider = parse_role-role_string Role.provider
parse_role-wire_role Role.connector = parse_role-role_string Role.connector
parse_role-wire_role Role.both = parse_role-role_string Role.both

parse_op-wire_op : (o : Op) → parse_op (wire_op o) ≡ o
unfolding wire_op
parse_op-wire_op Op.unspecified = unfold parse_op codes_beq to_upper to_lower trim_prefix in refl
parse_op-wire_op Op.upsert = parse_op-op_string Op.upsert
parse_op-wire_op Op.delete = parse_op-op_string Op.delete
parse_op-wire_op Op.table_create = parse_op-op_string Op.table_create
parse_op-wire_op Op.table_delete = parse_op-op_string Op.table_delete
parse_op-wire_op Op.column_add = parse_op-op_string Op.column_add
parse_op-wire_op Op.column_delete = parse_op-op_string Op.column_delete
parse_op-wire_op Op.quota_exceeded = parse_op-op_string Op.quota_exceeded

or_empty-wire_payload : (p : Payload) → or_empty Payload.empty (wire_payload p) ≡ p
unfolding or_empty wire_payload
or_empty-wire_payload Payload.empty = refl
or_empty-wire_payload (Payload.bytes n d) = refl

-- A message that is written and read back is the same message.
pub unmarshal-marshal : (m : Message) → unmarshal (marshal m) ≡ m
unfolding unmarshal marshal
unmarshal-marshal m = rw (
  or_empty-omit_nat m.seq,
  or_empty-omit_text m.device_id,
  or_empty-omit_text m.user_id,
  or_empty-omit_text m.namespace,
  or_empty-omit_text (wire_role m.role),
  parse_role-wire_role m.role,
  or_empty-omit_text (wire_op m.op),
  parse_op-wire_op m.op,
  or_empty-omit_text m.table,
  or_empty-wire_payload m.payload,
  or_empty-omit_nat m.ts,
)

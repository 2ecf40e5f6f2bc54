-- ===== src/Api/Schema.antt =====
-- relay/internal/handler/schema.go: the changes of a user's schema, and the message that tells the user's
-- connections. The JSON of a payload is a parameter; a body that does not decode is none.
pub mod Stored
pub mod Laws
use appunvs.Prelude.{
  ℕ, ◌+◌, String, Bool, true, false, not, Option, none, some, List, [], ◌∷◌, if◌then◌else◌, codes,
  has_prefix, trim_prefix, trim_space,
}
use appunvs.Pb.Enums.{Role, Op}
use appunvs.Pb.Message.{Message, Payload}
use appunvs.Store.Action.{
  Error, reserved_name, invalid_name, invalid_type, table_exists, column_exists, table_not_found,
  column_not_found, Result, ok, err, Env, World, Action, pure, ◌>>=◌,
}
use appunvs.Store.Schema
use appunvs.Store.Schema.{Table, Column}
use appunvs.Store.ApiKeys.{api_key_namespace}
use appunvs.Auth.Jwt.{Claims, token_session, Jwt, Signer, verify}
use appunvs.Ws
use appunvs.Ws.{Relay, Outcome}

-- The responses; a table and a column are shown with the fields of the store's.
pub data Reply : Type 0 where
  a_table : Table → Reply
  all_tables : List Table → Reply
  a_column : Column → Reply
  no_content bad_request unauthorized not_found conflict internal : Reply

-- SchemaMetaTable
abbrev pub schema_meta_table : String
schema_meta_table = "_schema"

-- writeSchemaErr
unfoldable pub error_reply : Error → Reply
error_reply reserved_name = Reply.bad_request
error_reply invalid_name = Reply.bad_request
error_reply invalid_type = Reply.bad_request
error_reply table_exists = Reply.conflict
error_reply column_exists = Reply.conflict
error_reply table_not_found = Reply.not_found
error_reply column_not_found = Reply.not_found
error_reply _ = Reply.internal

-- requireSession: the user of a session token, at a time.
unfoldable pub session_user : Option Claims → Option String
session_user none = none
session_user (some c) = some c.user_id

unfoldable pub require_session : Jwt → Signer → List ℕ → ℕ → Option String
require_session jwt signer header now =
    if not (has_prefix header (codes "Bearer "))
    then none
    else let token = trim_space (trim_prefix header (codes "Bearer ")) in
      if has_prefix token api_key_namespace
      then none
      else session_user (verify jwt signer token token_session now)

-- The payloads of the four messages.
pub record Payloads : Type 0 where
  pub of_table : (name : String) → Payload
  pub of_column : (table : String) → Column → Payload
  pub of_deleted : (table name : String) → Payload

-- The requests that change the schema; none is a body that does not decode.
pub data Change : Type 0 where
  create_table : Option String → Change
  delete_table : String → Change
  add_column : (table : String) → Option (String × String × Bool) → Change
  delete_column : (table name : String) → Change

unfoldable pub schema_message : String → Op → Payload → ℕ → ℕ → Message
schema_message user_id op payload n now = record {
  seq = n;
  device_id = "";
  user_id = user_id;
  namespace = user_id;
  role = Role.provider;
  op = op;
  table = schema_meta_table;
  payload = payload;
  ts = now;
}

module _ {R : Type 0} (d : Ws.Deps R) (p : Payloads) (env : Env) where
  -- broadcastSchema from the number on; a failure is only logged.
  unfoldable pub numbered : String → Op → Payload → Option ℕ × R → Relay R → Relay R
  numbered user_id op payload (none, redis) s = record s { redis = redis }
  numbered user_id op payload (some n, redis) s =
      let msg = schema_message user_id op payload n (env.clock s.world.place) in
      (Ws.stored d msg n (Ws.append d user_id msg redis)
        (record s { world = record s.world { place = s.world.place + 1 } })).1

  unfoldable pub broadcast_schema : String → Op → Payload → Relay R → Relay R
  broadcast_schema user_id op payload s =
      numbered user_id op payload (Ws.next_seq d user_id s.redis) s

  -- A handler from the outcome of the store on.
  unfoldable pub settle :
      {A : Type 0}
      → String
      → Op
      → (A → Payload)
      → (A → Reply)
      → Result A × World
      → Relay R
      → Reply × Relay R
  settle user_id op payload reply (err e, w) s = (error_reply e, record s { world = w })
  settle user_id op payload reply (ok a, w) s =
      (reply a, broadcast_schema user_id op (payload a) (record s { world = w }))

  -- CreateTable, DeleteTable, AddColumn and DeleteColumn, for the user of the session.
  unfoldable pub change : Change → String → Relay R → Reply × Relay R
  change (Change.create_table none) user_id s = (Reply.bad_request, s)
  change (Change.create_table (some name)) user_id s =
      settle user_id Op.table_create (λ t. p.of_table t.name) (λ t. Reply.a_table t)
        (Schema.create_table user_id name env s.world) s
  change (Change.delete_table name) user_id s =
      settle user_id Op.table_delete (λ _. p.of_table name) (λ _. Reply.no_content)
        (Schema.delete_table user_id name env s.world) s
  change (Change.add_column table none) user_id s = (Reply.bad_request, s)
  change (Change.add_column table (some (name, type, required))) user_id s =
      settle user_id Op.column_add (λ c. p.of_column table c) (λ c. Reply.a_column c)
        (Schema.add_column user_id table name type required env s.world) s
  change (Change.delete_column table name) user_id s =
      settle user_id Op.column_delete (λ _. p.of_deleted table name) (λ _. Reply.no_content)
        (Schema.delete_column user_id table name env s.world) s

  -- ListTables
  unfoldable pub listed : Result (List Table) × World → Relay R → Reply × Relay R
  listed (err e, w) s = (Reply.internal, record s { world = w })
  listed (ok ts, w) s = (Reply.all_tables ts, record s { world = w })

  unfoldable pub list_tables : String → Relay R → Reply × Relay R
  list_tables user_id s = listed (Schema.list_tables user_id env s.world) s

  unfoldable pub handle :
      Option String → (String → Relay R → Reply × Relay R) → Relay R → Reply × Relay R
  handle none f s = (Reply.unauthorized, s)
  handle (some user_id) f s = f user_id s

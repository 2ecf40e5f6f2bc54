-- ===== src/Ws/Validate.antt =====
-- validateAgainstSchema and checkColumnType of relay/internal/handler/ws.go.
pub mod Laws
use appunvs.Prelude.{
  ℕ, String, Bool, true, false, not, ◌&&◌, ◌||◌, Option, none, some, List, [], ◌∷◌, ◌==◌, string_eq,
  if◌then◌else◌, find, is_some,
}
use appunvs.Pb.Enums.{Op}
use appunvs.Pb.Message.{Message, Payload, Decoded, Value}
use appunvs.Store.Action.{Action, Result, ok, err, other, pure, fail, ◌>>=◌, ◌>>◌}
use appunvs.Store.Schema.{Column, Table, get_table}

-- A map decoded from a payload, and a look into it.
abbrev pub Fields : Type 0
Fields = List (String × Value)

unfoldable pub field : String → Fields → Option Value
field name [] = none
field name ((k, v) ∷ fs) = let rest = field name fs in if k == name then some v else rest

-- payload["id"] as a text that is not empty
unfoldable pub has_id : Option Value → Bool
has_id (some (Value.text s)) = not (s == "")
has_id _ = false

-- checkColumnType
unfoldable pub is_text : Value → Bool
is_text (Value.text _) = true
is_text _ = false

unfoldable pub is_number : Value → Bool
is_number Value.number = true
is_number _ = false

unfoldable pub is_boolean : Value → Bool
is_boolean Value.boolean = true
is_boolean _ = false

unfoldable pub is_null : Value → Bool
is_null Value.null = true
is_null _ = false

-- Does json.Unmarshal take the value into an interface{}?
unfoldable pub is_in_range : Value → Bool
is_in_range Value.out_of_range = false
is_in_range _ = true

unfoldable pub check_column_type : String → Value → Bool
check_column_type type v =
    if is_null v
    then true
    else if not (is_in_range v)
    then false
    else if type == "text"
    then is_text v
    else if type == "number"
    then is_number v
    else if type == "bool"
    then is_boolean v
    else type == "json"

-- Is every required column there?
unfoldable pub has_required : List Column → Fields → Bool
has_required [] fs = true
has_required (c ∷ cs) fs = (not c.required || is_some (field c.name fs)) && has_required cs fs

-- One key of the payload against the columns, whose names are unique within a table.
unfoldable pub key_conforms : List Column → String → Value → Bool
key_conforms columns k v = elim (find (λ c. c.name == k) columns) [
  | none ↦ true
  | some c ↦ check_column_type c.type v
]

unfoldable pub all_conform : List Column → Fields → Bool
all_conform columns [] = true
all_conform columns ((k, v) ∷ fs) =
    (k == "id" || key_conforms columns k v) && all_conform columns fs

-- A check that answers an error that nobody tells apart.
unfoldable pub ensure : Bool → Action (Unit {0})
ensure b = if b then pure tt else fail other

-- The map of a payload: none for a missing or an undecodable one.
unfoldable pub fields_of : Payload → Option Fields
fields_of Payload.empty = none
fields_of (Payload.bytes _ Decoded.undecodable) = none
fields_of (Payload.bytes _ (Decoded.fields fs)) = some fs

-- Into a map[string]interface{} a payload decodes only if each of its values does.
unfoldable pub all_in_range : Fields → Bool
all_in_range [] = true
all_in_range ((k, v) ∷ fs) = is_in_range v && all_in_range fs

unfoldable pub check_delete : Message → Option Fields → Action (Unit {0})
check_delete msg none = fail other
check_delete msg (some fs) = do
  ensure (all_in_range fs)
  ensure (has_id (field "id" fs))
  _ ← get_table msg.user_id msg.table
  pure tt

unfoldable pub check_upsert : Table → Option Fields → Action (Unit {0})
check_upsert t none = fail other
check_upsert t (some fs) = do
  ensure (has_id (field "id" fs))
  ensure (has_required t.columns fs)
  ensure (all_conform t.columns fs)

-- validateAgainstSchema
unfoldable pub is_delete : Op → Bool
is_delete Op.delete = true
is_delete _ = false

unfoldable pub validate_against_schema : Message → Action (Unit {0})
validate_against_schema msg =
    if msg.table == ""
    then fail other
    else if msg.table == "_schema"
    then fail other
    else if is_delete msg.op
    then check_delete msg (fields_of msg.payload)
    else do t ← get_table msg.user_id msg.table; check_upsert t (fields_of msg.payload)

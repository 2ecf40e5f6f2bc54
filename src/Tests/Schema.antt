-- ===== src/Tests/Schema.antt =====
-- Runs of relay/internal/store/schema.go and of the validation over it.
use appunvs.Prelude.{
  ◌≡◌, ◌≢◌, ◌⊎◌, ◌↔◌, refl, ap, ◌==◌, string_eq, String, true, false, none, some, [], ◌∷◌, codes,
  find, String-discrete, arith,
}
use appunvs.Pb.Enums.{Role, Op}
use appunvs.Pb.Message.{Message, Payload, Decoded, Value}
use appunvs.Store.Tables.{TableRow, ColumnRow}
use appunvs.Store.Action.{World, ok, err, reserved_name, invalid_name}
use appunvs.Store.Schema.{
  Column, Table, create_table, delete_table, add_column, delete_column, get_table,
}
use appunvs.Store.Schema.Names.{valid_table_name, valid_column_name, matches_name}
use appunvs.Store.Schema.Valid.{valid_names}
use appunvs.Store.Schema.Laws.{Linked, schema-Linked}
use appunvs.Ws.Validate.{Fields, fields_of, validate_against_schema}
use appunvs.Ws.Validate.Laws.{Accepts, upsert-Accepts}
use appunvs.Tests.Data.{env, world, tables}

valid_names_example :
    ((valid_table_name "_notes" ≡ ok tt) ↔ (matches_name (codes "_notes") ≡ true))
    × ((valid_column_name "_notes" ≡ ok tt)
        ↔ ((matches_name (codes "_notes") ≡ true) × (◌≢◌ {A = String} "_notes" "id")))
    × ((valid_table_name "_notes" ≡ ok tt)
        ⊎ (valid_table_name "_notes" ≡ err reserved_name)
        ⊎ (valid_table_name "_notes" ≡ err invalid_name))
    × ((valid_column_name "_notes" ≡ ok tt)
        ⊎ (valid_column_name "_notes" ≡ err reserved_name)
        ⊎ (valid_column_name "_notes" ≡ err invalid_name))
valid_names_example = valid_names "_notes"

-- The table `notes` with a text column that is required.
abbrev notes : TableRow
notes = record { user_id = "ann"; name = "notes"; created_at = 3 }

abbrev title : ColumnRow
title = record {
  user_id = "ann";
  table_name = "notes";
  name = "title";
  type = "text";
  required = 1;
  created_at = 4;
}

abbrev with_notes : World
with_notes = record world {
  tables = record tables { app_tables = notes ∷ []; app_columns = title ∷ [] };
}

notes_run : Linked with_notes.tables
unfolding find String-discrete
notes_run = (refl, tt)

schema-Linked_example :
    Linked (create_table "ann" "todo" env with_notes).1.tables
    × Linked (delete_table "ann" "todo" env with_notes).1.tables
    × Linked (add_column "ann" "todo" "done" "bool" false env with_notes).1.tables
    × Linked (delete_column "ann" "todo" "done" env with_notes).1.tables
schema-Linked_example = schema-Linked "ann" "todo" "done" "bool" false env with_notes notes_run

abbrev msg : Message
msg = record {
  seq = 0;
  device_id = "dev";
  user_id = "ann";
  namespace = "ann";
  role = Role.provider;
  op = Op.upsert;
  table = "notes";
  payload =
      Payload.bytes 20 (Decoded.fields (("id", Value.text "n1") ∷ ("title", Value.text "x") ∷ []));
  ts = 5;
}

abbrev table : Table
table = record {
  name = "notes";
  created_at = 3;
  columns = record { name = "title"; type = "text"; required = true; created_at = 4 } ∷ [];
}

abbrev read : World
read = (get_table "ann" "notes" env with_notes).1

get_run : get_table "ann" "notes" env with_notes ≡ (ok table, read)
unfolding find String-discrete get_table appunvs.Store.Action.query
    appunvs.Store.Schema.with_columns appunvs.Store.Schema.list_columns appunvs.Prelude.order_by
    appunvs.Prelude.select appunvs.Store.Schema.column_of_row
get_run = refl

notes_named : ◌≢◌ {A = String} "notes" ""
unfolding String-discrete
notes_named =
    λ e. let b : false ≡ true = ap (λ s. ◌==◌ {A = String} s "") e in absurd (ground arith)

notes_free : ◌≢◌ {A = String} "notes" "_schema"
unfolding String-discrete
notes_free =
    λ e. let b : false ≡ true = ap (λ s. ◌==◌ {A = String} s "_schema") e in absurd (ground arith)

upsert-Accepts_example :
    ((validate_against_schema msg env with_notes).0 ≡ ok tt)
    ↔ ((fs : Fields) × (fields_of msg.payload ≡ some fs) × Accepts table.columns fs)
upsert-Accepts_example =
    upsert-Accepts msg table env with_notes read refl notes_named notes_free get_run

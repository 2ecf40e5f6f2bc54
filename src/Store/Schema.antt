-- ===== src/Store/Schema.antt =====
-- relay/internal/store/schema.go: the tables and columns that a user declares.
pub mod Names
pub mod Laws
pub mod Valid
use appunvs.Prelude.{
  ℕ, ◌+◌, String, Bool, true, false, not, ◌&&◌, ◌||◌, Option, none, some, List, [], ◌∷◌, ◌++◌, map,
  ◌==◌, ltb, leb, if◌then◌else◌, string_eq, nat_eq, find, select, count, delete_where, order_by,
  is_some, codes, codes_ltb,
}
use appunvs.Store.Tables.{UserRow, TableRow, ColumnRow, Tables}
use appunvs.Store.Action.{
  Error, table_exists, table_not_found, column_exists, column_not_found, unique, foreign_key,
  Result, ok, err, Action, pure, fail, attempt, ◌>>=◌, ◌>>◌, now_millis, query, exec,
}
use appunvs.Store.Schema.Names.{valid_table_name, valid_column_name, valid_column_type}

pub record Column : Type 0 where
  pub name : String
  pub type : String
  pub required : Bool
  pub created_at : ℕ

pub record Table : Type 0 where
  pub name : String
  pub created_at : ℕ
  pub columns : List Column

-- WHERE user_id = ? AND name = ?
abbrev pub is_table : String → String → TableRow → Bool
is_table user_id name r = r.user_id == user_id && r.name == name

-- WHERE user_id = ? AND table_name = ?, and with AND name = ?
abbrev pub in_table : String → String → ColumnRow → Bool
in_table user_id table_name r = r.user_id == user_id && r.table_name == table_name

abbrev pub is_column : String → String → String → ColumnRow → Bool
is_column user_id table_name name r = in_table user_id table_name r && r.name == name

-- A check that answers an error, as a step of an action.
unfoldable pub require : Result (Unit {0}) → Action (Unit {0})
require r env w = (r, w)

-- The INSERT of CreateTable: (user_id, name) is the primary key and user_id a foreign key.
unfoldable pub insert_table : TableRow → Tables → Result (Unit {0} × Tables)
insert_table r t =
    if is_some (find (is_table r.user_id r.name) t.app_tables)
    then err unique
    else if is_some (find (λ u. u.id == r.user_id) t.users)
    then ok (tt, record t { app_tables = t.app_tables ++ r ∷ [] })
    else err foreign_key

-- A violated primary key, found by the text of the driver's error, becomes the sentinel.
unfoldable pub or_exists : Error → Result (Unit {0}) → Action (Unit {0})
or_exists e (ok _) = pure tt
or_exists e (err unique) = fail e
or_exists e (err x) = fail x

-- Schema.CreateTable
unfoldable pub create_table : String → String → Action Table
create_table user_id name = do
  require (valid_table_name name)
  now ← now_millis
  done ← attempt (exec (insert_table (record { user_id = user_id; name = name; created_at = now })))
  or_exists table_exists done
  pure (record { name = name; created_at = now; columns = [] })

-- DELETE FROM app_tables …, whose foreign key takes the columns of the table along.
unfoldable pub drop_table : String → String → Tables → Result (ℕ × Tables)
drop_table user_id name t = ok (
  count (is_table user_id name) t.app_tables,
  if is_some (find (is_table user_id name) t.app_tables)
      then record t {
        app_tables = delete_where (is_table user_id name) t.app_tables;
        app_columns = delete_where (in_table user_id name) t.app_columns;
      }
      else t,
)

unfoldable pub require_found : Error → ℕ → Action (Unit {0})
require_found e n = if n == 0 then fail e else pure tt

-- Schema.DeleteTable
unfoldable pub delete_table : String → String → Action (Unit {0})
delete_table user_id name = do
  require (valid_table_name name)
  n ← exec (drop_table user_id name)
  require_found table_not_found n

unfoldable pub column_of_row : ColumnRow → Column
column_of_row r = record {
  name = r.name;
  type = r.type;
  required = not (r.required == 0);
  created_at = r.created_at;
}

-- ORDER BY created_at, name
abbrev pub older : ColumnRow → ColumnRow → Bool
older a b =
    ltb a.created_at b.created_at
    || (a.created_at == b.created_at && codes_ltb (codes a.name) (codes b.name))

-- Schema.listColumns
unfoldable pub list_columns : String → String → Action (List Column)
list_columns user_id table_name =
    query
      λ t. map column_of_row (order_by older (select (in_table user_id table_name) t.app_columns))

-- A table's row with its columns, which a second statement reads.
unfoldable pub with_columns : String → TableRow → Action Table
with_columns user_id r = do
  columns ← list_columns user_id r.name
  pure (record { name = r.name; created_at = r.created_at; columns = columns })

-- Schema.GetTable
unfoldable pub get_table : String → String → Action Table
get_table user_id name = do
  found ← query (λ t. find (is_table user_id name) t.app_tables)
  elim found [ none ↦ fail table_not_found | some r ↦ with_columns user_id r ]

unfoldable pub all_with_columns : String → List TableRow → Action (List Table)
all_with_columns user_id [] = pure []
all_with_columns user_id (r ∷ rs) = do
  t ← with_columns user_id r
  ts ← all_with_columns user_id rs
  pure (t ∷ ts)

-- Schema.ListTables
unfoldable pub list_tables : String → Action (List Table)
list_tables user_id = do
  rows ← query (λ t.
      order_by (λ a b. codes_ltb (codes a.name) (codes b.name))
        (select (λ r. r.user_id == user_id) t.app_tables))
  all_with_columns user_id rows

-- The INSERT of AddColumn: its primary key, and its foreign key into app_tables.
unfoldable pub insert_column : ColumnRow → Tables → Result (Unit {0} × Tables)
insert_column r t =
    if is_some (find (is_column r.user_id r.table_name r.name) t.app_columns)
    then err unique
    else if is_some (find (is_table r.user_id r.table_name) t.app_tables)
    then ok (tt, record t { app_columns = t.app_columns ++ r ∷ [] })
    else err foreign_key

-- Schema.AddColumn behind its checks.
unfoldable pub add_checked : String → String → String → String → Bool → Action Column
add_checked user_id table_name name type required = do
  parent ← query (λ t. is_some (find (is_table user_id table_name) t.app_tables))
  if parent then pure tt else fail table_not_found
  now ← now_millis
  done ← attempt (
      exec (
        insert_column (record {
          user_id = user_id;
          table_name = table_name;
          name = name;
          type = type;
          required = if required then 1 else 0;
          created_at = now;
        })))
  or_exists column_exists done
  pure (record { name = name; type = type; required = required; created_at = now })

-- Schema.AddColumn
unfoldable pub add_column : String → String → String → String → Bool → Action Column
add_column user_id table_name name type required =
    require (valid_table_name table_name)
    >> (require (valid_column_name name)
        >> (require (valid_column_type type) >> add_checked user_id table_name name type required))

-- DELETE FROM app_columns …, with the rows affected.
unfoldable pub drop_column : String → String → String → Tables → Result (ℕ × Tables)
drop_column user_id table_name name t = ok (
  count (is_column user_id table_name name) t.app_columns,
  record t { app_columns = delete_where (is_column user_id table_name name) t.app_columns },
)

-- Schema.DeleteColumn behind its checks, and whole.
unfoldable pub delete_checked : String → String → String → Action (Unit {0})
delete_checked user_id table_name name = do
  n ← exec (drop_column user_id table_name name)
  require_found column_not_found n

unfoldable pub delete_column : String → String → String → Action (Unit {0})
delete_column user_id table_name name =
    require (valid_table_name table_name)
    >> (require (valid_column_name name) >> delete_checked user_id table_name name)

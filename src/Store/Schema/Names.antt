-- ===== src/Store/Schema/Names.antt =====
-- The names and types of relay/internal/store/schema.go.
use appunvs.Prelude.{
  ℕ, String, Bool, true, false, ◌&&◌, ◌||◌, List, [], ◌∷◌, ◌==◌, leb, if◌then◌else◌, string_eq,
  nat_eq, codes, length,
}
use appunvs.Store.Action.{Result, ok, err, invalid_name, reserved_name, invalid_type}

-- [a-z]
unfoldable pub is_lower : ℕ → Bool
is_lower c = leb 97 c && leb c 122

-- [a-z0-9_]
unfoldable pub is_name_code : ℕ → Bool
unfolding is_lower
is_name_code c = is_lower c || (leb 48 c && leb c 57) || c == 95

unfoldable pub all_name_codes : List ℕ → Bool
unfolding is_name_code
all_name_codes [] = true
all_name_codes (c ∷ cs) = is_name_code c && all_name_codes cs

-- nameRE: ^[a-z][a-z0-9_]{0,63}$
unfoldable pub matches_name : List ℕ → Bool
unfolding all_name_codes
matches_name [] = false
matches_name (c ∷ cs) = is_lower c && (all_name_codes cs && leb (length cs) 63)

-- strings.HasPrefix(name, "_")
unfoldable pub starts_with_underscore : List ℕ → Bool
starts_with_underscore [] = false
starts_with_underscore (c ∷ cs) = c == 95

-- ValidTableName
unfoldable pub valid_table_name : String → Result (Unit {0})
valid_table_name name =
    if name == ""
    then err invalid_name
    else if starts_with_underscore (codes name)
    then err reserved_name
    else if matches_name (codes name)
    then ok tt
    else err invalid_name

-- ValidColumnName
unfoldable pub valid_column_name : String → Result (Unit {0})
valid_column_name name =
    if name == ""
    then err invalid_name
    else if name == "id"
    then err reserved_name
    else if starts_with_underscore (codes name)
    then err reserved_name
    else if matches_name (codes name)
    then ok tt
    else err invalid_name

-- ValidColumnType, over ColumnTypeText, ColumnTypeNumber, ColumnTypeBool and ColumnTypeJSON
unfoldable pub valid_column_type : String → Result (Unit {0})
valid_column_type type =
    if type == "text" || type == "number" || type == "bool" || type == "json"
    then ok tt
    else err invalid_type

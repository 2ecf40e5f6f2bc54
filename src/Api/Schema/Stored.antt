-- ===== src/Api/Schema/Stored.antt =====
-- What the store of schemas answers to the handlers of relay/internal/handler/schema.go.
use appunvs.Prelude.{◌≡◌, refl, String, Bool, arith, find, inl, inr, Option-cases, nat_eq}
use appunvs.Prelude.Rows.Laws.{count_of_none, count_of_some, delete_of_none}
use appunvs.Store.Schema.Names.{valid_table_name, valid_column_name, valid_column_type}
use appunvs.Store.Action.{Error, Action, ◌>>◌, Result, ok, err, Env, World, now_millis, exec, query}
use appunvs.Store.Schema
use appunvs.Store.Schema.{Table, Column, is_table, in_table, is_column}

pub create_table_err :
    (user_id name : String) (e : Error) (env : Env) (w : World)
    → (Schema.create_table user_id name env w).0 ≡ err e
    → (Schema.create_table user_id name env w).1.tables ≡ w.tables
unfolding Schema.create_table Schema.require now_millis exec Schema.or_exists Schema.insert_table
create_table_err user_id name e env w h = ground arith

pub delete_table_err :
    (user_id name : String) (e : Error) (env : Env) (w : World)
    → (Schema.delete_table user_id name env w).0 ≡ err e
    → (Schema.delete_table user_id name env w).1.tables ≡ w.tables
unfolding Schema.delete_table Schema.require exec Schema.drop_table Schema.require_found
delete_table_err user_id name e env w h =
    elim (Option-cases (find (is_table user_id name) w.app_tables)) [
      | inl x ↦ let n = count_of_none (is_table user_id name) w.app_tables x in ground (arith, x, n)
      | inr (r, x) ↦
          let n = count_of_some (is_table user_id name) w.app_tables r x in ground (arith, x, n)
    ]

-- An action that changes no table when it ends in an error, and the same behind a check.
abbrev pub IsAtomic : {A : Type 0} → Action A → Type 0
IsAtomic m =
    (e : Error) (env : Env) (w : World) → (m env w).0 ≡ err e → (m env w).1.tables ≡ w.tables

require-IsAtomic :
    {A : Type 0} (r : Result (Unit {0})) (m : Action A)
    → IsAtomic m
    → IsAtomic (Schema.require r >> m)
unfolding Schema.require
require-IsAtomic (ok _) m a e env w h = a e env w h
require-IsAtomic (err x) m a e env w h = refl

add_checked-IsAtomic :
    (user_id table name type : String) (required : Bool)
    → IsAtomic (Schema.add_checked user_id table name type required)
unfolding Schema.add_checked now_millis exec query Schema.or_exists Schema.insert_column
add_checked-IsAtomic user_id table name type required e env w h = ground arith

pub add_column-IsAtomic :
    (user_id table name type : String) (required : Bool)
    → IsAtomic (Schema.add_column user_id table name type required)
unfolding Schema.add_column
add_column-IsAtomic user_id table name type required = require-IsAtomic (valid_table_name table) _ (
    require-IsAtomic (valid_column_name name) _ (
      require-IsAtomic (valid_column_type type) _
        (add_checked-IsAtomic user_id table name type required)))

delete_checked-IsAtomic :
    (user_id table name : String) → IsAtomic (Schema.delete_checked user_id table name)
unfolding Schema.delete_checked exec Schema.drop_column Schema.require_found
delete_checked-IsAtomic user_id table name e env w h =
    elim (Option-cases (find (is_column user_id table name) w.app_columns)) [
      | inl x ↦
          let n = count_of_none (is_column user_id table name) w.app_columns x in
          let same = delete_of_none (is_column user_id table name) w.app_columns x in
          ground (arith, n, same)
      | inr (r, x) ↦
          let n = count_of_some (is_column user_id table name) w.app_columns r x in
          ground (arith, n)
    ]

pub delete_column-IsAtomic :
    (user_id table name : String) → IsAtomic (Schema.delete_column user_id table name)
unfolding Schema.delete_column
delete_column-IsAtomic user_id table name =
    require-IsAtomic (valid_table_name table) _
      (require-IsAtomic (valid_column_name name) _ (delete_checked-IsAtomic user_id table name))

pub create_table_names :
    (user_id name : String) (t : Table) (env : Env) (w : World)
    → (Schema.create_table user_id name env w).0 ≡ ok t
    → t.name ≡ name
unfolding Schema.create_table Schema.require now_millis exec Schema.or_exists Schema.insert_table
create_table_names user_id name t env w h = ground arith

-- The column of a request.
abbrev pub IsAsked : String → String → Bool → Column → Type 0
IsAsked name type required c = (c.name ≡ name) × (c.type ≡ type) × (c.required ≡ required)

-- What an action answers with, and the same behind a check.
abbrev pub Answers : {A : Type 0} → (A → Type 0) → Action A → Type 0
Answers q m = (a : _) (env : Env) (w : World) → (m env w).0 ≡ ok a → q a

require-Answers :
    {A : Type 0} (q : A → Type 0) (r : Result (Unit {0})) (m : Action A)
    → Answers q m
    → Answers q (Schema.require r >> m)
unfolding Schema.require
require-Answers q (ok _) m f a env w h = f a env w h
require-Answers q (err x) m f a env w h = absurd (ground arith)

add_checked-IsAsked :
    (user_id table name type : String) (required : Bool)
    → Answers (IsAsked name type required) (Schema.add_checked user_id table name type required)
unfolding Schema.add_checked now_millis exec query Schema.or_exists Schema.insert_column
add_checked-IsAsked user_id table name type required c env w h =
    (ground arith, ground arith, ground arith)

pub add_column-IsAsked :
    (user_id table name type : String) (required : Bool)
    → Answers (IsAsked name type required) (Schema.add_column user_id table name type required)
unfolding Schema.add_column
add_column-IsAsked user_id table name type required =
    let q = IsAsked name type required in
    require-Answers q (valid_table_name table) _ (
      require-Answers q (valid_column_name name) _ (
        require-Answers q (valid_column_type type) _
          (add_checked-IsAsked user_id table name type required)))

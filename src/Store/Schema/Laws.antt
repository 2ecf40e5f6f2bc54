-- ===== src/Store/Schema/Laws.antt =====
-- Columns and their tables in relay/internal/store/schema.go.
use appunvs.Prelude.{
  ◌≡◌, refl, String, Bool, true, false, List, [], ◌∷◌, ◌++◌, arith, string_eq, nat_eq,
  if◌then◌else◌, find, count, delete_where, is_some, All, Option-cases, ◌⊎◌, ◌+◌, or_right, inl,
  inr, ℕ,
}
use appunvs.Prelude.Rows.Laws.{
  find-append_old, find-delete_other, All-weaken, All-delete_where, All-append_one,
}
use appunvs.Store.Tables.{TableRow, ColumnRow, Tables}
use appunvs.Store.Action.{Env, World, Result, ok, err, Action, ◌>>◌, exec, query, now_millis}
use appunvs.Store.Schema.Names.{valid_table_name, valid_column_name, valid_column_type}
use appunvs.Store.Schema.{
  is_table, in_table, is_column, insert_table, drop_table, insert_column, drop_column, require,
  or_exists, require_found, create_table, delete_table, add_column, delete_column, add_checked,
  delete_checked,
}

-- A column whose table is there.
abbrev HasTable : List TableRow → ColumnRow → Type 0
HasTable ts c = is_some (find (is_table c.user_id c.table_name) ts) ≡ true

-- Every column has its table.
abbrev pub Linked : Tables → Type 0
Linked t = All (HasTable t.app_tables) t.app_columns

HasTable-append :
    (ts : List TableRow) (r : TableRow) (c : ColumnRow) → HasTable ts c → HasTable (ts ++ r ∷ []) c
HasTable-append ts r c h = elim (Option-cases (find (is_table c.user_id c.table_name) ts)) [
  | inl e ↦ absurd (ground (arith, e))
  | inr (x, e) ↦
      let f = find-append_old (is_table c.user_id c.table_name) ts (r ∷ []) x e in ground (arith, f)
]

insert_table-Linked :
    (r : TableRow) (t t' : Tables) → insert_table r t ≡ ok (tt, t') → Linked t → Linked t'
unfolding insert_table
insert_table-Linked r t t' e h =
    let (ts, cs) : (t'.app_tables ≡ t.app_tables ++ r ∷ []) × (t'.app_columns ≡ t.app_columns) =
      ground arith in
    rw (ts, cs) (All-weaken _ _ (HasTable-append t.app_tables r) t.app_columns h)

HasTable-delete :
    (user_id name : String) (ts : List TableRow) (c : ColumnRow)
    → in_table user_id name c ≡ false
    → HasTable ts c
    → HasTable (delete_where (is_table user_id name) ts) c
HasTable-delete user_id name ts c out h =
    let f =
      find-delete_other (is_table user_id name) (is_table c.user_id c.table_name)
        (λ x e. ground (arith, out)) ts in
    rw f h

drop_table-Linked :
    (user_id name : String) (t t' : Tables) (n : ℕ)
    → drop_table user_id name t ≡ ok (n, t')
    → Linked t
    → Linked t'
unfolding drop_table
drop_table-Linked user_id name t t' n e h =
    elim (Option-cases (find (is_table user_id name) t.app_tables)) [
      | inl x ↦ let same : t' ≡ t = ground (arith, x) in rw same h
      | inr (r, x) ↦
          let (ts, cs) : (t'.app_tables ≡ delete_where (is_table user_id name) t.app_tables)
              × (t'.app_columns ≡ delete_where (in_table user_id name) t.app_columns) =
            (ground (arith, x), ground (arith, x)) in
          rw (ts, cs)
            (All-delete_where _ _ (in_table user_id name)
              (HasTable-delete user_id name t.app_tables) t.app_columns h)
    ]

insert_column-Linked :
    (r : ColumnRow) (t t' : Tables) → insert_column r t ≡ ok (tt, t') → Linked t → Linked t'
unfolding insert_column
insert_column-Linked r t t' e h =
    let (ts, cs) : (t'.app_tables ≡ t.app_tables) × (t'.app_columns ≡ t.app_columns ++ r ∷ []) =
      ground arith in
    let there : HasTable t.app_tables r = ground arith in
    rw (ts, cs) (All-append_one _ t.app_columns r h there)

drop_column-Linked :
    (user_id table_name name : String) (t t' : Tables) (n : ℕ)
    → drop_column user_id table_name name t ≡ ok (n, t')
    → Linked t
    → Linked t'
unfolding drop_column
drop_column-Linked user_id table_name name t t' n e h =
    let (ts, cs) : (t'.app_tables ≡ t.app_tables)
        × (t'.app_columns ≡ delete_where (is_column user_id table_name name) t.app_columns) =
      (ground arith, ground arith) in
    rw (ts, cs)
      (All-delete_where _ _ (is_column user_id table_name name) (λ x _ p. p) t.app_columns h)

-- What each operation leaves: the tables as they were, or what its one statement makes of them.
create_table-insert :
    (user_id name : String) (env : Env) (w : World)
    → let t' = (create_table user_id name env w).1.tables in
      (t' ≡ w.tables)
      ⊎ (insert_table
            (record { user_id = user_id; name = name; created_at = env.clock w.place })
            w.tables
          ≡ ok (tt, t'))
unfolding create_table require now_millis exec or_exists
create_table-insert user_id name env w = ground arith

delete_table-drop :
    (user_id name : String) (env : Env) (w : World)
    → let t' = (delete_table user_id name env w).1.tables in
      (t' ≡ w.tables)
      ⊎ (drop_table user_id name w.tables ≡ ok (count (is_table user_id name) w.app_tables, t'))
unfolding delete_table require exec require_found drop_table
delete_table-drop user_id name env w = ground arith

-- A check goes on to what stands behind it, or ends there.
checked :
    {A : Type 0} (P : Tables → Type 0) (r : Result (Unit {0})) (m : Action A) (env : Env)
    (w : World)
    → ((m env w).1.tables ≡ w.tables) ⊎ P (m env w).1.tables
    → (((require r >> m) env w).1.tables ≡ w.tables) ⊎ P ((require r >> m) env w).1.tables
unfolding require
checked P (ok _) m env w h = h
checked P (err e) m env w h = inl refl

add_column-insert :
    (user_id table_name name type : String) (required : Bool) (env : Env) (w : World)
    → let t' = (add_column user_id table_name name type required env w).1.tables in
      (t' ≡ w.tables) ⊎ ((r : ColumnRow) × (insert_column r w.tables ≡ ok (tt, t')))
unfolding add_column
add_column-insert user_id table_name name type required env w =
    checked P (valid_table_name table_name) _ env w (
      checked P (valid_column_name name) _ env w (
        checked P (valid_column_type type) (add_checked user_id table_name name type required) env w
          (or_right behind (λ x. (row, x)))))
  where
    P : Tables → Type 0
    P t' = (r : ColumnRow) × (insert_column r w.tables ≡ ok (tt, t'))

    row : ColumnRow
    row = record {
      user_id = user_id;
      table_name = table_name;
      name = name;
      type = type;
      required = if required then 1 else 0;
      created_at = env.clock (w.place + 1);
    }

    behind :
        let t' = (add_checked user_id table_name name type required env w).1.tables in
        (t' ≡ w.tables) ⊎ (insert_column row w.tables ≡ ok (tt, t'))
    behind = unfold add_checked query now_millis exec or_exists in ground arith

delete_column-drop :
    (user_id table_name name : String) (env : Env) (w : World)
    → let t' = (delete_column user_id table_name name env w).1.tables in
      (t' ≡ w.tables)
      ⊎ (drop_column user_id table_name name w.tables
          ≡ ok (count (is_column user_id table_name name) w.app_columns, t'))
unfolding delete_column
delete_column-drop user_id table_name name env w = checked P (valid_table_name table_name) _ env w (
    checked P (valid_column_name name) (delete_checked user_id table_name name) env w
      (unfold delete_checked exec require_found drop_column in ground arith))
  where
    P : Tables → Type 0
    P t' =
        drop_column user_id table_name name w.tables
        ≡ ok (count (is_column user_id table_name name) w.app_columns, t')

kept : {A : Type 0} (t t' : Tables) → Linked t → (t' ≡ t) ⊎ A → (A → Linked t') → Linked t'
kept t t' h (inl e) f = rw e h
kept t t' h (inr a) f = f a

-- However an operation on the schema ends, driver failures included, every column still has its
-- table: a table that goes takes its columns along, and no column comes without a table.
pub schema-Linked :
    (user_id table_name name type : String) (required : Bool) (env : Env) (w : World)
    → Linked w.tables
    → Linked (create_table user_id table_name env w).1.tables
      × Linked (delete_table user_id table_name env w).1.tables
      × Linked (add_column user_id table_name name type required env w).1.tables
      × Linked (delete_column user_id table_name name env w).1.tables
schema-Linked user_id table_name name type required env w h = (
  kept w.tables _ h (create_table-insert user_id table_name env w)
      (λ e. insert_table-Linked _ w.tables _ e h),
  kept w.tables _ h (delete_table-drop user_id table_name env w)
      (λ e. drop_table-Linked user_id table_name w.tables _ _ e h),
  kept w.tables _ h (add_column-insert user_id table_name name type required env w)
      (λ (r, e). insert_column-Linked r w.tables _ e h),
  kept w.tables _ h (delete_column-drop user_id table_name name env w)
      (λ e. drop_column-Linked user_id table_name name w.tables _ _ e h),
)

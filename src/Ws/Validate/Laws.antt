-- ===== src/Ws/Validate/Laws.antt =====
-- What validateAgainstSchema of relay/internal/handler/ws.go accepts, against the rules that its
-- comment gives.
use appunvs.Prelude.{
  ◌≡◌, ◌≢◌, ◌↔◌, ◌⊎◌, inl, inr, refl, String, true, false, not, ◌||◌, Option, none, some, List, [],
  ◌∷◌, ◌==◌, string_eq, find, is_some, arith, All, String-discrete, Option-cases,
}
use appunvs.Pb.Enums.{Op}
use appunvs.Pb.Message.{Message, Value}
use appunvs.Store.Action.{Env, World, ok, bind-of-ok}
use appunvs.Store.Schema.{Column, Table, get_table}
use appunvs.Ws.Validate.{
  Fields, field, has_id, is_text, is_number, is_boolean, is_null, is_in_range, check_column_type,
  has_required, key_conforms, all_conform, ensure, fields_of, check_upsert, is_delete,
  validate_against_schema,
}

-- A value of a column's type: null, or what the type's name says; for json whatever decodes, that is,
-- has no number out of the range of a float64.
pub data Typed : String → Value → Type 0 where
  unset : {type : String} → Typed type Value.null
  of_text : {s : String} → Typed "text" (Value.text s)
  of_number : Typed "number" Value.number
  of_bool : Typed "bool" Value.boolean
  of_json : {v : Value} → v ≢ Value.out_of_range → Typed "json" v

in_range : (v : Value) → is_in_range v ≡ true → v ≢ Value.out_of_range
unfolding is_in_range
in_range v h e = let h' = rw e at h in ground (arith, h')

check-Typed : (type : String) (v : Value) → check_column_type type v ≡ true → Typed type v
unfolding check_column_type is_null is_in_range is_text is_number is_boolean
check-Typed type v h = elim (String-discrete type "json") [
  | yes e ↦ let h' = rw e at h in rw e (json v h')
  | no n ↦ go n v h
]
  where
    json : (v : Value) → check_column_type "json" v ≡ true → Typed "json" v
    json Value.null h = Typed.unset
    json (Value.text s) h = Typed.of_json (in_range (Value.text s) refl)
    json Value.number h = Typed.of_json (in_range Value.number refl)
    json Value.boolean h = Typed.of_json (in_range Value.boolean refl)
    json Value.array h = Typed.of_json (in_range Value.array refl)
    json Value.object h = Typed.of_json (in_range Value.object refl)
    json Value.out_of_range h = absurd (ground arith)

    go : type ≢ "json" → (v : Value) → check_column_type type v ≡ true → Typed type v
    go n Value.null h = Typed.unset
    go n (Value.text s) h = let e : type ≡ "text" = ground arith in rw e Typed.of_text
    go n Value.number h = let e : type ≡ "number" = ground arith in rw e Typed.of_number
    go n Value.boolean h = let e : type ≡ "bool" = ground arith in rw e Typed.of_bool
    go n Value.array h = absurd (ground arith)
    go n Value.object h = absurd (ground arith)
    go n Value.out_of_range h = absurd (ground arith)

Typed-check : (type : String) (v : Value) → Typed type v → check_column_type type v ≡ true
unfolding check_column_type is_null is_in_range is_text is_number is_boolean String-discrete
Typed-check type v Typed.unset = refl
Typed-check type v Typed.of_text = refl
Typed-check type v Typed.of_number = refl
Typed-check type v Typed.of_bool = refl
Typed-check type v (Typed.of_json n) = json v n
  where
    json : (v : Value) → v ≢ Value.out_of_range → check_column_type "json" v ≡ true
    json Value.null n = refl
    json (Value.text s) n = refl
    json Value.number n = refl
    json Value.boolean n = refl
    json Value.array n = refl
    json Value.object n = refl
    json Value.out_of_range n = absurd (n refl)

abbrev Present : Fields → Column → Type 0
Present fs c = (c.required ≡ false) ⊎ ((v : Value) × (field c.name fs ≡ some v))

abbrev Conforms : List Column → String × Value → Type 0
Conforms columns x =
    (x.0 ≡ "id")
    ⊎ (find (λ c. c.name == x.0) columns ≡ none)
    ⊎ ((c : Column) × (find (λ c. c.name == x.0) columns ≡ some c) × Typed c.type x.1)

-- The rules for an upsert: an id that is a text and not empty, every required column present, and
-- every value under a declared name of its column's type; other keys are free.
pub record Accepts (columns : List Column) (fs : Fields) : Type 0 where
  pub id : (s : String) × (field "id" fs ≡ some (Value.text s)) × (s ≢ "")
  pub required : All (Present fs) columns
  pub typed : All (Conforms columns) fs

has_id_iff :
    (v : Option Value) → (has_id v ≡ true) ↔ ((s : String) × (v ≡ some (Value.text s)) × (s ≢ ""))
unfolding has_id
has_id_iff none = (λ h. absurd (ground arith), λ (s, e, n). absurd (ground arith))
has_id_iff (some (Value.text s)) = (λ h. (s, refl, ground arith), λ (t, e, n). ground arith)
has_id_iff (some Value.null) = (λ h. absurd (ground arith), λ (s, e, n). absurd (ground arith))
has_id_iff (some Value.boolean) = (λ h. absurd (ground arith), λ (s, e, n). absurd (ground arith))
has_id_iff (some Value.number) = (λ h. absurd (ground arith), λ (s, e, n). absurd (ground arith))
has_id_iff (some Value.array) = (λ h. absurd (ground arith), λ (s, e, n). absurd (ground arith))
has_id_iff (some Value.out_of_range) =
    (λ h. absurd (ground arith), λ (s, e, n). absurd (ground arith))
has_id_iff (some Value.object) = (λ h. absurd (ground arith), λ (s, e, n). absurd (ground arith))

Present-iff :
    (fs : Fields) (c : Column)
    → ((not c.required || is_some (field c.name fs)) ≡ true) ↔ Present fs c
Present-iff fs c = elim (Option-cases (field c.name fs)) [
  | inl e ↦ (
    λ h. inl (ground (arith, e)),
    elim [ inl r ↦ ground arith | inr (v, x) ↦ absurd (ground arith) ],
  )
  | inr (v, e) ↦ (λ h. inr (v, e), λ h. ground (arith, e))
]

has_required_iff :
    (cs : List Column) (fs : Fields) → (has_required cs fs ≡ true) ↔ All (Present fs) cs
unfolding has_required
has_required_iff [] fs = (λ _. tt, λ _. refl)
has_required_iff (c ∷ cs) fs =
    let (a, b) = Present-iff fs c in
    let (x, y) = has_required_iff cs fs in
    (
      λ h. (a (ground (arith, h)), x (ground (arith, h))),
      λ (p, ps). let u = b p in let v = y ps in ground (arith, u, v),
    )

Conforms-iff :
    (columns : List Column) (k : String) (v : Value)
    → ((k == "id" || key_conforms columns k v) ≡ true) ↔ Conforms columns (k, v)
unfolding key_conforms
Conforms-iff columns k v = elim (String-discrete k "id") [
  | yes e ↦ (λ h. inl e, λ h. ground (arith, e))
  | no n ↦ elim (Option-cases (find (λ c. c.name == k) columns)) [
    | inl e ↦ (λ h. inr (inl e), λ h. ground (arith, e))
    | inr (c, e) ↦ (
      λ h. inr (inr (c, e, check-Typed c.type v (ground (arith, h, e, n)))),
      elim [
        | inl i ↦ absurd (ground arith)
        | inr (inl z) ↦ absurd (ground arith)
        | inr (inr (c', z, t)) ↦
            let same : c' ≡ c = ground arith in
            let u = Typed-check c.type v (rw same at t) in ground (arith, e, u)
      ],
    )
  ]
]

all_conform_iff :
    (columns : List Column) (fs : Fields)
    → (all_conform columns fs ≡ true) ↔ All (Conforms columns) fs
unfolding all_conform
all_conform_iff columns [] = (λ _. tt, λ _. refl)
all_conform_iff columns ((k, v) ∷ fs) =
    let (a, b) = Conforms-iff columns k v in
    let (x, y) = all_conform_iff columns fs in
    (
      λ h. (a (ground (arith, h)), x (ground (arith, h))),
      λ (p, ps). let u = b p in let w = y ps in ground (arith, u, w),
    )

check_upsert_iff :
    (t : Table) (o : Option Fields) (env : Env) (w : World)
    → ((check_upsert t o env w).0 ≡ ok tt) ↔ ((fs : Fields) × (o ≡ some fs) × Accepts t.columns fs)
unfolding check_upsert ensure
check_upsert_iff t none env w = (λ h. absurd (ground arith), λ (fs, e, a). absurd (ground arith))
check_upsert_iff t (some fs) env w =
    let (a, a') = has_id_iff (field "id" fs) in
    let (b, b') = has_required_iff t.columns fs in
    let (c, c') = all_conform_iff t.columns fs in
    (
      λ h. (
        fs,
        refl,
        record {
          id = a (ground (arith, h));
          required = b (ground (arith, h));
          typed = c (ground (arith, h));
        },
      ),
      λ (gs, e, k).
          let same : gs ≡ fs = ground arith in
          let k' : Accepts t.columns fs = rw same at k in
          let x = a' k'.id in
          let y = b' k'.required in let z = c' k'.typed in ground (arith, x, y, z),
    )

-- An upsert on a table that GetTable answers with is accepted exactly when its payload decodes to a
-- map that meets the rules for the table's columns.
pub upsert-Accepts :
    (msg : Message) (t : Table) (env : Env) (w w' : World)
    → msg.op ≡ Op.upsert
    → msg.table ≢ ""
    → msg.table ≢ "_schema"
    → get_table msg.user_id msg.table env w ≡ (ok t, w')
    → ((validate_against_schema msg env w).0 ≡ ok tt)
      ↔ ((fs : Fields) × (fields_of msg.payload ≡ some fs) × Accepts t.columns fs)
upsert-Accepts msg t env w w' op named free got =
    rw behind (check_upsert_iff t (fields_of msg.payload) env w')
  where
    behind : validate_against_schema msg env w ≡ check_upsert t (fields_of msg.payload) env w'
    behind =
        let next =
          bind-of-ok (get_table msg.user_id msg.table) (λ t. check_upsert t (fields_of msg.payload))
            env w w' got in
        unfold validate_against_schema is_delete in ground (arith, next, op, named, free)

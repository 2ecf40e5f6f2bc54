-- ===== src/Store/Users/Laws.antt =====
-- What the operations of relay/internal/store/users.go promise.
use mathlib.Core.Path.{subst}
use Prim.Native.String.{◌++◌ as append}
use appunvs.Prelude.{
  ℕ, ◌+◌, ◌≡◌, ◌≢◌, refl, sym, ap, ◌∙◌, String, true, false, ◌||◌, none, some, List, [], ◌∷◌, ◌++◌,
  arith, string_eq, nat_eq, All, find, Option-cases, Bool-cases, ◌⊎◌, inl, inr, codes_beq, to_lower,
  ltb, length, without_dashes,
}
use appunvs.Prelude.Codes.{codes_beq_refl, codes_beq_sym}
use appunvs.Prelude.Rows.Laws.{find-append_new, find_none-weaker, All-append_one}
use appunvs.Store.Tables.{UserRow, Tables}
use appunvs.Store.Action.{
  driver, bad_credentials, Result, ok, err, Env, World, Calm, pure, attempt, ◌>>=◌, bind-eq-ok,
  now_millis, query, exec, Preserves, Calm-Preserves, bind-Preserves,
}
use appunvs.Store.Users.{
  User, Accounts, normalize_email, of_email, has_id, insert_user, or_user_exists, store_user,
  create, check_login, verify_login,
}

-- What bcrypt and uuid document: they write no table, and a password matches the hash made of it.
pub record Lawful (a : Accounts) : Type 0 where
  pub generate_calm : (p : List ℕ) → Calm (a.generate p)
  pub uuid_calm : Calm a.new_uuid
  pub matches :
      (p : List ℕ) (hash : String) (env : Env) (w w' : World)
      → a.generate p env w ≡ (ok hash, w')
      → a.compare hash p ≡ true

-- However VerifyLogin ends, no table changes; it ends well exactly with the user of the row that has
-- the email, letter case aside, and a hash that the password matches.
pub verify_login_ends :
    (a : Accounts) (raw password : List ℕ) (env : Env) (w : World)
    → let x = verify_login a raw password env w in
      (x.1.tables ≡ w.tables)
      × (((r : UserRow) × (find (of_email (normalize_email raw)) w.users ≡ some r)
            × (a.compare r.password_hash password ≡ true)
            × (x.0
                ≡ ok
                    (record { id = r.id; email = normalize_email raw; created_at = r.created_at })))
          ⊎ (x.0 ≡ err bad_credentials)
          ⊎ (x.0 ≡ err driver))
unfolding verify_login check_login query
verify_login_ends a raw password env w =
    elim (Option-cases (find (of_email (normalize_email raw)) w.users)) [
      | inl e ↦ ground (arith, e)
      | inr (r, e) ↦ elim (Bool-cases (a.compare r.password_hash password)) [
        | inl good ↦ elim (Bool-cases (env.fails w.place)) [
          | inl f ↦ (ground (arith, f), inr (inr (ground (arith, f))))
          | inr f ↦ (ground (arith, f, e, good), inl (r, e, good, ground (arith, f, e, good)))
        ]
        | inr bad ↦ ground (arith, e, bad)
      ]
    ]

pub verify_login_place :
    (a : Accounts) (raw password : List ℕ) (env : Env) (w : World)
    → (verify_login a raw password env w).1.place ≡ w.place + 1
unfolding verify_login check_login query
verify_login_place a raw password env w =
    elim (Option-cases (find (of_email (normalize_email raw)) w.users)) [
      | inl e ↦ ground (arith, e)
      | inr (r, e) ↦ ground (arith, e)
    ]

-- The row that the INSERT of Create adds.
abbrev row_of : User → String → UserRow
row_of u hash = record {
  id = u.id;
  email = u.email;
  password_hash = hash;
  created_at = u.created_at;
}

record Stored (email : List ℕ) (hash : String) (u : User) (t t' : Tables) : Type 0 where
  pub email_is : u.email ≡ email
  pub is_fresh : find (λ r. has_id u.id r || of_email u.email r) t.users ≡ none
  pub users_are : t'.users ≡ t.users ++ row_of u hash ∷ []

store_user-Stored :
    (a : Accounts) (email : List ℕ) (hash uuid : String) (u : User) (env : Env) (w w' : World)
    → store_user a email hash uuid env w ≡ (ok u, w')
    → Stored email hash u w.tables w'.tables
unfolding store_user now_millis exec insert_user or_user_exists
store_user-Stored a email hash uuid u env w w' h = record {
  email_is = ground arith;
  is_fresh = ground arith;
  users_are = ground arith;
}

create-Stored :
    (a : Accounts) (lawful : Lawful a) (raw password : List ℕ) (u : User) (env : Env) (w w' : World)
    → create a raw password env w ≡ (ok u, w')
    → (hash : String) × (a.compare hash password ≡ true)
      × Stored (normalize_email raw) hash u w.tables w'.tables
unfolding create
create-Stored a lawful raw password u env w w' h =
    elim (Bool-cases (codes_beq (normalize_email raw) [])) [
      | inl e ↦ absurd (ground (arith, e))
      | inr e ↦ elim (Bool-cases (ltb (length password) 8)) [
        | inl l ↦ absurd (ground (arith, e, l))
        | inr l ↦ made (rw (e, l) at h)
      ]
    ]
  where
    made :
        (a.generate password >>= λ hash.
        a.new_uuid >>= λ uuid. store_user a (normalize_email raw) hash uuid)
            env w
          ≡ (ok u, w')
        → (hash : String) × (a.compare hash password ≡ true)
          × Stored (normalize_email raw) hash u w.tables w'.tables
    made run =
        let (hash, w1, e, run1) = bind-eq-ok (a.generate password) _ env w run in
        let (uuid, w2, e', run2) = bind-eq-ok a.new_uuid _ env w1 run1 in
        let first : w1.tables ≡ w.tables =
          sym (ap (λ (x : Result String × World). x.1.tables) e)
          ∙ lawful.generate_calm password env w in
        let second : w2.tables ≡ w1.tables =
          sym (ap (λ (x : Result String × World). x.1.tables) e') ∙ lawful.uuid_calm env w1 in
        (
          hash,
          lawful.matches password hash env w w1 e,
          subst (λ (t : Tables). Stored (normalize_email raw) hash u t w'.tables) (second ∙ first)
              (store_user-Stored a (normalize_email raw) hash uuid u env w2 w' run2),
        )

module _ (a : Accounts) (lawful : Lawful a) where
  -- An account that Create made is the one that VerifyLogin answers with, for the same password and any
  -- spelling of the email that normalizes to the same, as long as the users are the same and when the
  -- driver does not refuse the read.
  pub verify_login-create :
      (raw raw' password : List ℕ) (u : User) (env env' : Env) (w w' w'' : World)
      → create a raw password env w ≡ (ok u, w')
      → normalize_email raw' ≡ normalize_email raw
      → w''.users ≡ w'.users
      → env'.fails w''.place ≡ false
      → (verify_login a raw' password env' w'').0 ≡ ok u
  unfolding verify_login query check_login
  verify_login-create raw raw' password u env env' w w' w'' h same later q =
      let (hash, good, stored) = create-Stored a lawful raw password u env w w' h in
      let key : of_email u.email (row_of u hash) ≡ true = codes_beq_refl (to_lower u.email) in
      let new =
        find_none-weaker (λ r. has_id u.id r || of_email u.email r) (of_email u.email)
          (λ r e. ground (arith, e)) w.users stored.is_fresh in
      let found : find (of_email u.email) w''.users ≡ some (row_of u hash) =
        ap (find (of_email u.email)) (later ∙ stored.users_are)
        ∙ find-append_new (of_email u.email) w.users (row_of u hash) new key in
      rw (same, sym stored.email_is, found, q, good) refl

-- No two accounts share an id, or an email but for letter case.
abbrev pub IsFresh : UserRow → UserRow → Type 0
IsFresh r u = (u.id ≢ r.id) × (codes_beq (to_lower u.email) (to_lower r.email) ≡ false)

abbrev pub HasUniqueUsers : List UserRow → Type 0
HasUniqueUsers [] = Unit {0}
HasUniqueUsers (u ∷ us) = All (IsFresh u) us × HasUniqueUsers us

HasUniqueUsers-append :
    (r : UserRow) (us : List UserRow)
    → find (λ u. has_id r.id u || of_email r.email u) us ≡ none
    → HasUniqueUsers us
    → HasUniqueUsers (us ++ r ∷ [])
unfolding find
HasUniqueUsers-append r [] h u = (tt, tt)
HasUniqueUsers-append r (v ∷ us) h (f, u) = (
  All-append_one (IsFresh v) us r f
      (ground (arith, h), ground (arith, h, codes_beq_sym (to_lower v.email) (to_lower r.email))),
  HasUniqueUsers-append r us (ground (arith, h)) u,
)

abbrev Unique : Tables → Type 0
Unique t = HasUniqueUsers t.users

insert_user-Unique : (r : UserRow) → Preserves Unique (exec (insert_user r))
unfolding exec insert_user
insert_user-Unique r env w u = elim (Bool-cases (env.fails w.place)) [
  | inl f ↦ rw f u
  | inr f ↦ elim (Option-cases (find (λ v. has_id r.id v || of_email r.email v) w.users)) [
    | inl e ↦ rw (f, e) (HasUniqueUsers-append r w.users e u)
    | inr (v, e) ↦ rw (f, e) u
  ]
]

answered-Unique :
    (u : User) (done : Result (Unit {0})) → Preserves Unique (or_user_exists done >>= λ _. pure u)
unfolding or_user_exists
answered-Unique u (ok _) env w p = p
answered-Unique u (err e) env w p = p

store_user-Unique :
    (a : Accounts) (email : List ℕ) (hash uuid : String)
    → Preserves Unique (store_user a email hash uuid)
unfolding store_user now_millis
store_user-Unique a email hash uuid env w u =
    bind-Preserves Unique (attempt (exec (insert_user row)))
      (λ done. or_user_exists done >>= λ _. pure user) (insert_user-Unique row)
      (λ done. answered-Unique user done) env (record w { place = w.place + 1 }) u
  where
    user : User
    user = record {
      id = append "u_" (without_dashes uuid);
      email = email;
      created_at = env.clock w.place;
    }

    row : UserRow
    row = row_of user hash

-- However Create ends, no two accounts share an id, or an email but for letter case, if none did.
pub create-HasUniqueUsers :
    (a : Accounts) (raw password : List ℕ) (env : Env) (w : World)
    → Lawful a
    → HasUniqueUsers w.users
    → HasUniqueUsers (create a raw password env w).1.users
unfolding create
create-HasUniqueUsers a raw password env w lawful u =
    elim (Bool-cases (codes_beq (normalize_email raw) [])) [
      | inl e ↦ rw e u
      | inr e ↦ elim (Bool-cases (ltb (length password) 8)) [
        | inl l ↦ rw (e, l) u
        | inr l ↦
            rw (e, l)
              (bind-Preserves Unique (a.generate password) _
                (Calm-Preserves Unique (a.generate password) (lawful.generate_calm password))
                (λ hash.
                  bind-Preserves Unique a.new_uuid _
                    (Calm-Preserves Unique a.new_uuid lawful.uuid_calm)
                    (λ uuid. store_user-Unique a (normalize_email raw) hash uuid))
                env w u)
      ]
    ]

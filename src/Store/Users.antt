-- ===== src/Store/Users.antt =====
-- relay/internal/store/users.go: the accounts. bcrypt and the random ids are parameters.
pub mod Laws
use Prim.Native.String.{◌++◌ as append}
use appunvs.Prelude.{
  ℕ, String, Bool, true, false, ◌||◌, Option, none, some, List, [], ◌∷◌, ◌++◌, ◌==◌, ltb,
  if◌then◌else◌, string_eq, nat_eq, codes_beq, find, is_some, length, to_lower, trim_space,
  without_dashes,
}
use appunvs.Store.Tables.{UserRow, Tables}
use appunvs.Store.Action.{
  Error, other, unique, user_exists, bad_credentials, Result, ok, err, Action, pure, fail, attempt,
  ◌>>=◌, ◌>>◌, now_millis, query, exec,
}

pub record User : Type 0 where
  pub id : String
  pub email : List ℕ
  pub created_at : ℕ

-- bcrypt and uuid: GenerateFromPassword (an error for a password that is too long),
-- CompareHashAndPassword, and NewString.
pub record Accounts : Type 0 where
  pub generate : List ℕ → Action String
  pub compare : String → List ℕ → Bool
  pub new_uuid : Action String

-- normalizeEmail
unfoldable pub normalize_email : List ℕ → List ℕ
normalize_email s = to_lower (trim_space s)

-- WHERE email = ? COLLATE NOCASE, which folds ASCII letters.
abbrev pub of_email : List ℕ → UserRow → Bool
of_email email r = codes_beq (to_lower r.email) (to_lower email)

abbrev pub has_id : String → UserRow → Bool
has_id id r = r.id == id

-- The INSERT: id is the primary key, and email unique by the same collation.
unfoldable pub insert_user : UserRow → Tables → Result (Unit {0} × Tables)
insert_user r t =
    if is_some (find (λ u. has_id r.id u || of_email r.email u) t.users)
    then err unique
    else ok (tt, record t { users = t.users ++ r ∷ [] })

-- A unique constraint that fails becomes ErrUserExists.
unfoldable pub user_error : Error → Error
user_error unique = user_exists
user_error e = e

unfoldable pub or_user_exists : Result (Unit {0}) → Action (Unit {0})
or_user_exists (ok _) = pure tt
or_user_exists (err e) = fail (user_error e)

module _ (a : Accounts) where
  -- The INSERT of Create, with the row and what is answered.
  unfoldable pub store_user : List ℕ → String → String → Action User
  store_user email hash uuid = do
    now ← now_millis
    let id = append "u_" (without_dashes uuid)
    done ← attempt (
        exec
          (insert_user (record { id = id; email = email; password_hash = hash; created_at = now })))
    or_user_exists done
    pure (record { id = id; email = email; created_at = now })

  -- Users.Create
  unfoldable pub create : List ℕ → List ℕ → Action User
  create raw password =
      let email = normalize_email raw in
      if codes_beq email []
      then fail other
      else if ltb (length password) 8
      then fail other
      else do hash ← a.generate password; uuid ← a.new_uuid; store_user email hash uuid

  -- What VerifyLogin does with the row that it finds; a missing row is compared against a dummy.
  unfoldable pub check_login : List ℕ → List ℕ → Option UserRow → Action User
  check_login email password none = fail bad_credentials
  check_login email password (some r) =
      if a.compare r.password_hash password
      then pure (record { id = r.id; email = email; created_at = r.created_at })
      else fail bad_credentials

  -- Users.VerifyLogin
  unfoldable pub verify_login : List ℕ → List ℕ → Action User
  verify_login raw password =
      let email = normalize_email raw in
      query (λ t. find (of_email email) t.users) >>= check_login email password

unfoldable pub or_bad_credentials : Option UserRow → Action User
or_bad_credentials none = fail bad_credentials
or_bad_credentials (some r) =
    pure (record { id = r.id; email = r.email; created_at = r.created_at })

-- Users.Get
unfoldable pub get : String → Action User
get id = query (λ t. find (has_id id) t.users) >>= or_bad_credentials

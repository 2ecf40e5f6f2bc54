-- ===== src/Auth/Accounts.antt =====
-- relay/internal/auth/account.go: signup, login, the registration of a device, and the profile. A body
-- that does not decode is none.
pub mod Laws
use Prim.Native.String.{◌++◌ as append}
use appunvs.Prelude.{
  ℕ, String, Bool, true, false, not, ◌||◌, Option, none, some, List, [], ◌∷◌, map, ◌==◌,
  if◌then◌else◌, string_eq, codes, codes_beq, has_prefix, trim_prefix, without_dashes,
}
use appunvs.Pb.Enums.{parse_platform, platform_string}
use appunvs.Store.Action.{
  Error, user_exists, bad_credentials, device_conflict, Result, ok, err, Action, pure, attempt,
  ◌>>=◌, now_millis,
}
use appunvs.Store.Users
use appunvs.Store.Users.{User, Accounts}
use appunvs.Store.Devices
use appunvs.Store.Devices.{Device}
use appunvs.Store.Billing.Subscriptions.{ensure_free}
use appunvs.Auth.Jwt.{Claims, token_session, Jwt, Signer, issue_session, issue_device, verify}

-- signupBody, which login takes too.
pub record Credentials : Type 0 where
  pub email : List ℕ
  pub password : List ℕ

-- pb.RegisterRequest
pub record Registration : Type 0 where
  pub device_id : String
  pub platform : String

-- deviceView; a device that was never seen has time 0.
pub record DeviceView : Type 0 where
  pub id : String
  pub user_id : String
  pub platform : String
  pub created_at : ℕ
  pub last_seen : ℕ

-- The responses: 200 with a body, and the refusals.
pub data Reply : Type 0 where
  session : String → List ℕ → Reply
  registered : String → List ℕ → Reply
  profile : User → List DeviceView → Reply
  bad_request unauthorized conflict internal : Reply

pub record Deps : Type 0 where
  pub jwt : Jwt
  pub signer : Signer
  pub accounts : Accounts

-- errors.Is
abbrev is_user_exists : Error → Bool
is_user_exists user_exists = true
is_user_exists _ = false

abbrev is_bad_credentials : Error → Bool
is_bad_credentials bad_credentials = true
is_bad_credentials _ = false

abbrev is_device_conflict : Error → Bool
is_device_conflict device_conflict = true
is_device_conflict _ = false

unfoldable pub is_empty : Credentials → Bool
is_empty b = codes_beq b.email [] || codes_beq b.password []

unfoldable pub device_view : Device → DeviceView
device_view d = record {
  id = d.id;
  user_id = d.user_id;
  platform = d.platform;
  created_at = d.created_at;
  last_seen = elim d.last_seen [ none ↦ 0 | some t ↦ t ];
}

-- extractSession, at a time.
unfoldable pub session_of : Deps → List ℕ → ℕ → Option Claims
session_of d header now =
    if has_prefix header (codes "Bearer ")
    then verify d.jwt d.signer (trim_prefix header (codes "Bearer ")) token_session now
    else none

unfoldable pub session_reply : String → Option (List ℕ) → Reply
session_reply user_id none = Reply.internal
session_reply user_id (some token) = Reply.session user_id token

module _ (d : Deps) where
  -- IssueSession for a user, then the free plan whether or not that succeeds.
  unfoldable pub welcome : User → Option (List ℕ) → Action Reply
  welcome u none = pure Reply.internal
  welcome u (some token) = do _ ← attempt (ensure_free u.id); pure (Reply.session u.id token)

  unfoldable pub after_create : Result User → Action Reply
  after_create (err e) = pure (if is_user_exists e then Reply.conflict else Reply.bad_request)
  after_create (ok u) = do now ← now_millis; welcome u (issue_session d.jwt d.signer u.id now)

  -- Signup
  unfoldable pub signup : Option Credentials → Action Reply
  signup none = pure Reply.bad_request
  signup (some b) =
      if is_empty b
      then pure Reply.bad_request
      else do made ← attempt (Users.create d.accounts b.email b.password); after_create made

  unfoldable pub after_login : Result User → Action Reply
  after_login (err e) = pure (if is_bad_credentials e then Reply.unauthorized else Reply.internal)
  after_login (ok u) = do
    now ← now_millis
    pure (session_reply u.id (issue_session d.jwt d.signer u.id now))

  -- Login
  unfoldable pub login : Option Credentials → Action Reply
  login none = pure Reply.bad_request
  login (some b) =
      if is_empty b
      then pure Reply.bad_request
      else do found ← attempt (Users.verify_login d.accounts b.email b.password); after_login found

  unfoldable pub device_reply : String → Option (List ℕ) → Reply
  device_reply user_id none = Reply.internal
  device_reply user_id (some token) = Reply.registered user_id token

  unfoldable pub after_register : String → String → String → Result Device → Action Reply
  after_register user_id device_id platform (err e) =
      pure (if is_device_conflict e then Reply.conflict else Reply.internal)
  after_register user_id device_id platform (ok _) = do
    now ← now_millis
    pure (device_reply user_id (issue_device d.jwt d.signer user_id device_id platform now))

  -- The id of a device that does not name itself.
  unfoldable pub device_id_of : String → Action String
  device_id_of given =
      if not (given == "")
      then pure given
      else do uuid ← d.accounts.new_uuid; pure (append "d_" (without_dashes uuid))

  unfoldable pub register_for : Claims → Option Registration → Action Reply
  register_for c none = pure Reply.bad_request
  register_for c (some r) = do
    device_id ← device_id_of r.device_id
    let platform = platform_string (parse_platform r.platform)
    done ← attempt (Devices.register device_id c.user_id platform)
    after_register c.user_id device_id platform done

  unfoldable pub as_session : (Claims → Action Reply) → Option Claims → Action Reply
  as_session f none = pure Reply.unauthorized
  as_session f (some c) = f c

  -- Register
  unfoldable pub register : List ℕ → Option Registration → Action Reply
  register header body = do
    now ← now_millis
    as_session (λ c. register_for c body) (session_of d header now)

  unfoldable pub profile_reply : User → Result (List Device) → Reply
  profile_reply u (err _) = Reply.internal
  profile_reply u (ok rows) = Reply.profile u (map device_view rows)

  unfoldable pub profile_for : Claims → Result User → Action Reply
  profile_for c (err _) = pure Reply.unauthorized
  profile_for c (ok u) = do
    rows ← attempt (Devices.list_by_user c.user_id)
    pure (profile_reply u rows)

  -- Me
  unfoldable pub me : List ℕ → Action Reply
  me header = do
    now ← now_millis
    as_session (λ c. attempt (Users.get c.user_id) >>= profile_for c) (session_of d header now)

-- ===== src/Auth/Jwt.antt =====
-- relay/internal/auth/jwt.go: what the tokens claim, and which are taken for what. The JWT library is
-- a parameter; the keys are in it.
pub mod Laws
use appunvs.Prelude.{
  ℕ, ◌+◌, ◌*◌, ◌/◌, String, Bool, true, false, not, Option, none, some, List, ◌==◌, if◌then◌else◌,
  string_eq, nat_eq,
}

-- Claims, with the registered ones; times are in seconds.
pub record Claims : Type 0 where
  pub user_id : String
  pub device_id : String
  pub platform : String
  pub box_id : String
  pub typ : String
  pub issuer : String
  pub subject : String
  pub audience : String
  pub issued_at : ℕ
  pub not_before : ℕ
  pub expires_at : ℕ

abbrev pub token_session : String
token_session = "session"

abbrev pub token_device : String
token_device = "device"

abbrev pub token_namespace : String
token_namespace = "namespace"

-- The kinds of signing methods that the key function tells apart.
pub data Method : Type 0 where
  rsa other_method : Method

-- SignedString of an RS256 token, and ParseWithClaims with a key function, an issuer and an audience,
-- at a time in milliseconds. A token is its characters.
pub record Jwt : Type 0 where
  pub sign : Claims → Option (List ℕ)
  pub parse : (Method → Bool) → String → String → ℕ → List ℕ → Option Claims

pub record Signer : Type 0 where
  pub issuer : String
  pub audience : String
  pub session_ttl : ℕ
  pub device_ttl : ℕ
  pub namespace_ttl : ℕ

abbrev hour : ℕ
hour = 3_600_000

-- The times to live that NewSigner fills in.
unfoldable pub new_signer : String → String → ℕ → ℕ → Signer
new_signer issuer audience session_ttl device_ttl = record {
  issuer = issuer;
  audience = audience;
  session_ttl = if session_ttl == 0 then 24 * hour else session_ttl;
  device_ttl = if device_ttl == 0 then 30 * 24 * hour else device_ttl;
  namespace_ttl = 24 * hour;
}

-- The claims that issue signs.
unfoldable pub claims_of : Signer → String → String → String → String → String → ℕ → ℕ → Claims
claims_of s user_id device_id platform box_id typ ttl now = record {
  user_id = user_id;
  device_id = device_id;
  platform = platform;
  box_id = box_id;
  typ = typ;
  issuer = s.issuer;
  subject = user_id;
  audience = s.audience;
  issued_at = now / 1000;
  not_before = now / 1000;
  expires_at = (now + ttl) / 1000;
}

-- The key function: an RSA method gets the public key.
unfoldable pub takes_key : Method → Bool
takes_key Method.rsa = true
takes_key Method.other_method = false

-- What Verify asks of the claims of a token of the kind that it wants.
unfoldable pub check_kind : String → Claims → Option Claims
check_kind want c =
    let typ = if c.typ == "" then token_device else c.typ in
    if want == ""
    then some c
    else if want == token_session
    then if typ == token_session then some c else none
    else if want == token_device
    then if not (typ == token_device) then none else if c.device_id == "" then none else some c
    else if want == token_namespace
    then if not (typ == token_namespace) then none else if c.box_id == "" then none else some c
    else none

unfoldable pub check_claims : String → Option Claims → Option Claims
check_claims want none = none
check_claims want (some c) = if c.user_id == "" then none else check_kind want c

module _ (jwt : Jwt) (s : Signer) where
  -- Signer.issue
  unfoldable pub issue : String → String → String → String → String → ℕ → ℕ → Option (List ℕ)
  issue user_id device_id platform box_id typ ttl now =
      jwt.sign (claims_of s user_id device_id platform box_id typ ttl now)

  unfoldable pub issue_session : String → ℕ → Option (List ℕ)
  issue_session user_id now = issue user_id "" "" "" token_session s.session_ttl now

  unfoldable pub issue_device : String → String → String → ℕ → Option (List ℕ)
  issue_device user_id device_id platform now =
      issue user_id device_id platform "" token_device s.device_ttl now

  unfoldable pub issue_namespace : String → String → String → ℕ → Option (List ℕ)
  issue_namespace user_id device_id box_id now =
      if box_id == ""
      then none
      else issue user_id device_id "" box_id token_namespace s.namespace_ttl now

  -- Signer.Verify
  unfoldable pub verify : List ℕ → String → ℕ → Option Claims
  verify token want now = check_claims want (jwt.parse takes_key s.issuer s.audience now token)

-- ===== src/Auth/Jwt/Laws.antt =====
-- Which tokens of relay/internal/auth/jwt.go are taken for which.
use appunvs.Prelude.{
  ℕ, ◌+◌, ◌*◌, ◌/◌, ◌≤◌, ◌<◌, ◌≡◌, ◌≢◌, refl, String, Bool, true, Option, none, some, List, arith,
  string_eq, String-discrete,
}
use appunvs.Auth.Jwt.{
  Claims, token_session, token_device, token_namespace, Method, rsa, Jwt, Signer, claims_of,
  takes_key, check_kind, check_claims, issue, issue_session, issue_device, issue_namespace, verify,
}

-- What the JWT library documents of a token that it signed: within its times, and for its issuer and
-- audience, it parses to the claims.
pub record Lawful (jwt : Jwt) : Type 0 where
  pub parse_signed :
      (c : Claims) (token : List ℕ) (key : Method → Bool) (now : ℕ)
      → jwt.sign c ≡ some token
      → key rsa ≡ true
      → c.not_before * 1000 ≤ now
      → now < c.expires_at * 1000
      → jwt.parse key c.issuer c.audience now token ≡ some c

-- What Verify makes of a token, for each kind that it can be asked for: a session's, a device's and a
-- namespace's.
abbrev pub Verified :
    Jwt → Signer → List ℕ → ℕ → Option Claims → Option Claims → Option Claims → Type 0
Verified jwt s token now as_session as_device as_namespace =
    (verify jwt s token token_session now ≡ as_session)
    × (verify jwt s token token_device now ≡ as_device)
    × (verify jwt s token token_namespace now ≡ as_namespace)

-- A signature is within its times.
abbrev pub IsCurrent : ℕ → ℕ → ℕ → Type 0
IsCurrent issued ttl now = ((issued / 1000) * 1000 ≤ now) × (now < ((issued + ttl) / 1000) * 1000)

module _ (jwt : Jwt) (lawful : Lawful jwt) (s : Signer) where
  parse_issued :
      (user_id device_id platform box_id typ : String) (ttl issued now : ℕ) (token : List ℕ)
      → issue jwt s user_id device_id platform box_id typ ttl issued ≡ some token
      → IsCurrent issued ttl now
      → jwt.parse takes_key s.issuer s.audience now token
        ≡ some (claims_of s user_id device_id platform box_id typ ttl issued)
  unfolding issue claims_of takes_key
  parse_issued user_id device_id platform box_id typ ttl issued now token h (begun, left) =
      lawful.parse_signed _ token takes_key now h refl begun left

  check_issued :
      (user_id device_id platform box_id typ want : String) (ttl issued now : ℕ) (token : List ℕ)
      → issue jwt s user_id device_id platform box_id typ ttl issued ≡ some token
      → IsCurrent issued ttl now
      → user_id ≢ ""
      → verify jwt s token want now
        ≡ check_kind want (claims_of s user_id device_id platform box_id typ ttl issued)
  unfolding verify check_claims claims_of
  check_issued user_id device_id platform box_id typ want ttl issued now token h c named =
      rw (parse_issued user_id device_id platform box_id typ ttl issued now token h c)
        (ground (arith, named))

  pub device_no_session :
      (user_id device_id platform : String) (issued now : ℕ) (token : List ℕ)
      → user_id ≢ ""
      → issue_device jwt s user_id device_id platform issued ≡ some token
      → IsCurrent issued s.device_ttl now
      → verify jwt s token token_session now ≡ none
  unfolding issue_device check_kind claims_of String-discrete
  device_no_session user_id device_id platform issued now token named h current =
      check_issued user_id device_id platform "" token_device token_session s.device_ttl issued now
        token h current named

  -- While they are current, a session token verifies as its user's session only, a device token as its
  -- device's only and a namespace token as its box's only.
  pub verify-issue :
      (user_id device_id platform box_id : String) (issued now : ℕ)
      (session device namespace : List ℕ)
      → user_id ≢ ""
      → device_id ≢ ""
      → issue_session jwt s user_id issued ≡ some session
      → issue_device jwt s user_id device_id platform issued ≡ some device
      → issue_namespace jwt s user_id device_id box_id issued ≡ some namespace
      → IsCurrent issued s.session_ttl now
      → IsCurrent issued s.device_ttl now
      → IsCurrent issued s.namespace_ttl now
      → Verified jwt s session now
          (some (claims_of s user_id "" "" "" token_session s.session_ttl issued))
          none
          none
        × Verified jwt s device now none
            (some (claims_of s user_id device_id platform "" token_device s.device_ttl issued))
            none
        × Verified jwt s namespace now none none
            (some (claims_of s user_id device_id "" box_id token_namespace s.namespace_ttl issued))
  unfolding issue_session issue_device issue_namespace check_kind claims_of String-discrete
  verify-issue user_id device_id platform box_id issued now session device namespace named held a b
        c ca cb cc' =
      let boxed : box_id ≢ "" = λ e. ground (arith, e, c) in
      let c' : issue jwt s user_id device_id "" box_id token_namespace s.namespace_ttl issued
          ≡ some namespace =
        ground (arith, boxed, c) in
      let as_session = λ (want : String).
        check_issued user_id "" "" "" token_session want s.session_ttl issued now session a ca
          named in
      let as_device = λ (want : String).
        check_issued user_id device_id platform "" token_device want s.device_ttl issued now device
          b cb named in
      let as_namespace = λ (want : String).
        check_issued user_id device_id "" box_id token_namespace want s.namespace_ttl issued now
          namespace c' cc' named in
      (
        (as_session token_session, as_session token_device, as_session token_namespace),
        (
          as_device token_session,
          rw (as_device token_device) (ground (arith, held)),
          as_device token_namespace,
        ),
        (
          as_namespace token_session,
          as_namespace token_device,
          rw (as_namespace token_namespace) (ground (arith, boxed)),
        ),
      )

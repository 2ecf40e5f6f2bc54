-- ===== src/Auth/Bearer.antt =====
-- Authenticate of relay/internal/apikey/apikey.go: an API key or a session token. The Touch of a key runs
-- in a goroutine whose outcome nobody reads; here it runs at once.
pub mod Laws
use appunvs.Prelude.{
  ℕ, String, Bool, true, false, not, Option, none, some, List, [], if◌then◌else◌, codes, codes_beq,
  has_prefix, trim_prefix, trim_space,
}
use appunvs.Store.Action.{Result, ok, err, Action, pure, attempt, ◌>>=◌, now_millis}
use appunvs.Store.ApiKeys
use appunvs.Store.ApiKeys.{ApiKey, Keys, api_key_namespace, verify_secret}
use appunvs.Auth.Jwt.{Claims, token_session, Jwt, Signer, verify}

-- What the middleware sets on the request: the user, and how it was told.
pub data Caller : Type 0 where
  by_key : (user_id key_id : String) → Caller
  by_session : (user_id : String) → Caller

-- The token of an Authorization header, trimmed; none for a missing one.
unfoldable pub bearer : List ℕ → Option (List ℕ)
bearer header =
    if not (has_prefix header (codes "Bearer "))
    then none
    else let token = trim_space (trim_prefix header (codes "Bearer ")) in
      if codes_beq token [] then none else some token

unfoldable pub caller_of_claims : Option Claims → Option Caller
caller_of_claims none = none
caller_of_claims (some c) = some (Caller.by_session c.user_id)

module _ (jwt : Jwt) (signer : Signer) (keys : Keys) where
  unfoldable pub with_key : Result ApiKey → Action (Option Caller)
  with_key (err _) = pure none
  with_key (ok key) = do
    _ ← attempt (ApiKeys.touch key.id)
    pure (some (Caller.by_key key.user_id key.id))

  unfoldable pub by_token : List ℕ → Action (Option Caller)
  by_token token =
      if has_prefix token api_key_namespace
      then attempt (verify_secret keys token) >>= with_key
      else do now ← now_millis; pure (caller_of_claims (verify jwt signer token token_session now))

  unfoldable pub by_header : Option (List ℕ) → Action (Option Caller)
  by_header none = pure none
  by_header (some token) = by_token token

  -- Authenticate; none is the response 401.
  unfoldable pub authenticate : List ℕ → Action (Option Caller)
  authenticate header = by_header (bearer header)

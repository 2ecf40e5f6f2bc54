-- ===== src/Auth/Bearer/Laws.antt =====
-- Whom Authenticate of relay/internal/apikey/apikey.go lets through.
use appunvs.Prelude.{
  ℕ, ◌≡◌, ◌≢◌, refl, String, true, false, Option, none, some, List, [], ◌++◌, arith, codes,
  codes_beq, has_prefix, trim_prefix, strip_prefix?, trim_space, take, find, Bool-cases,
  Option-cases, inl, inr,
}
use appunvs.Store.Tables.{ApiKeyRow}
use appunvs.Store.Action.{Error, ok, err, Env, World, attempt, ◌>>=◌, now_millis, continue}
use appunvs.Store.ApiKeys.{Keys, api_key_namespace, api_key_prefix_len, is_live, verify_secret}
use appunvs.Store.ApiKeys.Laws.{key_of, verify_secret-LookupEnds}
use appunvs.Auth.Jwt.{Claims, token_session, Jwt, Signer, issue_device, verify}
use appunvs.Auth.Jwt.Laws.{Lawful, IsCurrent, device_no_session}
use appunvs.Auth.Bearer.{
  Caller, bearer, caller_of_claims, with_key, by_token, by_header, authenticate,
}

module _ (jwt : Jwt) (signer : Signer) (keys : Keys) where
  -- What stands behind a caller: a key of the table that is not revoked, by its prefix and its hash, or
  -- a token that verifies as a session.
  abbrev pub Backed : List ℕ → Env → World → Caller → Type 0
  Backed token env w (Caller.by_key user_id key_id) =
      (r : ApiKeyRow) × (find (is_live (take api_key_prefix_len token)) w.api_keys ≡ some r)
      × (codes_beq (keys.hex_sha256 token) r.hash ≡ true)
      × (r.user_id ≡ user_id)
      × (r.id ≡ key_id)
  Backed token env w (Caller.by_session user_id) =
      (c : Claims) × (verify jwt signer token token_session (env.clock w.place) ≡ some c)
      × (c.user_id ≡ user_id)

  with_key-Backed :
      (token : List ℕ) (caller : Caller) (env : Env) (w : World)
      → ((attempt (verify_secret keys token) >>= with_key jwt signer keys) env w).0
        ≡ ok (some caller)
      → Backed token env w caller
  unfolding with_key
  with_key-Backed token caller env w h =
      let ((_, ends), _) = verify_secret-LookupEnds keys token env w in
      elim ends [
        | inl (r, found, good, is) ↦ of_row r found good is caller (rw is at h)
        | inr (inl e) ↦ absurd (refused _ e caller h)
        | inr (inr e) ↦ absurd (refused _ e caller h)
      ]
    where
      refused :
          (e : Error)
          → (verify_secret keys token env w).0 ≡ err e
          → (caller : Caller)
          → (continue
              (ok (verify_secret keys token env w).0)
              (with_key jwt signer keys)
              env
              (verify_secret keys token env w).1).0
            ≡ ok (some caller)
          → ⊥
      refused e is caller k = let k' = rw is at k in ground (arith, k')

      of_row :
          (r : ApiKeyRow)
          → find (is_live (take api_key_prefix_len token)) w.api_keys ≡ some r
          → codes_beq (keys.hex_sha256 token) r.hash ≡ true
          → (verify_secret keys token env w).0 ≡ ok (key_of r token)
          → (caller : Caller)
          → (continue
              (ok (ok (key_of r token)))
              (with_key jwt signer keys)
              env
              (verify_secret keys token env w).1).0
            ≡ ok (some caller)
          → Backed token env w caller
      of_row r found good is (Caller.by_key u i) k = (r, found, good, ground arith, ground arith)
      of_row r found good is (Caller.by_session u) k = absurd (ground arith)

  -- A request that Authenticate lets through has a bearer token that stands behind its caller.
  pub authenticate-Backed :
      (header : List ℕ) (caller : Caller) (env : Env) (w : World)
      → (authenticate jwt signer keys header env w).0 ≡ ok (some caller)
      → (token : List ℕ) × (bearer header ≡ some token) × Backed token env w caller
  unfolding authenticate by_header by_token caller_of_claims now_millis
  authenticate-Backed header caller env w h = elim (Option-cases (bearer header)) [
    | inl e ↦ absurd (let h' = rw e at h in ground (arith, h'))
    | inr (token, e) ↦ (token, e, of_token token caller (rw e at h))
  ]
    where
      of_session :
          (token : List ℕ) (caller : Caller) (o : Option Claims)
          → verify jwt signer token token_session (env.clock w.place) ≡ o
          → caller_of_claims o ≡ some caller
          → Backed token env w caller
      of_session token caller none e k = absurd (ground (arith, k))
      of_session token (Caller.by_key u i) (some c) e k = absurd (ground (arith, k))
      of_session token (Caller.by_session u) (some c) e k = (c, e, ground (arith, k))

      of_token :
          (token : List ℕ) (caller : Caller)
          → (by_token jwt signer keys token env w).0 ≡ ok (some caller)
          → Backed token env w caller
      of_token token caller k = elim (Bool-cases (has_prefix token api_key_namespace)) [
        | inl p ↦ with_key-Backed token caller env w (rw p at k)
        | inr p ↦ of_session token caller _ refl (let k' = rw p at k in ground (arith, k'))
      ]

  -- A device token lets nobody through, and so changes nothing: what Authenticate answers for it while it
  -- is current is the refusal. (Tokens have no spaces and do not begin like an API key.)
  pub device_token_refused :
      (user_id device_id platform : String) (issued : ℕ) (token : List ℕ) (env : Env) (w : World)
      → Lawful jwt
      → user_id ≢ ""
      → issue_device jwt signer user_id device_id platform issued ≡ some token
      → IsCurrent issued signer.device_ttl (env.clock w.place)
      → trim_space token ≡ token
      → has_prefix token api_key_namespace ≡ false
      → (authenticate jwt signer keys (codes "Bearer " ++ token) env w).0 ≡ ok none
  unfolding authenticate by_header by_token caller_of_claims now_millis bearer has_prefix
      trim_prefix strip_prefix?
  device_token_refused user_id device_id platform issued token env w lawful named h current bare
        plain =
      let no_session =
        device_no_session jwt lawful signer user_id device_id platform issued (env.clock w.place)
          token named h current in
      elim (Bool-cases (codes_beq token [])) [
        | inl e ↦ rw (bare, e) refl
        | inr e ↦ rw (bare, e, plain, no_session) refl
      ]

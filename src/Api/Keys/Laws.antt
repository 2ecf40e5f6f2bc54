-- ===== src/Api/Keys/Laws.antt =====
-- A key from its creation to the request that it lets in.
use appunvs.Prelude.{
  ℕ, ◌≡◌, refl, ◌∙◌, String, false, some, List, [], ◌++◌, arith, codes, codes_beq, has_prefix,
  trim_prefix, strip_prefix?, trim_space, Bool-cases, inl, inr,
}
use appunvs.Store.Action.{ok, Env, World, run-cases}
use appunvs.Store.ApiKeys
use appunvs.Store.ApiKeys.{ApiKey, Keys, api_key_namespace, verify_secret}
use appunvs.Store.ApiKeys.Laws.{verify_secret-create, create_shaped}
use appunvs.Auth.Jwt.{Jwt, Signer}
use appunvs.Auth.Bearer.{Caller, bearer, with_key, by_token, by_header, authenticate}
use appunvs.Api.Keys.{Reply, created_reply, create_api_key}

created-create :
    (keys : Keys) (user_id : String) (raw : List ℕ) (key : ApiKey) (secret : List ℕ) (env : Env)
    (w w' : World)
    → create_api_key keys user_id (some raw) env w ≡ (ok (Reply.created key secret), w')
    → ApiKeys.create keys user_id (trim_space raw) env w ≡ (ok (key, secret), w')
unfolding create_api_key created_reply
created-create keys user_id raw key secret env w w' h =
    elim (Bool-cases (codes_beq (trim_space raw) [])) [
      | inl e ↦ absurd (let h' = rw e at h in ground (arith, h'))
      | inr e ↦ elim (run-cases (ApiKeys.create keys user_id (trim_space raw) env w)) [
        | inr (x, w1, r) ↦ absurd (let h' = rw (e, r) at h in ground (arith, h'))
        | inl ((k, s), w1, r) ↦ let h' = rw (e, r) at h in r ∙ ground (arith, h')
      ]
    ]

-- The secret that createAPIKey shows, sent as a bearer token, lets its user in under that key, when the
-- driver does not refuse the read and the secret neither starts nor ends with a space.
pub authenticate-create_api_key :
    (jwt : Jwt) (signer : Signer) (keys : Keys) (user_id : String) (raw : List ℕ) (key : ApiKey)
    (secret : List ℕ) (env : Env) (w w' : World)
    → create_api_key keys user_id (some raw) env w ≡ (ok (Reply.created key secret), w')
    → env.fails w'.place ≡ false
    → trim_space secret ≡ secret
    → (authenticate jwt signer keys (codes "Bearer " ++ secret) env w').0
      ≡ ok (some (Caller.by_key key.user_id key.id))
unfolding authenticate by_header by_token bearer with_key has_prefix trim_prefix strip_prefix?
authenticate-create_api_key jwt signer keys user_id raw key secret env w w' h q bare =
    let made = created-create keys user_id raw key secret env w w' h in
    let (p, full) = create_shaped keys user_id (trim_space raw) key secret env w w' made in
    let verified = verify_secret-create keys user_id (trim_space raw) key secret env w w' made q in
    rw (bare, full, p, verified) refl

-- ===== src/Store/ApiKeys.antt =====
-- relay/internal/store/apikeys.go: the API keys of the users. SHA-256, base64 and the random bytes
-- are parameters.
pub mod Laws
pub mod Revoke
use Prim.Native.String.{◌++◌ as append}
use appunvs.Prelude.{
  ℕ, String, Bool, true, false, not, ◌&&◌, Option, none, some, List, [], ◌∷◌, ◌++◌, map, ◌==◌, ltb,
  if◌then◌else◌, string_eq, nat_eq, codes, codes_beq, find, select, count, update_where, order_by,
  is_some, length, take, has_prefix, trim_space, without_dashes,
}
use appunvs.Store.Tables.{ApiKeyRow, Tables}
use appunvs.Store.Action.{
  other, unique, foreign_key, invalid_key, key_not_found, Result, ok, err, Action, pure, fail,
  ◌>>=◌, ◌>>◌, now_millis, query, exec,
}

-- APIKey: the row without the hash.
pub record ApiKey : Type 0 where
  pub id : String
  pub user_id : String
  pub name : List ℕ
  pub prefix : List ℕ
  pub created_at : ℕ
  pub last_used_at : Option ℕ
  pub revoked_at : Option ℕ

-- rand.Read of 17 bytes with base64.RawURLEncoding, hex.EncodeToString of sha256.Sum256, and
-- uuid.NewString.
pub record Keys : Type 0 where
  pub random_base64 : Action (List ℕ)
  pub hex_sha256 : List ℕ → List ℕ
  pub new_uuid : Action String

-- APIKeyNamespace, "apvs_"
abbrev pub api_key_namespace : List ℕ
api_key_namespace = codes "apvs_"

abbrev pub api_key_prefix_len : ℕ
api_key_prefix_len = 13

abbrev pub api_key_rand_chars : ℕ
api_key_rand_chars = 22

abbrev pub api_key_full_len : ℕ
api_key_full_len = 27

-- WHERE prefix = ? AND revoked_at IS NULL
abbrev pub is_live : List ℕ → ApiKeyRow → Bool
is_live prefix r = codes_beq r.prefix prefix && not (is_some r.revoked_at)

-- WHERE id = ? AND user_id = ? AND revoked_at IS NULL
abbrev pub is_revocable : String → String → ApiKeyRow → Bool
is_revocable user_id id r = r.id == id && r.user_id == user_id && not (is_some r.revoked_at)

-- The INSERT: id is the primary key, prefix is unique and user_id a foreign key.
unfoldable pub insert_key : ApiKeyRow → Tables → Result (Unit {0} × Tables)
insert_key r t =
    if is_some (find (λ k. k.id == r.id) t.api_keys)
    then err unique
    else if is_some (find (λ k. codes_beq k.prefix r.prefix) t.api_keys)
    then err unique
    else if is_some (find (λ u. u.id == r.user_id) t.users)
    then ok (tt, record t { api_keys = t.api_keys ++ r ∷ [] })
    else err foreign_key

unfoldable pub revoke_key : String → String → ℕ → Tables → Result (ℕ × Tables)
revoke_key user_id id now t = ok (
  count (is_revocable user_id id) t.api_keys,
  record t {
    api_keys =
        update_where (is_revocable user_id id) (λ r. record r { revoked_at = some now }) t.api_keys;
  },
)

unfoldable pub or_key_not_found : ℕ → Action (Unit {0})
or_key_not_found n = if n == 0 then fail key_not_found else pure tt

-- APIKeys.Revoke
unfoldable pub revoke : String → String → Action (Unit {0})
revoke user_id id = do now ← now_millis; n ← exec (revoke_key user_id id now); or_key_not_found n

-- The key that List answers with, and the one of VerifySecret, which leaves the prefix as it was asked.
unfoldable pub key_of_row : ApiKeyRow → ApiKey
key_of_row r = record {
  id = r.id;
  user_id = r.user_id;
  name = r.name;
  prefix = r.prefix;
  created_at = r.created_at;
  last_used_at = r.last_used_at;
  revoked_at = r.revoked_at;
}

-- APIKeys.List
unfoldable pub list : String → Action (List ApiKey)
list user_id = query λ t. map key_of_row (
    order_by (λ a b. ltb b.created_at a.created_at) (select (λ r. r.user_id == user_id) t.api_keys))

unfoldable pub touch_key : String → ℕ → Tables → Result (Unit {0} × Tables)
touch_key id now t = ok (
  tt,
  record t {
    api_keys =
        update_where (λ r. r.id == id) (λ r. record r { last_used_at = some now }) t.api_keys;
  },
)

-- APIKeys.Touch
unfoldable pub touch : String → Action (Unit {0})
touch id = do now ← now_millis; exec (touch_key id now)

module _ (k : Keys) where
  -- generateAPIKey, with the full key, its prefix and its hash.
  unfoldable pub key_of_chars : List ℕ → Action (List ℕ × List ℕ × List ℕ)
  key_of_chars enc =
      if ltb (length enc) api_key_rand_chars
      then fail other
      else let full = api_key_namespace ++ take api_key_rand_chars enc in
        pure (full, take api_key_prefix_len full, k.hex_sha256 full)

  unfoldable pub generate_api_key : Action (List ℕ × List ℕ × List ℕ)
  generate_api_key = k.random_base64 >>= key_of_chars

  -- The INSERT of Create.
  unfoldable pub store_key :
      String → List ℕ → String → List ℕ × List ℕ × List ℕ → Action (ApiKey × List ℕ)
  store_key user_id name uuid (full, prefix, hash) = do
    now ← now_millis
    let id = append "ak_" (without_dashes uuid)
    exec (
        insert_key (record {
          id = id;
          user_id = user_id;
          name = name;
          prefix = prefix;
          hash = hash;
          created_at = now;
          last_used_at = none;
          revoked_at = none;
        }))
    pure (
      record {
        id = id;
        user_id = user_id;
        name = name;
        prefix = prefix;
        created_at = now;
        last_used_at = none;
        revoked_at = none;
      },
      full,
    )

  -- APIKeys.Create
  unfoldable pub create : String → List ℕ → Action (ApiKey × List ℕ)
  create user_id raw =
      let name = trim_space raw in
      if user_id == ""
      then fail other
      else if codes_beq name []
      then fail other
      else do minted ← generate_api_key; uuid ← k.new_uuid; store_key user_id name uuid minted

  -- What VerifySecret does with the row that it finds.
  unfoldable pub check_secret : List ℕ → Option ApiKeyRow → Action ApiKey
  check_secret secret none = fail invalid_key
  check_secret secret (some r) =
      if codes_beq (k.hex_sha256 secret) r.hash
      then pure (record {
        id = r.id;
        user_id = r.user_id;
        name = r.name;
        prefix = take api_key_prefix_len secret;
        created_at = r.created_at;
        last_used_at = r.last_used_at;
        revoked_at = none;
      })
      else fail invalid_key

  -- APIKeys.VerifySecret
  unfoldable pub verify_secret : List ℕ → Action ApiKey
  verify_secret secret =
      if not (length secret == api_key_full_len)
      then fail invalid_key
      else if not (has_prefix secret api_key_namespace)
      then fail invalid_key
      else query (λ t. find (is_live (take api_key_prefix_len secret)) t.api_keys)
        >>= check_secret secret

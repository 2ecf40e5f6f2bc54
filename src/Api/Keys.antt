-- ===== src/Api/Keys.antt =====
-- relay/internal/handler/apikey.go: a user's own API keys, behind requireSession. A body that does not
-- decode is none.
pub mod Laws
use appunvs.Prelude.{
  ℕ, String, Bool, true, false, Option, none, some, List, [], ◌∷◌, map, ◌==◌, string_eq,
  if◌then◌else◌, codes_beq, trim_space,
}
use appunvs.Store.Action.{Error, key_not_found, Result, ok, err, Action, pure, attempt, ◌>>=◌}
use appunvs.Store.ApiKeys
use appunvs.Store.ApiKeys.{ApiKey, Keys}

-- listKeyItem
pub record KeyItem : Type 0 where
  pub id : String
  pub name : List ℕ
  pub prefix : List ℕ
  pub created_at : ℕ
  pub last_used_at : Option ℕ
  pub revoked_at : Option ℕ

-- The responses. created has the key that was stored, of which the response shows the id, the name, the
-- prefix and the time, and its secret.
pub data Reply : Type 0 where
  created : ApiKey → (secret : List ℕ) → Reply
  items : List KeyItem → Reply
  no_content bad_request not_found internal : Reply

unfoldable pub item_of : ApiKey → KeyItem
item_of k = record {
  id = k.id;
  name = k.name;
  prefix = k.prefix;
  created_at = k.created_at;
  last_used_at = k.last_used_at;
  revoked_at = k.revoked_at;
}

unfoldable pub created_reply : Result (ApiKey × List ℕ) → Reply
created_reply (err e) = Reply.internal
created_reply (ok (key, secret)) = Reply.created key secret

-- createAPIKey
unfoldable pub create_api_key : Keys → String → Option (List ℕ) → Action Reply
create_api_key keys user_id none = pure Reply.bad_request
create_api_key keys user_id (some raw) =
    let name = trim_space raw in
    if codes_beq name []
    then pure Reply.bad_request
    else do made ← attempt (ApiKeys.create keys user_id name); pure (created_reply made)

unfoldable pub items_reply : Result (List ApiKey) → Reply
items_reply (err e) = Reply.internal
items_reply (ok rows) = Reply.items (map item_of rows)

-- listAPIKeys
unfoldable pub list_api_keys : String → Action Reply
list_api_keys user_id = do rows ← attempt (ApiKeys.list user_id); pure (items_reply rows)

-- errors.Is
abbrev pub is_key_not_found : Error → Bool
is_key_not_found key_not_found = true
is_key_not_found _ = false

unfoldable pub revoked_reply : Result (Unit {0}) → Reply
revoked_reply (err e) = if is_key_not_found e then Reply.not_found else Reply.internal
revoked_reply (ok _) = Reply.no_content

-- revokeAPIKey
unfoldable pub revoke_api_key : String → String → Action Reply
revoke_api_key user_id id =
    if id == ""
    then pure Reply.bad_request
    else do done ← attempt (ApiKeys.revoke user_id id); pure (revoked_reply done)

-- ===== src/Tests/Keys.antt =====
-- Runs of relay/internal/handler/apikey.go.
use appunvs.Prelude.{
  ℕ, ◌≡◌, refl, none, some, List, ◌++◌, codes, find, codes_beq, String-discrete, trim_space,
  trim_left, trim_right, without_dashes, take,
}
use appunvs.Store.Action.{Result, ok, World, now_millis, exec}
use appunvs.Store.ApiKeys
use appunvs.Store.ApiKeys.{ApiKey}
use appunvs.Auth.Bearer.{Caller, authenticate}
use appunvs.Api.Keys.{Reply, created_reply, create_api_key}
use appunvs.Api.Keys.Laws.{authenticate-create_api_key}
use appunvs.Tests.Data.{env, world}
use appunvs.Tests.Accounts.{keys}
use appunvs.Tests.Tokens.{library, signer}

abbrev minted : Result Reply × World
minted = create_api_key keys "ann" (some (codes " ci ")) env world

abbrev minted_key : ApiKey
minted_key = record {
  id = "ak_9c1";
  user_id = "ann";
  name = codes "ci";
  prefix = codes "apvs_abcdefgh";
  created_at = env.clock 0;
  last_used_at = none;
  revoked_at = none;
}

abbrev minted_secret : List ℕ
minted_secret = codes "apvs_abcdefghijklmnopqrstuv"

minted_run : minted ≡ (ok (Reply.created minted_key minted_secret), minted.1)
unfolding create_api_key created_reply ApiKeys.create ApiKeys.generate_api_key ApiKeys.key_of_chars
    ApiKeys.store_key trim_space trim_left trim_right codes_beq now_millis exec ApiKeys.insert_key
    find String-discrete without_dashes take
minted_run = refl

bare : trim_space minted_secret ≡ minted_secret
unfolding trim_space trim_left trim_right
bare = refl

authenticate-create_api_key_example :
    (authenticate library signer keys (codes "Bearer " ++ minted_secret) env minted.1).0
    ≡ ok (some (Caller.by_key "ann" "ak_9c1"))
authenticate-create_api_key_example =
    authenticate-create_api_key library signer keys "ann" (codes " ci ") minted_key minted_secret
      env world minted.1 minted_run refl bare

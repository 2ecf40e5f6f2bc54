-- ===== src/Tests/Accounts.antt =====
-- Runs of relay/internal/store/devices.go, users.go and apikeys.go.
use appunvs.Prelude.{
  ℕ, ◌≡◌, ◌≢◌, ◌⊎◌, refl, sym, String, none, List, [], ◌∷◌, codes, length, ◌==◌, nat_eq, arith,
  find, codes_beq, String-discrete, has_prefix, strip_prefix?, trim_space, trim_left, trim_right,
  to_lower, without_dashes, take, count, update_where,
}
use appunvs.Store.Tables.{ApiKeyRow}
use appunvs.Store.Action.{Error, Result, ok, err, World, pure, now_millis, query, exec}
use appunvs.Store.Devices
use appunvs.Store.Devices.{Device}
use appunvs.Store.Devices.Laws.{Adopted, register_ends}
use appunvs.Store.Users
use appunvs.Store.Users.{User, Accounts, verify_login}
use appunvs.Store.Users.Laws.{HasUniqueUsers, verify_login-create, create-HasUniqueUsers}
use appunvs.Store.ApiKeys
use appunvs.Store.ApiKeys.{ApiKey, Keys, verify_secret}
use appunvs.Store.ApiKeys.Revoke.{verify_secret-revoke}
use appunvs.Tests.Data.{env, world}
use appunvs.Tests.Workspace.{unary, length-unary}

abbrev an_iphone : Result Device × World
an_iphone = Devices.register "d1" "ann" "ios" env world

register_ends_example :
    ((d : Device) × (an_iphone.0 ≡ ok d)
      × (d.id ≡ "d1")
      × (d.user_id ≡ "ann")
      × Adopted "d1" "ann" "ios" (env.clock 0) world.tables an_iphone.1.tables)
    ⊎ ((e : Error) × (an_iphone.0 ≡ err e) × (an_iphone.1.tables ≡ world.tables))
register_ends_example = register_ends "d1" "ann" "ios" env world

-- A password is hashed to as many letters as it has.
abbrev pub accounts : Accounts
accounts = record {
  generate = λ p. pure (unary (length p));
  compare = λ h p. length (codes h) == length p;
  new_uuid = pure "7f-3a";
}

pub accounts-Lawful : Users.Laws.Lawful accounts
accounts-Lawful = record {
  generate_calm = λ p env w. refl;
  uuid_calm = λ env w. refl;
  matches = λ p hash env w w' e.
      let l = length-unary (length p) in
      let is : unary (length p) ≡ hash = ground (arith, e) in rw (sym is, l) (ground arith);
}

abbrev bob : Result User × World
bob = Users.create accounts (codes " Bob@X ") (codes "secret12") env world

abbrev bob_user : User
bob_user = record { id = "u_7f3a"; email = codes "bob@x"; created_at = env.clock 0 }

bob_run : bob ≡ (ok bob_user, bob.1)
unfolding Users.create Users.store_user Users.normalize_email trim_space trim_left trim_right
    to_lower codes_beq now_millis exec Users.insert_user Users.or_user_exists find String-discrete
    without_dashes
bob_run = refl

same_email : Users.normalize_email (codes "BOB@x") ≡ Users.normalize_email (codes " Bob@X ")
unfolding Users.normalize_email trim_space trim_left trim_right to_lower
same_email = refl

verify_login-create_example :
    (verify_login accounts (codes "BOB@x") (codes "secret12") env bob.1).0 ≡ ok bob_user
verify_login-create_example =
    verify_login-create accounts accounts-Lawful (codes " Bob@X ") (codes "BOB@x")
      (codes "secret12") bob_user env env world bob.1 bob.1 bob_run same_email refl refl

create-HasUniqueUsers_example : HasUniqueUsers bob.1.users
create-HasUniqueUsers_example =
    create-HasUniqueUsers accounts (codes " Bob@X ") (codes "secret12") env world accounts-Lawful
      (tt, tt)

abbrev pub keys : Keys
keys = record {
  random_base64 = pure (codes "abcdefghijklmnopqrstuvw");
  hex_sha256 = λ s. s;
  new_uuid = pure "9c-1";
}

abbrev key_row : String → List ℕ → ApiKeyRow
key_row id secret = record {
  id = id;
  user_id = "ann";
  name = codes "ci";
  prefix = take 13 secret;
  hash = secret;
  created_at = 3;
  last_used_at = none;
  revoked_at = none;
}

abbrev pub two_keys : World
two_keys = record {
  tables = record world.tables {
    api_keys =
        key_row "ak_1" (codes "apvs_aaaaaaaaaaaaaaaaaaaaaa")
        ∷ key_row "ak_2" (codes "apvs_bbbbbbbbbbbbbbbbbbbbbb")
        ∷ [];
  };
  place = 0;
}

abbrev revoked : Result (Unit {0}) × World
revoked = ApiKeys.revoke "ann" "ak_1" env two_keys

revoked_run : revoked ≡ (ok tt, revoked.1)
unfolding ApiKeys.revoke ApiKeys.revoke_key ApiKeys.or_key_not_found now_millis exec count
    String-discrete
revoked_run = refl

abbrev other_key : Result ApiKey × World
other_key = verify_secret keys (codes "apvs_bbbbbbbbbbbbbbbbbbbbbb") env revoked.1

abbrev second_key : ApiKey
second_key = record {
  id = "ak_2";
  user_id = "ann";
  name = codes "ci";
  prefix = codes "apvs_bbbbbbbb";
  created_at = 3;
  last_used_at = none;
  revoked_at = none;
}

other_key_run : other_key ≡ (ok second_key, other_key.1)
unfolding ApiKeys.revoke ApiKeys.revoke_key ApiKeys.or_key_not_found now_millis exec count
    update_where String-discrete verify_secret ApiKeys.check_secret query find has_prefix
    strip_prefix? codes_beq take
other_key_run = refl

verify_secret-revoke_example : (second_key.id ≢ "ak_1") ⊎ (second_key.user_id ≢ "ann")
verify_secret-revoke_example =
    verify_secret-revoke keys "ann" "ak_1" (codes "apvs_bbbbbbbbbbbbbbbbbbbbbb") second_key env env
      two_keys revoked.1 other_key.1 revoked_run other_key_run

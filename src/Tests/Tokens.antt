-- ===== src/Tests/Tokens.antt =====
-- Runs of relay/internal/auth and relay/internal/apikey.
use appunvs.Prelude.{
  ℕ, ◌+◌, ◌*◌, ◌≡◌, ◌≢◌, refl, sym, ap, String, Bool, true, false, ◌&&◌, Option, none, some, List,
  codes, ◌==◌, nat_eq, string_eq, arith, ltb, leb, if◌then◌else◌, Bool-cases, inl, inr, codes_beq,
  String-discrete, has_prefix, strip_prefix?, trim_prefix, trim_space, trim_left, trim_right,
  to_lower, find, take, without_dashes,
}
use appunvs.Store.Action.{Result, ok, Env, World, now_millis, query, exec}
use appunvs.Store.Users
use appunvs.Store.ApiKeys
use appunvs.Store.ApiKeys.{api_key_namespace, verify_secret}
use appunvs.Auth.Accounts
use appunvs.Auth.Accounts.{Credentials, Reply, Deps, signup, login}
use appunvs.Auth.Accounts.Laws.{login-signup}
use appunvs.Auth.Bearer
use appunvs.Auth.Bearer.{Caller, bearer, authenticate}
use appunvs.Auth.Bearer.Laws.{Backed, authenticate-Backed}
use appunvs.Tests.Data.{env, world}
use appunvs.Tests.Accounts.{accounts, accounts-Lawful, keys, two_keys}
use appunvs.Auth.Jwt
use appunvs.Auth.Jwt.{
  Claims, token_session, token_device, token_namespace, Method, rsa, Jwt, Signer, claims_of,
  issue_session, issue_device, issue_namespace,
}
use appunvs.Auth.Jwt.Laws.{Lawful, IsCurrent, Verified, verify-issue}

abbrev pub signer : Signer
signer = Jwt.new_signer "appunvs" "relay" 0 0

abbrev as_session : Claims
as_session = claims_of signer "ann" "" "" "" token_session signer.session_ttl 5000

abbrev as_device : Claims
as_device = claims_of signer "ann" "d1" "ios" "" token_device signer.device_ttl 5000

abbrev as_namespace : Claims
as_namespace = claims_of signer "ann" "d1" "" "box_1" token_namespace signer.namespace_ttl 5000

abbrev same_claims : Claims → Claims → Bool
same_claims c d =
    c.user_id == d.user_id
    && c.device_id == d.device_id
    && c.platform == d.platform
    && c.box_id == d.box_id
    && c.typ == d.typ
    && c.issuer == d.issuer
    && c.subject == d.subject
    && c.audience == d.audience
    && c.issued_at == d.issued_at
    && c.not_before == d.not_before
    && c.expires_at == d.expires_at

same_claims_sound : (c d : Claims) → same_claims c d ≡ true → c ≡ d
same_claims_sound c d h = ground (arith, h)

-- A library that signs three tokens.
abbrev sign : Claims → Option (List ℕ)
sign c =
    if same_claims c as_session
    then some (codes "s")
    else if same_claims c as_device
    then some (codes "d")
    else if same_claims c as_namespace
    then some (codes "n")
    else none

abbrev claims_in : List ℕ → Option Claims
claims_in t =
    if codes_beq t (codes "s")
    then some as_session
    else if codes_beq t (codes "d")
    then some as_device
    else if codes_beq t (codes "n")
    then some as_namespace
    else none

abbrev in_time : String → String → ℕ → Option Claims → Option Claims
in_time issuer audience now none = none
in_time issuer audience now (some c) =
    if c.issuer == issuer
      && c.audience == audience
      && leb (c.not_before * 1000) now
      && ltb now (c.expires_at * 1000)
    then some c
    else none

abbrev pub library : Jwt
library = record {
  sign = sign;
  parse = λ key issuer audience now token.
      if key rsa then in_time issuer audience now (claims_in token) else none;
}

claims_in-sign : (c : Claims) (t : List ℕ) → sign c ≡ some t → claims_in t ≡ some c
unfolding codes_beq
claims_in-sign c t h = elim (Bool-cases (same_claims c as_session)) [
  | inl e ↦
      let is : codes "s" ≡ t = ground (arith, e, h) in
      rw (sym is, same_claims_sound c as_session e) refl
  | inr n ↦ elim (Bool-cases (same_claims c as_device)) [
    | inl e ↦
        let is : codes "d" ≡ t = ground (arith, n, e, h) in
        rw (sym is, same_claims_sound c as_device e) refl
    | inr n' ↦ elim (Bool-cases (same_claims c as_namespace)) [
      | inl e ↦
          let is : codes "n" ≡ t = ground (arith, n, n', e, h) in
          rw (sym is, same_claims_sound c as_namespace e) refl
      | inr e ↦ absurd (ground (arith, n, n', e, h))
    ]
  ]
]

library-Lawful : Lawful library
library-Lawful = record {
  parse_signed = λ c token key now signed takes begun left.
      let held = claims_in-sign c token signed in rw (takes, held) (ground (arith, begun, left));
}

abbrev soon : ℕ
soon = 60_000

ann_named : ◌≢◌ {A = String} "ann" ""
ann_named = λ e. let c = ap codes e in ground (arith, c)

d1_named : ◌≢◌ {A = String} "d1" ""
d1_named = λ e. let c = ap codes e in ground (arith, c)

session_signed : issue_session library signer "ann" 5000 ≡ some (codes "s")
unfolding issue_session Jwt.issue claims_of Jwt.new_signer String-discrete
session_signed = refl

device_signed : issue_device library signer "ann" "d1" "ios" 5000 ≡ some (codes "d")
unfolding issue_device Jwt.issue claims_of Jwt.new_signer String-discrete
device_signed = refl

namespace_signed : issue_namespace library signer "ann" "d1" "box_1" 5000 ≡ some (codes "n")
unfolding issue_namespace Jwt.issue claims_of Jwt.new_signer String-discrete
namespace_signed = refl

session-IsCurrent : IsCurrent 5000 signer.session_ttl soon
unfolding Jwt.new_signer
session-IsCurrent = ground arith

device-IsCurrent : IsCurrent 5000 signer.device_ttl soon
unfolding Jwt.new_signer
device-IsCurrent = ground arith

namespace-IsCurrent : IsCurrent 5000 signer.namespace_ttl soon
unfolding Jwt.new_signer
namespace-IsCurrent = ground arith

verify-issue_example :
    Verified library signer (codes "s") soon (some as_session) none none
    × Verified library signer (codes "d") soon none (some as_device) none
    × Verified library signer (codes "n") soon none none (some as_namespace)
verify-issue_example =
    verify-issue library library-Lawful signer "ann" "d1" "ios" "box_1" 5000 soon (codes "s")
      (codes "d") (codes "n") ann_named d1_named session_signed device_signed namespace_signed
      session-IsCurrent device-IsCurrent namespace-IsCurrent

abbrev at_soon : Env
at_soon = record { clock = λ n. soon; fails = λ n. false }

abbrev key_header : List ℕ
key_header = codes "Bearer apvs_bbbbbbbbbbbbbbbbbbbbbb"

key_lets_in :
    (authenticate library signer keys key_header at_soon two_keys).0
    ≡ ok (some (Caller.by_key "ann" "ak_2"))
unfolding authenticate Bearer.bearer Bearer.by_header Bearer.by_token Bearer.with_key has_prefix
    strip_prefix? trim_prefix trim_space trim_left trim_right codes_beq verify_secret
    ApiKeys.check_secret query find take ApiKeys.touch ApiKeys.touch_key now_millis exec
key_lets_in = refl

authenticate-Backed_example :
    (token : List ℕ) × (bearer key_header ≡ some token)
    × Backed library signer keys token at_soon two_keys (Caller.by_key "ann" "ak_2")
authenticate-Backed_example =
    authenticate-Backed library signer keys key_header (Caller.by_key "ann" "ak_2") at_soon two_keys
      key_lets_in

abbrev deps : Deps
deps = record {
  jwt = record { sign = λ c. some (codes "t"); parse = λ key issuer audience now token. none };
  signer = signer;
  accounts = accounts;
}

abbrev bob_body : Credentials
bob_body = record { email = codes " Bob@X "; password = codes "secret12" }

abbrev bob_again : Credentials
bob_again = record { email = codes "bob@x"; password = codes "secret12" }

abbrev signed_up : Result Reply × World
signed_up = signup deps (some bob_body) env world

signed_up_run : signed_up ≡ (ok (Reply.session "u_7f3a" (codes "t")), signed_up.1)
unfolding signup Accounts.after_create Accounts.welcome Accounts.is_empty issue_session Jwt.issue
    Users.create Users.store_user Users.normalize_email trim_space trim_left trim_right to_lower
    codes_beq now_millis exec Users.insert_user Users.or_user_exists find String-discrete
    without_dashes
signed_up_run = refl

login-signup_example :
    (login deps (some bob_again) env signed_up.1).0 ≡ ok (Reply.session "u_7f3a" (codes "t"))
unfolding Accounts.is_empty codes_beq issue_session Jwt.issue Users.normalize_email trim_space
    to_lower
login-signup_example =
    login-signup deps bob_body bob_again "u_7f3a" (codes "t") (codes "t") env world signed_up.1
      accounts-Lawful signed_up_run same_email refl full refl signs
  where
    full : Accounts.is_empty bob_again ≡ false
    full = refl

    signs :
        issue_session deps.jwt deps.signer "u_7f3a" (env.clock (signed_up.1.place + 1))
        ≡ some (codes "t")
    signs = refl

    same_email : Users.normalize_email (codes "bob@x") ≡ Users.normalize_email (codes " Bob@X ")
    same_email = refl

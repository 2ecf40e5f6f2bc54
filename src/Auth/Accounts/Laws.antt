-- ===== src/Auth/Accounts/Laws.antt =====
-- What the account handlers of relay/internal/auth/account.go promise together.
use mathlib.Core.Path.{subst}
use appunvs.Prelude.{
  ℕ, ◌≡◌, refl, sym, ap, ◌∙◌, String, false, Option, none, some, List, arith, Bool-cases, inl, inr,
  ◌+◌,
}
use appunvs.Store.Action.{Error, Result, ok, err, Env, World, now_millis, exec, Keeps, run-cases}
use appunvs.Store.Users
use appunvs.Store.Users.{User, Accounts, normalize_email, verify_login}
use appunvs.Store.Users.Laws.{verify_login-create, verify_login_place}
use appunvs.Store.Billing.Subscriptions.{ensure_free, insert_new}
use appunvs.Auth.Jwt.{issue_session}
use appunvs.Auth.Accounts.{
  Credentials, Reply, Deps, is_empty, session_reply, welcome, after_create, signup, after_login,
  login,
}

ensure_free_users : (id : String) → Keeps (λ t. t.users) (ensure_free id)
unfolding ensure_free insert_new now_millis exec
ensure_free_users id env w = ground arith

-- A signup that answers with a session made that user's account and kept it.
signup-create :
    (d : Deps) (b : Credentials) (user_id : String) (token : List ℕ) (env : Env) (w w' : World)
    → signup d (some b) env w ≡ (ok (Reply.session user_id token), w')
    → (u : User) × (w1 : World) × (Users.create d.accounts b.email b.password env w ≡ (ok u, w1))
      × (w'.users ≡ w1.users)
      × (u.id ≡ user_id)
unfolding signup after_create now_millis welcome
signup-create d b user_id token env w w' h = elim (Bool-cases (is_empty b)) [
  | inl e ↦ absurd (let h' = rw e at h in ground (arith, h'))
  | inr e ↦ elim (run-cases (Users.create d.accounts b.email b.password env w)) [
    | inr (x, w1, r) ↦ absurd (refused x w1 (rw (e, r) at h))
    | inl (u, w1, r) ↦
        let (kept, same) = welcomed u (record w1 { place = w1.place + 1 }) _ (rw (e, r) at h) in
        (u, w1, r, kept, same)
  ]
]
  where
    refused :
        (x : Error) (w1 : World)
        → after_create d (err x) env w1 ≡ (ok (Reply.session user_id token), w')
        → ⊥
    refused x w1 k = ground (arith, k)

    welcomed :
        (u : User) (w2 : World) (signed : Option (List ℕ))
        → welcome d u signed env w2 ≡ (ok (Reply.session user_id token), w')
        → (w'.users ≡ w2.users) × (u.id ≡ user_id)
    welcomed u w2 none k = absurd (ground (arith, k))
    welcomed u w2 (some t) k = (
      sym (ap (λ (x : Result Reply × World). x.1.users) k) ∙ ensure_free_users u.id env w2,
      ground (arith, k),
    )

-- After a signup that answered with a session, a login with the same password and a spelling of the email
-- that normalizes to the same answers with a session of the same user, if the driver refuses nothing and
-- the signer signs.
pub login-signup :
    (d : Deps) (b b' : Credentials) (user_id : String) (token token' : List ℕ) (env : Env)
    (w w' : World)
    → Users.Laws.Lawful d.accounts
    → signup d (some b) env w ≡ (ok (Reply.session user_id token), w')
    → normalize_email b'.email ≡ normalize_email b.email
    → b'.password ≡ b.password
    → is_empty b' ≡ false
    → env.fails w'.place ≡ false
    → issue_session d.jwt d.signer user_id (env.clock (w'.place + 1)) ≡ some token'
    → (login d (some b') env w').0 ≡ ok (Reply.session user_id token')
unfolding login after_login now_millis session_reply
login-signup d b b' user_id token token' env w w' lawful h same_email same full q signs =
    let (u, w1, made, kept, is) = signup-create d b user_id token env w w' h in
    let found =
      verify_login-create d.accounts lawful b.email b'.email b.password u env env w w1 w' made
        same_email kept q in
    let found' : (verify_login d.accounts b'.email b'.password env w').0 ≡ ok u =
      subst (λ (p : List ℕ). (verify_login d.accounts b'.email p env w').0 ≡ ok u) (sym same)
        found in
    let place = verify_login_place d.accounts b'.email b'.password env w' in
    rw (full, found', place, is, signs) refl

-- ===== src/Store/ApiKeys/Revoke.antt =====
-- Revoke of relay/internal/store/apikeys.go.
use appunvs.Prelude.{
  ℕ, ◌≡◌, ◌≢◌, ap, String, none, some, List, arith, string_eq, nat_eq, find, Option-cases, ◌⊎◌, inl,
  inr, take,
}
use appunvs.Prelude.Rows.Laws.{
  find_sound, count_of_none, count_of_some, update_of_none, find-update_gone, find_none_at,
}
use appunvs.Store.Action.{Error, Result, ok, err, Env, World, now_millis, exec}
use appunvs.Store.ApiKeys.{
  ApiKey, Keys, api_key_prefix_len, is_live, is_revocable, revoke_key, or_key_not_found, revoke,
  verify_secret,
}
use appunvs.Store.ApiKeys.Laws.{verify_secret-LookupEnds}

-- A Revoke that ends in an error has changed no table.
pub revoke_err :
    (user_id id : String) (e : Error) (env : Env) (w w' : World)
    → revoke user_id id env w ≡ (err e, w')
    → w'.tables ≡ w.tables
unfolding revoke now_millis exec revoke_key or_key_not_found
revoke_err user_id id e env w w' h =
    elim (Option-cases (find (is_revocable user_id id) w.api_keys)) [
      | inl none_left ↦
          let n = count_of_none (is_revocable user_id id) w.api_keys none_left in
          let u =
            update_of_none (is_revocable user_id id)
              (λ r. record r { revoked_at = some (env.clock w.place) }) w.api_keys none_left in
          ground (arith, n, u)
      | inr (r, found) ↦
          let n = count_of_some (is_revocable user_id id) w.api_keys r found in ground (arith, n)
    ]

revoked_rows :
    (user_id id : String) (env : Env) (w w' : World)
    → revoke user_id id env w ≡ (ok tt, w')
    → find (is_revocable user_id id) w'.api_keys ≡ none
unfolding revoke now_millis exec revoke_key or_key_not_found
revoked_rows user_id id env w w' h =
    let gone =
      find-update_gone (is_revocable user_id id)
        (λ r. record r { revoked_at = some (env.clock w.place) }) (λ x. ground arith) w.api_keys in
    ground (arith, gone)

-- After a Revoke that ended well, VerifySecret answers for no secret with a key of that id and user.
pub verify_secret-revoke :
    (k : Keys) (user_id id : String) (secret : List ℕ) (key : ApiKey) (env env' : Env)
    (w w' w'' : World)
    → revoke user_id id env w ≡ (ok tt, w')
    → verify_secret k secret env' w' ≡ (ok key, w'')
    → (key.id ≢ id) ⊎ (key.user_id ≢ user_id)
verify_secret-revoke k user_id id secret key env env' w w' w'' h v =
    let gone = revoked_rows user_id id env w w' h in
    let answer : (verify_secret k secret env' w').0 ≡ ok key =
      ap (λ (x : Result ApiKey × World). x.0) v in
    let ((_, ends), _) = verify_secret-LookupEnds k secret env' w' in
    elim ends [
      | inl (r, found, good, is) ↦
          let live = find_sound (is_live (take api_key_prefix_len secret)) w'.api_keys r found in
          let left =
            find_none_at (is_revocable user_id id) (is_live (take api_key_prefix_len secret))
              w'.api_keys r gone found in
          ground (arith, live, left, is, answer)
      | inr (inl e) ↦ absurd (ground (arith, e, answer))
      | inr (inr e) ↦ absurd (ground (arith, e, answer))
    ]

-- ===== src/Store/Devices/Laws.antt =====
-- What the operations of relay/internal/store/devices.go leave in the table.
use mathlib.Core.Option
use mathlib.Core.Path.{subst}
use appunvs.Prelude.{
  elsewhere, ℕ, ◌+◌, ◌≡◌, refl, sym, ap, ◌∙◌, String, Option, none, some, [], ◌∷◌, ◌++◌, arith,
  ◌==◌, string_eq, find, update_where, Bool-cases, ◌⊎◌, inl, inr,
}
use appunvs.Prelude.Rows.Laws.{find-append_new, find-append_miss, find-update, find-update_other}
use appunvs.Store.Tables.{DeviceRow, Tables}
use appunvs.Store.Action.{
  Error, Result, ok, err, Env, World, Action, pure, ◌>>=◌, bind-eq-ok, bind-of-ok, bind-of-err,
  exec-eq-ok, query-eq-ok, run-cases, now_millis, query,
}
use appunvs.Store.Transaction.{transaction, transaction_err, transaction_ok}
use appunvs.Store.Devices.{Device, has_id, insert_device, seen, update_device, adopt, register}

-- What a registration makes of the row of its device.
abbrev pub registered : String → String → String → ℕ → Option DeviceRow → DeviceRow
registered id user_id platform now none = record {
  id = id;
  user_id = user_id;
  platform = platform;
  created_at = now;
  last_seen = some now;
}
registered id user_id platform now (some r) = seen platform now r

abbrev adoption : String → String → String → ℕ → Action (Unit {0})
adoption id user_id platform now =
    query (λ t. find (has_id id) t.devices) >>= adopt id user_id platform now

-- A device is nobody's, or the user's.
abbrev pub Free : String → Option DeviceRow → Type 0
Free user_id none = Unit {0}
Free user_id (some r) = r.user_id ≡ user_id

-- The device was nobody's or the user's, its row is the user's, and no other row has changed.
abbrev pub Adopted : String → String → String → ℕ → Tables → Tables → Type 0
Adopted id user_id platform now t t' =
    Free user_id (find (has_id id) t.devices)
    × (find (has_id id) t'.devices
        ≡ some (registered id user_id platform now (find (has_id id) t.devices)))
    × ((other : String)
        → (id ≡ other) ⊎ (find (has_id other) t'.devices ≡ find (has_id other) t.devices))

insert-Adopted :
    (id user_id platform : String) (now : ℕ) (t t' : Tables)
    → find (has_id id) t.devices ≡ none
    → insert_device (registered id user_id platform now none) t ≡ ok (tt, t')
    → Adopted id user_id platform now t t'
unfolding insert_device
insert-Adopted id user_id platform now t t' h e =
    let new = registered id user_id platform now none in
    let added : t'.devices ≡ t.devices ++ new ∷ [] = ground arith in
    (
      rw h tt,
      rw (h, added) (find-append_new (has_id id) t.devices new h (ground arith)),
      λ other.
          elsewhere id other λ apart.
            rw added (find-append_miss (has_id other) t.devices new (ground (arith, apart))),
    )

update-Adopted :
    (id user_id platform : String) (now : ℕ) (r : DeviceRow) (t t' : Tables)
    → find (has_id id) t.devices ≡ some r
    → r.user_id ≡ user_id
    → update_device id platform now t ≡ ok (tt, t')
    → Adopted id user_id platform now t t'
unfolding update_device
update-Adopted id user_id platform now r t t' h own e =
    let changed : t'.devices ≡ update_where (has_id id) (seen platform now) t.devices =
      ground arith in
    (
      rw h own,
      rw (h, changed)
          (find-update (has_id id) (seen platform now) (λ x. refl) t.devices
            ∙ ap (Option.map (seen platform now)) h),
      λ other. elsewhere id other λ apart. rw changed (
          find-update_other (has_id id) (has_id other) (λ x y. ground (arith, apart))
            (seen platform now) (λ x y. ground (arith, apart)) t.devices),
    )

adopt-Adopted :
    (id user_id platform : String) (now : ℕ) (old : Option DeviceRow) (env : Env) (w w' : World)
    → find (has_id id) w.devices ≡ old
    → adopt id user_id platform now old env w ≡ (ok tt, w')
    → Adopted id user_id platform now w.tables w'.tables
unfolding adopt
adopt-Adopted id user_id platform now none env w w' h e =
    let (t, ran, after) = exec-eq-ok _ env w w' e in
    rw after (insert-Adopted id user_id platform now w.tables t h ran)
adopt-Adopted id user_id platform now (some r) env w w' h e =
    elim (Bool-cases (r.user_id == user_id)) [
      | inl own ↦
          let (t, ran, after) = exec-eq-ok _ env w w' (rw own at e) in
          rw after (update-Adopted id user_id platform now r w.tables t h (ground (arith, own)) ran)
      | inr own ↦ absurd (ground (arith, own))
    ]

adoption-Adopted :
    (id user_id platform : String) (now : ℕ) (env : Env) (w w' : World)
    → adoption id user_id platform now env w ≡ (ok tt, w')
    → Adopted id user_id platform now w.tables w'.tables
adoption-Adopted id user_id platform now env w w' h =
    let (old, w1, e, run) =
      bind-eq-ok (query (λ t. find (has_id id) t.devices)) (adopt id user_id platform now) env w
        h in
    let (read, after) = query-eq-ok (λ t. find (has_id id) t.devices) env w w1 e in
    let here : w1.tables ≡ w.tables = ap (λ (z : World). z.tables) after in
    subst (λ (t : Tables). Adopted id user_id platform now t w'.tables) here
      (adopt-Adopted id user_id platform now old env w1 w'
        (ap (λ (t : Tables). find (has_id id) t.devices) here ∙ sym read) run)

-- However Register ends: well, when the device was nobody's or the user's own, and then it is the
-- user's under its id with the platform and the time of the call, a device that was there keeps when
-- it was created, and the row of every other id is what it was; or with an error and no table changed.
pub register_ends :
    (id user_id platform : String) (env : Env) (w : World)
    → let x = register id user_id platform env w in
      ((d : Device) × (x.0 ≡ ok d)
        × (d.id ≡ id)
        × (d.user_id ≡ user_id)
        × Adopted id user_id platform (env.clock w.place) w.tables x.1.tables)
      ⊎ ((e : Error) × (x.0 ≡ err e) × (x.1.tables ≡ w.tables))
unfolding register now_millis
register_ends id user_id platform env w = elim (run-cases (transaction m env w1)) [
  | inl (a, w', e) ↦
      let (ran, after) = transaction_ok m env w1 (ap (λ (x : Result (Unit {0}) × World). x.0) e) in
      let left : w'.tables ≡ (m env w2).1.tables =
        sym (ap (λ (x : Result (Unit {0}) × World). x.1.tables) e) ∙ after in
      let run : m env w2 ≡ (ok tt, (m env w2).1) = ap (λ r. (r, (m env w2).1)) ran in
      inl (
        _,
        ap (λ (x : Result Device × World). x.0)
            (bind-of-ok (transaction m) then_device env w1 w' e),
        refl,
        refl,
        subst (λ (t : Tables). Adopted id user_id platform now w.tables t)
            (sym (
              ap (λ (x : Result Device × World). x.1.tables)
                (bind-of-ok (transaction m) then_device env w1 w' e)
              ∙ left))
            (adoption-Adopted id user_id platform now env w2 _ run),
      )
  | inr (e, w', h) ↦ inr (
    e,
    ap (λ (x : Result Device × World). x.0) (bind-of-err (transaction m) then_device env w1 w' h),
    ap (λ (x : Result Device × World). x.1.tables)
          (bind-of-err (transaction m) then_device env w1 w' h)
        ∙ sym (ap (λ (x : Result (Unit {0}) × World). x.1.tables) h)
        ∙ transaction_err m env w1 (ap (λ (x : Result (Unit {0}) × World). x.0) h),
  )
]
  where
    now : ℕ
    now = env.clock w.place

    m : Action (Unit {0})
    m = adoption id user_id platform now

    w1 : World
    w1 = record w { place = w.place + 1 }

    w2 : World
    w2 = record w { place = w.place + 1 + 1 }

    then_device : Unit {0} → Action Device
    then_device _ = pure (record {
      id = id;
      user_id = user_id;
      platform = platform;
      created_at = now;
      last_seen = some now;
    })

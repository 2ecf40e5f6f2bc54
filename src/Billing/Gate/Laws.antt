-- ===== src/Billing/Gate/Laws.antt =====
-- CheckAndIncrement of relay/internal/billing/ws_gate.go: what it charges and when it refuses.
use appunvs.Prelude.{
  ℕ, ◌+◌, ◌<◌, ◌≤◌, ◌≡◌, refl, sym, ap, ◌∙◌, String, Option, none, some, arith, ◌⊎◌, inl, inr, find,
  or_right,
}
use appunvs.Store.Tables.{Plan, UsageRow, Tables}
use appunvs.Prelude.{List}
use appunvs.Store.Action.{
  Env, World, Result, Error, ok, err, quota_exceeded, exec, query, now_millis, bind-eq-ok, Keeps,
  bind-Keeps, run-cases, Calm, bind-of-ok, driver,
}
use appunvs.Store.Billing.{get_plan, find_canonical_plan, day_key, plan_id}
use appunvs.Store.Billing.Subscriptions
use appunvs.Store.Billing.Subscriptions.{Subscription, insert_new, hydrate}
use appunvs.Store.Billing.Subscriptions.Laws.{lookup}
use appunvs.Store.Billing.Usage
use appunvs.Store.Billing.Usage.{counted, bump}
use appunvs.Store.Billing.Usage.Laws.{increment_effect}
use appunvs.Billing.Gate.{subscription_of, plan_of, charge, check_and_increment}

abbrev usage : Tables → List UsageRow
usage t = t.usage_daily

get-Keeps : (user_id : String) → Keeps usage (Subscriptions.get user_id)
unfolding Subscriptions.get query
get-Keeps user_id env w = refl

ensure_free-Keeps : (user_id : String) → Keeps usage (Subscriptions.ensure_free user_id)
unfolding Subscriptions.ensure_free now_millis exec insert_new
ensure_free-Keeps user_id env w = ground arith

-- What the gate reads first leaves every counter alone.
subscription_of-Keeps : (user_id : String) → Keeps usage (subscription_of user_id)
unfolding subscription_of
subscription_of-Keeps user_id =
    bind-Keeps usage (Subscriptions.get user_id) _ (get-Keeps user_id) (elim [
      | some s ↦ λ env w. refl
      | none ↦
          bind-Keeps usage (Subscriptions.ensure_free user_id) _ (ensure_free-Keeps user_id) λ _.
            bind-Keeps usage (Subscriptions.get user_id) _ (get-Keeps user_id)
              (elim [ some s ↦ λ env w. refl | none ↦ λ env w. refl ])
    ])

-- The plan that a subscription is held to: the table's, or the code's when the table has none.
abbrev pub plan_in : Tables → Subscription → Option Plan
plan_in t s = elim (find (plan_id s.plan_id) t.plans) [
  | some p ↦ some p
  | none ↦ find_canonical_plan s.plan_id
]

-- A subscription that the gate goes on with is one that the table holds then.
subscription_of-ok :
    (user_id : String) (s : Subscription) (env : Env) (w w' : World)
    → subscription_of user_id env w ≡ (ok s, w')
    → lookup w'.tables user_id ≡ some s
unfolding subscription_of Subscriptions.get Subscriptions.ensure_free now_millis exec query
    insert_new hydrate
subscription_of-ok user_id s env w w' h = ground arith

plan_of-ok :
    (s : Subscription) (p : Plan) (env : Env) (w w' : World)
    → plan_of s env w ≡ (ok p, w')
    → (plan_in w.tables s ≡ some p) × (w'.tables ≡ w.tables)
unfolding plan_of get_plan query
plan_of-ok s p env w w' h = ground arith

charge-ok :
    (user_id : String) (plan : Plan) (bytes : ℕ) (env : Env) (w w' : World)
    → charge user_id plan bytes env w ≡ (ok tt, w')
    → (w2 : World) × (counted user_id (day_key (env.clock w.place)) w.tables
        < plan.messages_per_day)
      × (w2.tables ≡ w.tables)
      × (Usage.increment_both user_id (day_key (env.clock w.place)) 1 bytes env w2 ≡ (ok tt, w'))
unfolding charge now_millis query Usage.messages_for_day
charge-ok user_id plan bytes env w w' h =
    let w2 : World = record w { place = w.place + 1 + 1 } in (w2, ground arith, refl, ground arith)

-- A message that the gate lets through: the user's subscription has a plan, the counter of the day
-- on which the clock stood was below the plan's limit, it is one higher afterwards and so at most
-- the limit, and every other counter is what it was.
pub gate_charges :
    (user_id : String) (bytes : ℕ) (env : Env) (w w' : World)
    → check_and_increment user_id bytes env w ≡ (ok tt, w')
    → (plan : Plan) × (now : ℕ) × ((s : Subscription) × (lookup w'.tables user_id ≡ some s)
        × (plan_in w'.tables s ≡ some plan))
      × (counted user_id (day_key (env.clock now)) w.tables < plan.messages_per_day)
      × (counted user_id (day_key (env.clock now)) w'.tables
          ≡ counted user_id (day_key (env.clock now)) w.tables + 1)
      × ((other : String) (day : ℕ)
          → ((other ≡ user_id) × (day ≡ day_key (env.clock now)))
            ⊎ (counted other day w'.tables ≡ counted other day w.tables))
unfolding check_and_increment counted
gate_charges user_id bytes env w w' h =
    let (s, w1, e1, h1) = bind-eq-ok (subscription_of user_id) _ env w h in
    let (plan, w2, e2, h2) = bind-eq-ok (plan_of s) _ env w1 h1 in
    let held = subscription_of-ok user_id s env w w1 e1 in
    let (planned, same) = plan_of-ok s plan env w1 w2 e2 in
    let (w3, below, same3, e3) = charge-ok user_id plan bytes env w2 w' h2 in
    let day = day_key (env.clock w2.place) in
    let (more, others, rest) = increment_effect user_id day 1 bytes env w3 w' e3 in
    let quiet : w1.usage_daily ≡ w.usage_daily =
      sym (ap (λ (x : Result Subscription × World). x.1.usage_daily) e1)
      ∙ subscription_of-Keeps user_id env w in
    let still : w3.usage_daily ≡ w.usage_daily = ap usage same3 ∙ ap usage same ∙ quiet in
    let counts : (other : String) (day : ℕ)
        → counted other day w3.tables ≡ counted other day w.tables =
      λ other day. ap (λ us. Usage.messages_of (find (Usage.of_day other day) us)) still in
    let counts2 : (other : String) (day : ℕ)
        → counted other day w2.tables ≡ counted other day w.tables =
      λ other day.
        ap (λ us. Usage.messages_of (find (Usage.of_day other day) us)) (ap usage same ∙ quiet) in
    (
      plan,
      w2.place,
      (s, ground (arith, rest, same3, same, held), ground (arith, rest, same3, same, planned)),
      rw (sym (counts2 user_id day)) below,
      more ∙ ap (λ n. n + 1) (counts user_id day),
      λ other d. or_right (others other d) (λ p. p ∙ counts other d),
    )

increment-err :
    (user_id : String) (day messages bytes : ℕ) (e : Error) (env : Env) (w w' : World)
    → Usage.increment_both user_id day messages bytes env w ≡ (err e, w')
    → w'.tables ≡ w.tables
unfolding Usage.increment_both exec bump
increment-err user_id day messages bytes e env w w' h = ground arith

charge-err :
    (user_id : String) (plan : Plan) (bytes : ℕ) (e : Error) (env : Env) (w w' : World)
    → charge user_id plan bytes env w ≡ (err e, w')
    → w'.tables ≡ w.tables
unfolding charge now_millis query Usage.messages_for_day Usage.increment_both exec bump
charge-err user_id plan bytes e env w w' h = ground arith

plan_of-Calm : (s : Subscription) → Calm (plan_of s)
unfolding plan_of get_plan query
plan_of-Calm s env w = ground arith

-- A message that the gate refuses, for whatever reason, is not charged: no counter changes.
pub gate_refuses :
    (user_id : String) (bytes : ℕ) (e : Error) (env : Env) (w w' : World)
    → check_and_increment user_id bytes env w ≡ (err e, w')
    → w'.usage_daily ≡ w.usage_daily
unfolding check_and_increment
gate_refuses user_id bytes e env w w' h = elim (run-cases (subscription_of user_id env w)) [
  | inr (x, w1, g) ↦ ground (arith, h, g, quiet)
  | inl (s, w1, g) ↦
      let h1 = sym (bind-of-ok (subscription_of user_id) _ env w w1 g) ∙ h in
      let same = plan_of-Calm s env w1 in
      elim (run-cases (plan_of s env w1)) [
        | inr (x, w2, k) ↦ ground (arith, h1, k, g, quiet, same)
        | inl (p, w2, k) ↦
            let h2 = sym (bind-of-ok (plan_of s) (λ p. charge user_id p bytes) env w1 w2 k) ∙ h1 in
            let still = charge-err user_id p bytes e env w2 w' h2 in
            ground (arith, k, g, quiet, same, still)
      ]
]
  where
    quiet : usage (subscription_of user_id env w).1.tables ≡ usage w.tables
    quiet = subscription_of-Keeps user_id env w

-- A user at or over the limit of the plan that the gate reads is refused, unless the driver is.
pub charge_at_limit :
    (user_id : String) (plan : Plan) (bytes : ℕ) (env : Env) (w : World)
    → plan.messages_per_day ≤ counted user_id (day_key (env.clock w.place)) w.tables
    → let (r, w') = charge user_id plan bytes env w in
      ((r ≡ err quota_exceeded) ⊎ (r ≡ err driver)) × (w'.tables ≡ w.tables)
unfolding charge now_millis query Usage.messages_for_day
charge_at_limit user_id plan bytes env w h = ground arith

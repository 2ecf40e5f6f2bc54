-- ===== src/Billing/Webhook/Laws.antt =====
-- What a delivery to BillingWebhook of relay/internal/handler/billing.go changes.
use appunvs.Prelude.{
  String-discrete, or_right, ℕ, ◌≡◌, refl, ap, ◌∙◌, String, Option, none, some, arith, ◌==◌,
  string_eq, if◌then◌else◌, ◌⊎◌, inl, inr, find,
}
use appunvs.Calendar.{add_month}
use appunvs.Store.Tables.{Tables}
use appunvs.Store.Action.{
  Env, World, Result, ok, err, query, now_millis, bind-eq-ok, after_calm, query-Calm,
  now_millis-Calm, Calm, run-cases, attempt, pure, ◌>>=◌, Action,
}
use appunvs.Store.Billing.{get_plan}
use appunvs.Store.Billing.Subscriptions
use appunvs.Store.Billing.Subscriptions.{Subscription, set_plan, hydrate, of_customer}
use appunvs.Store.Billing.Subscriptions.Laws.{lookup, put_effect}
use appunvs.Billing.Service.{apply_webhook_upgrade, start_or_now}
use appunvs.Billing.Webhook.{
  Event, Reply, reply_of, with_customer, for_customer, on_deleted, on_event,
}

-- What a user holds after a change of plan.
abbrev pub Holds : Tables → String → String → String → Type 0
Holds t user_id plan_id status =
    (s : Subscription) × (lookup t user_id ≡ some s) × (s.plan_id ≡ plan_id) × (s.status ≡ status)

set_plan-ok :
    (user_id plan_id status : String) (start end_ : ℕ) (customer subscription : String) (env : Env)
    (w w' : World)
    → set_plan user_id plan_id status start end_ customer subscription env w ≡ (ok tt, w')
    → Holds w'.tables user_id plan_id status
      × ((other : String) → (other ≡ user_id) ⊎ (lookup w'.tables other ≡ lookup w.tables other))
unfolding set_plan
set_plan-ok user_id plan_id status start end_ customer subscription env w w' h =
    let (a, b) = put_effect _ env w w' h in ((_, a, refl, refl), b)

start_or_now-Calm : (t : Option ℕ) → Calm (start_or_now t)
unfolding start_or_now
start_or_now-Calm none env w = now_millis-Calm env w
start_or_now-Calm (some t) env w = refl

-- A change of plan that ends well, from any event: the user holds the plan with the status, or
-- with "active" for an empty one, and nobody else's subscription changes.
pub apply-ok :
    (user_id plan_id status : String) (start end_ : Option ℕ) (customer subscription : String)
    (env : Env) (w w' : World)
    → apply_webhook_upgrade user_id plan_id status start end_ customer subscription env w
      ≡ (ok tt, w')
    → Holds w'.tables user_id plan_id (if status == "" then "active" else status)
      × ((other : String) → (other ≡ user_id) ⊎ (lookup w'.tables other ≡ lookup w.tables other))
unfolding apply_webhook_upgrade get_plan
apply-ok user_id plan_id status start end_ customer subscription env w w' h =
    after_calm (get_plan plan_id) _ env w (query-Calm _) h (elim [
      | none ↦ λ w1 q h1. absurd (ground arith)
      | some p ↦ λ w1 q h1.
          after_calm (start_or_now start) _ env w1 (start_or_now-Calm start) h1 λ now w2 q2 h2.
            let (a, b) = set_plan-ok user_id plan_id _ now _ customer subscription env w2 w' h2 in
            (a, λ other. or_right (b other) (λ p. p ∙ ap (λ t. lookup t other) (q2 ∙ q)))
    ])

find_by-ok :
    (customer : String) (found : Result (Option Subscription)) (env : Env) (w w' : World)
    → attempt (Subscriptions.find_by_stripe_customer customer) env w ≡ (ok found, w')
    → w'.tables ≡ w.tables
unfolding Subscriptions.find_by_stripe_customer query
find_by-ok customer found env w w' h = ground arith

-- Is a lookup by customer answered with this subscription?
abbrev pub FoundBy : Tables → String → Subscription → Type 0
FoundBy t customer s = hydrate (find (of_customer customer) t.subscriptions) ≡ some s

found_by :
    (customer : String) (s : Subscription) (env : Env) (w w' : World)
    → attempt (Subscriptions.find_by_stripe_customer customer) env w ≡ (ok (ok (some s)), w')
    → FoundBy w.tables customer s
unfolding Subscriptions.find_by_stripe_customer query
found_by customer s env w w' h = ground arith

pub applied :
    (m : Action (Unit {0})) (env : Env) (w w' : World)
    → (attempt m >>= λ done. pure (reply_of done)) env w ≡ (ok Reply.ok_applied, w')
    → m env w ≡ (ok tt, w')
unfolding reply_of
applied m env w w' h = elim (run-cases (m env w)) [
  | inl (tt, w1, g) ↦ ground (arith, h, g)
  | inr (e, w1, g) ↦ absurd (ground (arith, h, g))
]

pub with_customer-ok :
    (customer : String) (f : Subscription → Action Reply) (env : Env) (w w' : World)
    → with_customer customer f env w ≡ (ok Reply.ok_applied, w')
    → (s : Subscription) × (w1 : World) × FoundBy w.tables customer s
      × (w1.tables ≡ w.tables)
      × (f s env w1 ≡ (ok Reply.ok_applied, w'))
unfolding with_customer for_customer
with_customer-ok customer f env w w' h =
    let (found, w1, e1, h1) =
      bind-eq-ok (attempt (Subscriptions.find_by_stripe_customer customer)) (for_customer f) env w
        h in
    go found w1 e1 h1
  where
    go :
        (found : Result (Option Subscription)) (w1 : World)
        → attempt (Subscriptions.find_by_stripe_customer customer) env w ≡ (ok found, w1)
        → for_customer f found env w1 ≡ (ok Reply.ok_applied, w')
        → (s : Subscription) × (w1 : World) × FoundBy w.tables customer s
          × (w1.tables ≡ w.tables)
          × (f s env w1 ≡ (ok Reply.ok_applied, w'))
    go (err _) w1 e h = absurd (ground arith)
    go (ok none) w1 e h = absurd (ground arith)
    go (ok (some s)) w1 e h =
        (s, w1, found_by customer s env w w1 e, find_by-ok customer _ env w w1 e, h)

pub deleted_downgrades :
    (customer id : String) (env : Env) (w w' : World)
    → on_event (Event.subscription_deleted customer id) env w ≡ (ok Reply.ok_applied, w')
    → (s : Subscription) × FoundBy w.tables customer s
      × Holds w'.tables s.user_id "free" "canceled"
      × ((other : String) → (other ≡ s.user_id) ⊎ (lookup w'.tables other ≡ lookup w.tables other))
unfolding on_event on_deleted String-discrete
deleted_downgrades customer id env w w' h =
    let (s, w1, found, same, h1) = with_customer-ok customer _ env w w' h in
    after_calm now_millis _ env w1 now_millis-Calm h1 λ now w2 q2 h2.
      let (a, b) =
        apply-ok s.user_id "free" "canceled" (some now) (some (add_month now)) customer id env w2 w'
          (applied
            (apply_webhook_upgrade s.user_id "free" "canceled" (some now) (some (add_month now))
              customer id)
            env w2 w' h2) in
      (s, found, a, λ other. or_right (b other) (λ p. p ∙ ap (λ t. lookup t other) (q2 ∙ same)))

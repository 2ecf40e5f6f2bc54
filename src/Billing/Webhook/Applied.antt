-- ===== src/Billing/Webhook/Applied.antt =====
-- What a delivery that BillingWebhook of relay/internal/handler/billing.go applies has gone through.
use appunvs.Prelude.{
  String-discrete, Bool-cases, Option-cases, ◌||◌, ◌≢◌, ◌*◌, or_right, ℕ, ◌≡◌, ap, ◌∙◌, String,
  Option, none, some, arith, ◌==◌, string_eq, if◌then◌else◌, ◌⊎◌, inl, inr,
}
use appunvs.Store.Tables.{Tables}
use appunvs.Store.Action.{Env, World, ok}
use appunvs.Store.Billing.Subscriptions.{Subscription}
use appunvs.Store.Billing.Subscriptions.Laws.{lookup}
use appunvs.Billing.Service.{Service, Mode, mode, apply_webhook_upgrade}
use appunvs.Billing.Webhook.{
  Event, Reply, Request, on_completed, on_updated, on_event, verify_stripe_signature,
  billing_webhook,
}
use appunvs.Billing.Webhook.Laws.{
  Holds, FoundBy, apply-ok, applied, with_customer-ok, deleted_downgrades,
}

-- A user holds a plan with a status, and nobody else's subscription has changed.
abbrev pub Moved : Tables → Tables → String → String → String → Type 0
Moved t t' user_id plan_id status =
    Holds t' user_id plan_id status
    × ((other : String) → (other ≡ user_id) ⊎ (lookup t' other ≡ lookup t other))

-- What an event that is applied is for.
abbrev pub Granted : Event → Tables → Tables → Type 0
Granted (Event.checkout_completed client customer subscription meta_plan meta_user) t t' =
    Moved t t' (if client == "" then meta_user else client) meta_plan "active"
Granted (Event.subscription_updated customer id status period_start period_end meta_plan) t t' =
    (s : Subscription) × FoundBy t customer s
    × Moved t t' s.user_id (if meta_plan == "" then s.plan_id else meta_plan)
        (if status == "" then "active" else status)
Granted (Event.subscription_deleted customer id) t t' =
    (s : Subscription) × FoundBy t customer s × Moved t t' s.user_id "free" "canceled"
Granted Event.undecoded t t' = ⊥
Granted Event.ignored t t' = ⊥

completed-Granted :
    (client customer subscription meta_plan meta_user : String) (env : Env) (w w' : World)
    → on_completed client customer subscription meta_plan meta_user env w
      ≡ (ok Reply.ok_applied, w')
    → Moved w.tables w'.tables (if client == "" then meta_user else client) meta_plan "active"
unfolding on_completed String-discrete
completed-Granted client customer subscription meta_plan meta_user env w w' h =
    let user_id = if client == "" then meta_user else client in
    elim (Bool-cases (user_id == "" || meta_plan == "")) [
      | inl e ↦ absurd (let h' = rw e at h in ground (arith, h'))
      | inr e ↦
          let change =
            apply_webhook_upgrade user_id meta_plan "active" none none customer subscription in
          apply-ok user_id meta_plan "active" none none customer subscription env w w'
            (applied change env w w' (rw e at h))
    ]

updated-Granted :
    (customer id status : String) (period_start period_end : ℕ) (meta_plan : String) (env : Env)
    (w w' : World)
    → on_updated customer id status period_start period_end meta_plan env w
      ≡ (ok Reply.ok_applied, w')
    → (s : Subscription) × FoundBy w.tables customer s
      × Moved w.tables w'.tables s.user_id
          (if meta_plan == "" then s.plan_id else meta_plan)
          (if status == "" then "active" else status)
unfolding on_updated
updated-Granted customer id status period_start period_end meta_plan env w w' h =
    let (s, w1, found, same, h1) = with_customer-ok customer _ env w w' h in
    let plan = if meta_plan == "" then s.plan_id else meta_plan in
    let change =
      apply_webhook_upgrade s.user_id plan status (some (period_start * 1000))
        (some (period_end * 1000)) customer id in
    let (a, b) =
      apply-ok s.user_id plan status (some (period_start * 1000)) (some (period_end * 1000))
        customer id env w1 w' (applied change env w1 w' h1) in
    (s, found, (a, λ other. or_right (b other) (λ p. p ∙ ap (λ t. lookup t other) same)))

-- A delivery that is answered as applied, in real mode: a secret is configured, Stripe's check of the
-- payload and the signature against it has answered with an event, and the event's user holds the
-- event's plan with its status, while nobody else's subscription has changed: after a completed
-- checkout the plan in its metadata, "active"; after an update the user of the customer, the plan in
-- the metadata or else the one before, and the event's status or else "active"; after a deletion the
-- user of the customer, "free" and "canceled".
pub applied_delivery :
    (construct_event : String → String → String → Option Event) (s : Service) (r : Request)
    (env : Env) (w w' : World)
    → mode s ≡ Mode.real
    → billing_webhook construct_event s r env w ≡ (ok Reply.ok_applied, w')
    → (s.stripe_webhook_secret ≢ "")
      × ((e : Event) × (construct_event r.payload r.signature s.stripe_webhook_secret ≡ some e)
          × Granted e w.tables w'.tables)
unfolding billing_webhook verify_stripe_signature on_event
applied_delivery construct_event s r env w w' real h =
    elim (String-discrete s.stripe_webhook_secret "") [
      | yes e ↦ absurd (ground (arith, real, e, h))
      | no n ↦ (
        n,
        elim (Option-cases (construct_event r.payload r.signature s.stripe_webhook_secret)) [
          | inl x ↦ absurd (ground (arith, real, n, x, h))
          | inr (e, x) ↦ (e, x, granted e (ground (arith, real, n, x, h)))
        ],
      )
    ]
  where
    granted :
        (e : Event) → on_event e env w ≡ (ok Reply.ok_applied, w') → Granted e w.tables w'.tables
    granted (Event.checkout_completed client customer subscription meta_plan meta_user) k =
        completed-Granted client customer subscription meta_plan meta_user env w w' k
    granted (Event.subscription_updated customer id status period_start period_end meta_plan) k =
        updated-Granted customer id status period_start period_end meta_plan env w w' k
    granted (Event.subscription_deleted customer id) k =
        let (s, found, a, b) = deleted_downgrades customer id env w w' k in (s, found, (a, b))
    granted Event.undecoded k = absurd (ground arith)
    granted Event.ignored k = absurd (ground arith)

-- ===== src/Billing/Service.antt =====
-- relay/internal/billing/billing.go. Stripe is a collaborator: a session is made by `session`.
use Prim.Native.String.{◌++◌ as append}
use appunvs.Prelude.{ℕ, String, Option, none, some, ◌==◌, ltb, string_eq, if◌then◌else◌}
use appunvs.Calendar.{add_month}
use appunvs.Store.Tables.{Plan}
use appunvs.Store.Action.{Action, pure, fail, unknown_plan, ◌>>=◌, now_millis}
use appunvs.Store.Billing.{get_plan, day_key}
use appunvs.Store.Billing.Subscriptions
use appunvs.Store.Billing.Usage
use appunvs.Billing.Gate.{subscription_of, plan_of}

-- Service.Mode
pub data Mode : Type 0 where
  mock real : Mode

pub record Service : Type 0 where
  pub stripe_secret_key : String
  pub stripe_webhook_secret : String
  -- session.New for a plan and a user: the URL of the checkout
  pub session : Plan → String → Action String

unfoldable pub mode : Service → Mode
mode s = if s.stripe_secret_key == "" then Mode.mock else Mode.real

pub record CheckoutResult : Type 0 where
  pub url : String
  pub mode : Mode

module _ (s : Service) where
  unfoldable pub checkout_of : Mode → Plan → String → Action CheckoutResult
  checkout_of Mode.mock plan user_id = pure (record {
    url = append (append "https://stripe.mock/checkout/" plan.id) (append "?uid=" user_id);
    mode = Mode.mock;
  })
  checkout_of Mode.real plan user_id = do
    url ← s.session plan user_id
    pure (record { url = url; mode = Mode.real })

  -- Service.CreateCheckout
  unfoldable pub create_checkout : String → String → Action CheckoutResult
  create_checkout user_id plan_id = do
    found ← get_plan plan_id
    elim found [ none ↦ fail unknown_plan | some plan ↦ checkout_of (mode s) plan user_id ]

pub record Status : Type 0 where
  pub plan : String
  pub plan_name : String
  pub status : String
  pub period_start : ℕ
  pub period_end : ℕ
  pub messages_used : ℕ
  pub storage_bytes : ℕ
  pub limits : Plan

-- The last day of a period, which is never before its first.
unfoldable pub last_day : ℕ → ℕ → ℕ
last_day start_day end_day = if ltb end_day start_day then start_day else end_day

-- Service.LoadStatus
unfoldable pub load_status : String → Action Status
load_status user_id = do
  sub ← subscription_of user_id
  plan ← plan_of sub
  now ← now_millis
  used ← Usage.messages_for_day user_id (day_key now)
  let start_day = day_key sub.current_period_start
  bytes ←
      Usage.bytes_for_period user_id start_day (last_day start_day (day_key sub.current_period_end))
  pure (record {
    plan = sub.plan_id;
    plan_name = plan.name;
    status = sub.status;
    period_start = sub.current_period_start;
    period_end = sub.current_period_end;
    messages_used = used;
    storage_bytes = bytes;
    limits = plan;
  })

-- The start of a period: now for the zero time.Time, which is `none`.
unfoldable pub start_or_now : Option ℕ → Action ℕ
start_or_now none = now_millis
start_or_now (some t) = pure t

-- Service.ApplyWebhookUpgrade
unfoldable pub apply_webhook_upgrade :
    String → String → String → Option ℕ → Option ℕ → String → String → Action (Unit {0})
apply_webhook_upgrade user_id plan_id status period_start period_end customer subscription = do
  found ← get_plan plan_id
  elim found [
    | none ↦ fail unknown_plan
    | some _ ↦ do
      start ← start_or_now period_start
      Subscriptions.set_plan user_id plan_id (if status == "" then "active" else status) start
          (elim period_end [ none ↦ add_month start | some t ↦ t ]) customer subscription
  ]

-- ===== src/Billing/Webhook.antt =====
-- BillingWebhook of relay/internal/handler/billing.go, from the read body on. The signature check
-- and the decoding of the JSON payload are Stripe's and encoding/json's: `construct_event` takes the
-- payload, the signature and the secret, and answers with the decoded event or with none for a bad
-- signature.
pub mod Laws
pub mod Applied
use Prim.Native.String.{◌++◌ as append}
use appunvs.Prelude.{ℕ, ◌*◌, String, Bool, Option, none, some, ◌==◌, ◌||◌, string_eq, if◌then◌else◌}
use appunvs.Calendar.{add_month}
use appunvs.Store.Action.{
  Error, unknown_plan, Result, ok, err, Action, pure, attempt, ◌>>=◌, now_millis,
}
use appunvs.Store.Billing.Subscriptions
use appunvs.Store.Billing.Subscriptions.{Subscription}
use appunvs.Billing.Service.{Service, Mode, mode, apply_webhook_upgrade}

-- The events that the handler tells apart, with the fields that it reads; `undecoded` is one of the
-- three whose payload does not decode. Periods are in unix seconds.
pub data Event : Type 0 where
  checkout_completed :
      (client_reference_id customer subscription : String) (meta_plan meta_user : String) → Event
  subscription_updated :
      (customer id status : String) (period_start period_end : ℕ) (meta_plan : String) → Event
  subscription_deleted : (customer id : String) → Event
  undecoded : Event
  ignored : Event

-- The status of the response.
pub data Reply : Type 0 where
  ok_applied ok_unknown_customer ok_ignored : Reply
  bad_request internal : Reply

pub record Request : Type 0 where
  pub mock_upgrade : String
  pub mock_user : String
  pub payload : String
  pub signature : String

-- A change that was applied answers 200, and one that was refused 500.
unfoldable pub reply_of : Result (Unit {0}) → Reply
reply_of (ok _) = Reply.ok_applied
reply_of (err _) = Reply.internal

-- The mock path tells an unknown plan apart.
unfoldable pub mock_reply_of : Result (Unit {0}) → Reply
mock_reply_of (ok _) = Reply.ok_applied
mock_reply_of (err unknown_plan) = Reply.bad_request
mock_reply_of (err _) = Reply.internal

-- The lookup by customer that two of the events begin with, and how they go on from it.
unfoldable pub for_customer :
    (Subscription → Action Reply) → Result (Option Subscription) → Action Reply
for_customer f (err _) = pure Reply.internal
for_customer f (ok none) = pure Reply.ok_unknown_customer
for_customer f (ok (some existing)) = f existing

unfoldable pub with_customer : String → (Subscription → Action Reply) → Action Reply
with_customer customer f = do
  found ← attempt (Subscriptions.find_by_stripe_customer customer)
  for_customer f found

unfoldable pub on_completed : String → String → String → String → String → Action Reply
on_completed client customer subscription meta_plan meta_user =
    let user_id = if client == "" then meta_user else client in
    if user_id == "" || meta_plan == "" then pure Reply.bad_request else do
      done ←
          attempt (apply_webhook_upgrade user_id meta_plan "active" none none customer subscription)
      pure (reply_of done)

unfoldable pub on_updated : String → String → String → ℕ → ℕ → String → Action Reply
on_updated customer id status period_start period_end meta_plan = with_customer customer λ existing.
    do
      done ← attempt (
          apply_webhook_upgrade existing.user_id
            (if meta_plan == "" then existing.plan_id else meta_plan) status
            (some (period_start * 1000)) (some (period_end * 1000)) customer id)
      pure (reply_of done)

unfoldable pub on_deleted : String → String → Action Reply
on_deleted customer id = with_customer customer λ existing. do
  now ← now_millis
  done ← attempt (
      apply_webhook_upgrade existing.user_id "free" "canceled" (some now) (some (add_month now))
        customer id)
  pure (reply_of done)

-- The switch on the event's type.
unfoldable pub on_event : Event → Action Reply
on_event (Event.checkout_completed client customer subscription meta_plan meta_user) =
    on_completed client customer subscription meta_plan meta_user
on_event (Event.subscription_updated customer id status period_start period_end meta_plan) =
    on_updated customer id status period_start period_end meta_plan
on_event (Event.subscription_deleted customer id) = on_deleted customer id
on_event Event.undecoded = pure Reply.bad_request
on_event Event.ignored = pure Reply.ok_ignored

-- Mock mode: X-Mock-Upgrade and X-Mock-User.
unfoldable pub on_mock : Request → Action Reply
on_mock r = if r.mock_upgrade == "" || r.mock_user == "" then pure Reply.bad_request else do
  done ← attempt (
      apply_webhook_upgrade r.mock_user r.mock_upgrade "active" none none
        (append "mock_cus_" r.mock_user) (append "mock_sub_" r.mock_user))
  pure (mock_reply_of done)

-- Service.VerifyStripeSignature
unfoldable pub verify_stripe_signature :
    (String → String → String → Option Event) → Service → String → String → Option Event
verify_stripe_signature construct_event s payload signature =
    if s.stripe_webhook_secret == ""
    then none
    else construct_event payload signature s.stripe_webhook_secret

-- BillingWebhook
unfoldable pub billing_webhook :
    (String → String → String → Option Event) → Service → Request → Action Reply
billing_webhook construct_event s r = elim (mode s) [
  | Mode.mock ↦ on_mock r
  | Mode.real ↦ elim (verify_stripe_signature construct_event s r.payload r.signature) [
    | none ↦ pure Reply.bad_request
    | some e ↦ on_event e
  ]
]

-- ===== src/Billing/Gate.antt =====
-- relay/internal/billing/ws_gate.go: the gate on the messages of a day.
pub mod Laws
use appunvs.Prelude.{ℕ, String, Option, none, some, leb, if◌then◌else◌}
use appunvs.Store.Tables.{Plan}
use appunvs.Store.Action.{Action, pure, fail, other, quota_exceeded, ◌>>=◌, ◌>>◌, now_millis}
use appunvs.Store.Billing.{get_plan, find_canonical_plan, day_key}
use appunvs.Store.Billing.Subscriptions
use appunvs.Store.Billing.Subscriptions.{Subscription}
use appunvs.Store.Billing.Usage

-- The subscription of a user, who gets a free one first when there is none.
unfoldable pub subscription_of : String → Action Subscription
subscription_of user_id = do
  found ← Subscriptions.get user_id
  elim found [
    | some s ↦ pure s
    | none ↦ do
      Subscriptions.ensure_free user_id
      healed ← Subscriptions.get user_id
      elim healed [ some s ↦ pure s | none ↦ fail other ]
  ]

-- The plan of a subscription, from the table or, when it is gone there, from the code.
unfoldable pub plan_of : Subscription → Action Plan
plan_of sub = do
  found ← get_plan sub.plan_id
  elim found [
    | some p ↦ pure p
    | none ↦ elim (find_canonical_plan sub.plan_id) [ some p ↦ pure p | none ↦ fail other ]
  ]

-- The counter of the day against the plan.
unfoldable pub charge : String → Plan → ℕ → Action (Unit {0})
charge user_id plan bytes = do
  now ← now_millis
  used ← Usage.messages_for_day user_id (day_key now)
  if leb plan.messages_per_day used
      then fail quota_exceeded
      else Usage.increment_both user_id (day_key now) 1 bytes

-- Gate.CheckAndIncrement
unfoldable pub check_and_increment : String → ℕ → Action (Unit {0})
check_and_increment user_id bytes = do
  sub ← subscription_of user_id
  plan ← plan_of sub
  charge user_id plan bytes

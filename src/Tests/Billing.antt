-- ===== src/Tests/Billing.antt =====
-- Runs of relay/internal/billing, relay/internal/store/billing.go and the webhook.
use appunvs.Prelude.{
  ℕ, ◌+◌, ◌≤◌, ◌<◌, ◌≡◌, ◌≢◌, ◌⊎◌, refl, String, Option, none, some, String-discrete, find, upsert,
  arith, string_eq,
}
use appunvs.Calendar.{date_of, split_year, split_month, month_lengths, is_leap}
use appunvs.Calendar
use appunvs.Store.Tables.{Plan}
use appunvs.Store.Action.{
  Env, World, Result, ok, err, driver, quota_exceeded, exec, query, now_millis,
}
use appunvs.Store.Action
use appunvs.Store.Billing
use appunvs.Store.Billing.{day_key}
use appunvs.Store.Billing.Subscriptions
use appunvs.Store.Billing.Subscriptions.{Subscription, subscription_of_row}
use appunvs.Store.Billing.Subscriptions.Laws.{lookup}
use appunvs.Store.Billing.Usage
use appunvs.Store.Billing.Usage.{counted}
use appunvs.Billing.Gate.{check_and_increment, charge, subscription_of, plan_of}
use appunvs.Billing.Gate.Laws.{plan_in, gate_charges}
use appunvs.Billing.Service.{Service, Mode, mode, apply_webhook_upgrade, start_or_now}
use appunvs.Billing.Webhook
use appunvs.Billing.Webhook.{Event, Reply, Request, on_event, billing_webhook}
use appunvs.Billing.Webhook.Applied.{Granted, applied_delivery}
use appunvs.Tests.Data.{env, world}

abbrev freed : World
freed = (Subscriptions.ensure_free "ann" env world).1

freed_run : Subscriptions.ensure_free "ann" env world ≡ (ok tt, freed)
unfolding Subscriptions.ensure_free now_millis exec Subscriptions.insert_new Subscriptions.has_user
    Subscriptions.has_plan find String-discrete
freed_run = refl

abbrev pro_sub : Subscription
pro_sub = record {
  user_id = "ann";
  plan_id = "pro";
  stripe_customer_id = "cus";
  stripe_subscription_id = "";
  status = "active";
  current_period_start = 1;
  current_period_end = 2;
  updated_at = 0;
}

abbrev paid : World
paid = (Subscriptions.put pro_sub env world).1

paid_run : Subscriptions.put pro_sub env world ≡ (ok tt, paid)
unfolding Subscriptions.put now_millis exec Subscriptions.upsert_row
    Subscriptions.row_of_subscription Subscriptions.has_user Subscriptions.has_plan find upsert
    String-discrete
paid_run = refl

abbrev bumped : World
bumped = (Usage.increment_both "ann" 20260101 2 9 env world).1

bumped_run : Usage.increment_both "ann" 20260101 2 9 env world ≡ (ok tt, bumped)
unfolding Usage.increment_both exec Usage.bump Subscriptions.has_user find upsert String-discrete
bumped_run = refl

abbrev charged : World
charged = (check_and_increment "ann" 9 env world).1

charged_run : check_and_increment "ann" 9 env world ≡ (ok tt, charged)
unfolding check_and_increment subscription_of plan_of charge Subscriptions.get Subscriptions.hydrate
    Subscriptions.subscription_of_row Subscriptions.text Subscriptions.ensure_free now_millis exec
    query Subscriptions.insert_new Subscriptions.has_user Subscriptions.has_plan Billing.get_plan
    Usage.messages_for_day Usage.increment_both Usage.bump Usage.counted Usage.messages_of day_key
    find upsert String-discrete Calendar.date
charged_run = refl

gate_charges_example :
    (plan : Plan) × (now : ℕ) × ((s : Subscription) × (lookup charged.tables "ann" ≡ some s)
      × (plan_in charged.tables s ≡ some plan))
    × (counted "ann" (day_key (env.clock now)) world.tables < plan.messages_per_day)
    × (counted "ann" (day_key (env.clock now)) charged.tables
        ≡ counted "ann" (day_key (env.clock now)) world.tables + 1)
    × ((other : String) (day : ℕ)
        → ((other ≡ "ann") × (day ≡ day_key (env.clock now)))
          ⊎ (counted other day charged.tables ≡ counted other day world.tables))
gate_charges_example = gate_charges "ann" 9 env world charged charged_run

abbrev refused : World
refused = (check_and_increment "bob" 9 env world).1

refused_run : check_and_increment "bob" 9 env world ≡ (err Action.foreign_key, refused)
unfolding check_and_increment subscription_of Subscriptions.get Subscriptions.hydrate
    Subscriptions.ensure_free now_millis exec query Subscriptions.insert_new Subscriptions.has_user
    find String-discrete
refused_run = refl

abbrev tiny : Plan
tiny = record Billing.free { messages_per_day = 2 }

at_limit : tiny.messages_per_day ≤ counted "ann" (day_key (env.clock bumped.place)) bumped.tables
unfolding counted Usage.increment_both exec Usage.bump Usage.messages_of Subscriptions.has_user find
    upsert String-discrete day_key Calendar.date
at_limit = omega arith

abbrev upgraded : World
upgraded = (apply_webhook_upgrade "ann" "max" "" none none "cus" "sub" env world).1

upgraded_run :
    apply_webhook_upgrade "ann" "max" "" none none "cus" "sub" env world ≡ (ok tt, upgraded)
unfolding apply_webhook_upgrade start_or_now Billing.get_plan Subscriptions.set_plan
    Subscriptions.put now_millis exec query Subscriptions.upsert_row
    Subscriptions.row_of_subscription Subscriptions.has_user Subscriptions.has_plan find upsert
    String-discrete
upgraded_run = refl

abbrev canceled : World
canceled = (on_event (Event.subscription_deleted "cus" "sub") env paid).1

canceled_run :
    on_event (Event.subscription_deleted "cus" "sub") env paid ≡ (ok Reply.ok_applied, canceled)
unfolding on_event Webhook.on_deleted Webhook.with_customer Webhook.for_customer Webhook.reply_of
    Subscriptions.find_by_stripe_customer Subscriptions.hydrate Subscriptions.of_customer
    Subscriptions.subscription_of_row Subscriptions.text Subscriptions.nullable
    apply_webhook_upgrade start_or_now Billing.get_plan Subscriptions.set_plan Subscriptions.put
    now_millis exec query Subscriptions.upsert_row Subscriptions.row_of_subscription
    Subscriptions.has_user Subscriptions.has_plan find upsert String-discrete
canceled_run = refl

abbrev live : Service
live = record {
  stripe_secret_key = "sk";
  stripe_webhook_secret = "wh";
  session = λ plan user env w. (ok "url", w);
}

live_run : mode live ≡ Mode.real
unfolding mode String-discrete
live_run = refl

abbrev deletion : String → String → String → Option Event
deletion payload signature secret = some (Event.subscription_deleted "cus" "sub")

abbrev delivery : Request
delivery = record { mock_upgrade = ""; mock_user = ""; payload = "{}"; signature = "good" }

delivered : billing_webhook deletion live delivery env paid ≡ (ok Reply.ok_applied, canceled)
unfolding billing_webhook Webhook.verify_stripe_signature String-discrete mode
delivered = canceled_run

applied_delivery_example :
    (live.stripe_webhook_secret ≢ "")
    × ((e : Event) × (some (Event.subscription_deleted "cus" "sub") ≡ some e)
        × Granted e paid.tables canceled.tables)
applied_delivery_example =
    applied_delivery deletion live delivery env paid canceled live_run delivered

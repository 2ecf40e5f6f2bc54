-- ===== src/Store/Billing/Subscriptions.antt =====
-- The Subscriptions of relay/internal/store/billing.go.
pub mod Laws
use appunvs.Prelude.{
  ℕ, String, Bool, false, ◌||◌, is_some, Option, none, some, List, [], ◌∷◌, ◌++◌, ◌==◌, string_eq,
  if◌then◌else◌, find, upsert,
}
use appunvs.Calendar.{add_month}
use appunvs.Store.Tables.{UserRow, Plan, SubscriptionRow, Tables}
use appunvs.Store.Action.{Result, ok, err, foreign_key, Action, ◌>>=◌, now_millis, query, exec}
use appunvs.Store.Billing.{plan_id}

pub record Subscription : Type 0 where
  pub user_id : String
  pub plan_id : String
  pub stripe_customer_id : String
  pub stripe_subscription_id : String
  pub status : String
  pub current_period_start : ℕ
  pub current_period_end : ℕ
  pub updated_at : ℕ

-- A nullable text is NULL for "", and "" for NULL.
unfoldable pub nullable : String → Option String
nullable s = if s == "" then none else some s

unfoldable pub text : Option String → String
text none = ""
text (some s) = s

-- COALESCE(a, b)
unfoldable pub coalesce : Option String → Option String → Option String
coalesce none b = b
coalesce (some a) _ = some a

unfoldable pub subscription_of_row : SubscriptionRow → Subscription
unfolding text
subscription_of_row r = record {
  user_id = r.user_id;
  plan_id = r.plan_id;
  stripe_customer_id = text r.stripe_customer_id;
  stripe_subscription_id = text r.stripe_subscription_id;
  status = r.status;
  current_period_start = r.current_period_start;
  current_period_end = r.current_period_end;
  updated_at = r.updated_at;
}

abbrev pub of_user : String → SubscriptionRow → Bool
of_user user_id r = r.user_id == user_id

abbrev pub user_id : String → UserRow → Bool
user_id id u = u.id == id

-- The foreign keys of a row of subscriptions: user_id into users, plan_id into plans.
unfoldable pub has_user : String → Tables → Bool
has_user id t = is_some (find (user_id id) t.users)

unfoldable pub has_plan : String → Tables → Bool
has_plan id t = is_some (find (plan_id id) t.plans)

-- ON CONFLICT(user_id) DO NOTHING
unfoldable pub insert_new : SubscriptionRow → Tables → Result (Unit {0} × Tables)
insert_new r t = elim (find (of_user r.user_id) t.subscriptions) [
  | some _ ↦ ok (tt, t)
  | none ↦
      if has_user r.user_id t
      then if has_plan r.plan_id t
        then ok (tt, record t { subscriptions = t.subscriptions ++ r ∷ [] })
        else err foreign_key
      else err foreign_key
]

-- Subscriptions.EnsureFree
unfoldable pub ensure_free : String → Action (Unit {0})
ensure_free user_id = do
  now ← now_millis
  exec (
      insert_new (record {
        user_id = user_id;
        plan_id = "free";
        stripe_customer_id = none;
        stripe_subscription_id = none;
        status = "active";
        current_period_start = now;
        current_period_end = add_month now;
        updated_at = now;
      }))

-- What a QueryRow makes of no row: nil.
unfoldable pub hydrate : Option SubscriptionRow → Option Subscription
hydrate none = none
hydrate (some r) = some (subscription_of_row r)

-- Subscriptions.Get
unfoldable pub get : String → Action (Option Subscription)
get user_id = query λ t. hydrate (find (of_user user_id) t.subscriptions)

-- The row of an Upsert, and what ON CONFLICT(user_id) DO UPDATE makes of the row that is there.
unfoldable pub row_of_subscription : ℕ → Subscription → SubscriptionRow
row_of_subscription now s = record {
  user_id = s.user_id;
  plan_id = s.plan_id;
  stripe_customer_id = nullable s.stripe_customer_id;
  stripe_subscription_id = nullable s.stripe_subscription_id;
  status = s.status;
  current_period_start = s.current_period_start;
  current_period_end = s.current_period_end;
  updated_at = now;
}

unfoldable pub merged : SubscriptionRow → SubscriptionRow → SubscriptionRow
merged new old = record new {
  user_id = old.user_id;
  stripe_customer_id = coalesce new.stripe_customer_id old.stripe_customer_id;
  stripe_subscription_id = coalesce new.stripe_subscription_id old.stripe_subscription_id;
}

unfoldable pub upsert_row : SubscriptionRow → Tables → Result (Unit {0} × Tables)
upsert_row r t =
    if is_some (find (of_user r.user_id) t.subscriptions) || has_user r.user_id t
    then if has_plan r.plan_id t
      then ok
          (tt, record t { subscriptions = upsert (of_user r.user_id) (merged r) r t.subscriptions })
      else err foreign_key
    else err foreign_key

-- Subscriptions.Upsert
unfoldable pub put : Subscription → Action (Unit {0})
put s = do now ← now_millis; exec (upsert_row (row_of_subscription now s))

-- Subscriptions.SetPlan
unfoldable pub set_plan : String → String → String → ℕ → ℕ → String → String → Action (Unit {0})
set_plan user_id plan_id status period_start period_end customer_id subscription_id = put (record {
  user_id = user_id;
  plan_id = plan_id;
  stripe_customer_id = customer_id;
  stripe_subscription_id = subscription_id;
  status = status;
  current_period_start = period_start;
  current_period_end = period_end;
  updated_at = 0;
})

-- WHERE stripe_customer_id = ?, which NULL never meets
unfoldable pub of_customer : String → SubscriptionRow → Bool
of_customer customer_id r = elim r.stripe_customer_id [ none ↦ false | some c ↦ c == customer_id ]

-- Subscriptions.FindByStripeCustomer
unfoldable pub find_by_stripe_customer : String → Action (Option Subscription)
find_by_stripe_customer customer_id =
    if customer_id == ""
    then (λ env w. (ok none, w))
    else query λ t. hydrate (find (of_customer customer_id) t.subscriptions)

-- ===== src/Store/Billing.antt =====
-- relay/internal/store/billing.go: the plans, the subscriptions and the daily usage.
pub mod Subscriptions
pub mod Usage
pub mod Days
use appunvs.Prelude.{
  ℕ, suc, ◌+◌, ◌*◌, String, Bool, Option, none, some, List, [], ◌∷◌, ◌==◌, ltb, string_eq, find,
  order_by,
}
use appunvs.Calendar.{date}
use appunvs.Store.Tables.{Plan, Tables}
use appunvs.Store.Action.{Action, query}

-- CanonicalPlans
abbrev pub free : Plan
free = record {
  id = "free";
  name = "Free";
  price_cents_monthly = 0;
  messages_per_day = 1000;
  storage_bytes = 10 * 1024 * 1024;
  max_devices = 3;
  max_api_keys = 2;
}

abbrev pub pro : Plan
pro = record {
  id = "pro";
  name = "Pro";
  price_cents_monthly = 3900;
  messages_per_day = 100_000;
  storage_bytes = 1 * 1024 * 1024 * 1024;
  max_devices = 10;
  max_api_keys = 10;
}

abbrev pub max : Plan
max = record {
  id = "max";
  name = "Max";
  price_cents_monthly = 19_900;
  messages_per_day = 500_000;
  storage_bytes = 5 * 1024 * 1024 * 1024;
  max_devices = 25;
  max_api_keys = 25;
}

abbrev pub canonical_plans : List Plan
canonical_plans = free ∷ pro ∷ max ∷ []

abbrev pub plan_id : String → Plan → Bool
plan_id id p = p.id == id

-- FindCanonicalPlan
unfoldable pub find_canonical_plan : String → Option Plan
find_canonical_plan id = find (plan_id id) canonical_plans

-- Plans.List
unfoldable pub list_plans : Action (List Plan)
list_plans = query λ t. order_by (λ a b. ltb a.price_cents_monthly b.price_cents_monthly) t.plans

-- Plans.Get
unfoldable pub get_plan : String → Action (Option Plan)
get_plan id = query λ t. find (plan_id id) t.plans

-- DayKey
unfoldable pub day_key : ℕ → ℕ
day_key t = let d = date t in (1970 + d.year) * 10_000 + suc d.month * 100 + suc d.day

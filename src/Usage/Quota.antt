-- ===== src/Usage/Quota.antt =====
-- relay/internal/usage/quota.go: consumption, and the three gates over it.
pub mod Laws
use appunvs.Prelude.{
  ℕ, suc, ◌+◌, ◌-◌, ◌*◌, String, Bool, true, false, ◌&&◌, ◌==◌, string_eq, if◌then◌else◌,
}
use appunvs.Prelude.Int.{ℤ, is_nonneg, leb_ℕ}
use appunvs.Calendar.{date, first_of_month, day_millis}
use appunvs.Store.Action.{Action, Result, ok, err, other, pure, fail, ◌>>=◌, now_millis}
use appunvs.Store.Turns
use appunvs.Store.Boxes
use appunvs.Usage.Plans.{Plan}

pub data Window : Type 0 where
  none llm_5d llm_monthly sandbox storage : Window

pub record Used : Type 0 where
  pub llm_spent_cents_last_5d : ℕ
  pub llm_spent_cents_this_month : ℕ
  pub sandbox_runs_this_month : ℕ
  pub active_boxes : ℕ
  pub counted_at : ℕ

-- retry_after is in milliseconds.
pub record Decision : Type 0 where
  pub allowed : Bool
  pub limited_by : Window
  pub retry_after : ℕ
  pub used : Used
  pub plan : Plan

-- LLMSource, SandboxSource and StorageSource.
pub record Sources : Type 0 where
  pub llm_spent : String → ℕ → Action ℕ
  pub sandbox_runs : String → ℕ → Action ℕ
  pub active : String → Action ℕ

-- The sources of cmd/server/main.go: the turns and the boxes of the store.
abbrev pub store_sources : Sources
store_sources = record {
  llm_spent = Turns.llm_spent_by_namespace;
  sandbox_runs = Boxes.sandbox_runs_by_namespace;
  active = Boxes.active_by_namespace;
}

-- startOfMonth and nextMonth, in unix milliseconds.
unfoldable pub start_of_month : ℕ → ℕ
start_of_month t = let d = date t in first_of_month d.year d.month

unfoldable pub next_month : ℕ → ℕ
next_month t = let d = date t in first_of_month d.year (suc d.month)

-- 5 * 24 * time.Hour
abbrev pub five_days : ℕ
five_days = 5 * day_millis

module _ (q : Sources) where
  -- Quota.Used
  unfoldable pub used : String → Action Used
  used namespace = if namespace == "" then fail other else do
    now ← now_millis
    last_5d ← q.llm_spent namespace (now - five_days)
    this_month ← q.llm_spent namespace (start_of_month now)
    runs ← q.sandbox_runs namespace (start_of_month now)
    boxes ← q.active namespace
    pure (record {
      llm_spent_cents_last_5d = last_5d;
      llm_spent_cents_this_month = this_month;
      sandbox_runs_this_month = runs;
      active_boxes = boxes;
      counted_at = now;
    })

-- `cap >= 0 && used >= cap`
abbrev pub exhausted : ℤ → ℕ → Bool
exhausted cap n = is_nonneg cap && leb_ℕ cap n

unfoldable pub allow : Used → Plan → Decision
allow u plan = record {
  allowed = true;
  limited_by = Window.none;
  retry_after = 0;
  used = u;
  plan = plan;
}

unfoldable pub deny : Window → ℕ → Used → Plan → Decision
deny w retry u plan = record {
  allowed = false;
  limited_by = w;
  retry_after = retry;
  used = u;
  plan = plan;
}

-- The decisions of CheckLLM, CheckSandbox and CheckStorage on what was used.
unfoldable pub decide_llm : Used → Plan → Decision
unfolding allow deny
decide_llm u plan =
    if exhausted plan.llm_budget_cents_per_5d u.llm_spent_cents_last_5d
    then deny Window.llm_5d five_days u plan
    else if exhausted plan.llm_budget_cents_per_month u.llm_spent_cents_this_month
    then deny Window.llm_monthly (next_month u.counted_at - u.counted_at) u plan
    else allow u plan

unfoldable pub decide_sandbox : Used → Plan → Decision
unfolding allow deny
decide_sandbox u plan =
    if exhausted plan.sandbox_runs_per_month u.sandbox_runs_this_month
    then deny Window.sandbox (next_month u.counted_at - u.counted_at) u plan
    else allow u plan

unfoldable pub decide_storage : Used → Plan → Decision
unfolding allow deny
decide_storage u plan =
    if exhausted plan.active_boxes u.active_boxes
    then deny Window.storage 0 u plan
    else allow u plan

module _ (q : Sources) where
  -- Quota.CheckLLM
  unfoldable pub check_llm : String → Plan → Action Decision
  check_llm namespace plan = do u ← used q namespace; pure (decide_llm u plan)

  -- Quota.CheckSandbox
  unfoldable pub check_sandbox : String → Plan → Action Decision
  check_sandbox namespace plan = do u ← used q namespace; pure (decide_sandbox u plan)

  -- Quota.CheckStorage
  unfoldable pub check_storage : String → Plan → Action Decision
  check_storage namespace plan = do u ← used q namespace; pure (decide_storage u plan)

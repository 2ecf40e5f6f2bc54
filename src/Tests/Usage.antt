-- ===== src/Tests/Usage.antt =====
-- Runs of relay/internal/usage, of the calendar and of the wire names.
use appunvs.Prelude.{suc, ◌+◌, ◌≤◌, ◌<◌, ◌≡◌, ◌↔◌, ◌⊎◌, inl, inr, refl, true, false, arith}
use appunvs.Prelude.Int.{pos}
use appunvs.Calendar.{date, first_of_month}
use appunvs.Calendar.Months.{first_of_month-date, month_bounds}
use appunvs.Usage.Plans.{plan_free}
use appunvs.Usage.Quota.{
  Window, Used, decide_llm, decide_sandbox, decide_storage, start_of_month, five_days, deny,
}
use appunvs.Usage.Quota.Laws.{Within, gates_allowed, denials}

abbrev spent : Used
spent = record {
  llm_spent_cents_last_5d = 10;
  llm_spent_cents_this_month = 20;
  sandbox_runs_this_month = 5;
  active_boxes = 0;
  counted_at = 1_767_225_600_000;
}

gates_allowed_example :
    (((decide_llm spent plan_free).allowed ≡ true) ↔ (Within (pos 50) 10 × Within (pos 100) 20))
    × (((decide_sandbox spent plan_free).allowed ≡ true) ↔ Within (pos 5) 5)
    × (((decide_storage spent plan_free).allowed ≡ true) ↔ Within (pos 1) 0)
gates_allowed_example = gates_allowed spent plan_free

denied_run : (decide_sandbox spent plan_free).allowed ≡ false
unfolding decide_sandbox deny
denied_run = refl

denials_example :
    let d = decide_sandbox spent plan_free in
    let reset = spent.counted_at + d.retry_after in
    ((d.limited_by ≡ Window.llm_5d) × (d.retry_after ≡ five_days))
    ⊎ (((d.limited_by ≡ Window.llm_monthly) ⊎ (d.limited_by ≡ Window.sandbox))
        × (spent.counted_at < reset)
        × (start_of_month reset ≡ reset))
    ⊎ ((d.limited_by ≡ Window.storage) × (d.retry_after ≡ 0))
denials_example =
    denials spent plan_free (decide_sandbox spent plan_free) (inr (inl refl)) denied_run

first_of_month-date_example :
    let d = date (first_of_month 56 12) in first_of_month d.year d.month ≡ first_of_month 56 12
first_of_month-date_example = first_of_month-date 56 12 (omega arith)

month_bounds_example :
    let d = date 1_767_225_600_000 in
    (first_of_month d.year d.month ≤ 1_767_225_600_000)
    × (1_767_225_600_000 < first_of_month d.year (suc d.month))
month_bounds_example = month_bounds 1_767_225_600_000

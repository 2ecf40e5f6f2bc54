-- ===== src/Usage/Quota/Laws.antt =====
-- What the gates of relay/internal/usage/quota.go decide, and when a denial ends.
use appunvs.Prelude.{ℕ, suc, ◌+◌, ◌-◌, ◌<◌, ◌≡◌, ◌↔◌, ◌⊎◌, true, false, arith, refl, inl, inr}
use appunvs.Prelude.Int.{ℤ, pos, negsuc}
use appunvs.Calendar.{date}
use appunvs.Calendar.Months.{first_of_month-date, month_bounds, date-month}
use appunvs.Usage.Plans.{Plan}
use appunvs.Usage.Quota.{
  Window, Used, Decision, decide_llm, decide_sandbox, decide_storage, start_of_month, next_month,
  five_days, exhausted,
}

-- A count below a cap; a negative cap is no cap.
abbrev pub Within : ℤ → ℕ → Type 0
Within (pos cap) n = n < cap
Within (negsuc _) n = Unit

Within-exhausted : (cap : ℤ) (n : ℕ) → (exhausted cap n ≡ true) ⊎ Within cap n
Within-exhausted (pos cap) n = ground arith
Within-exhausted (negsuc _) n = inr tt

exhausted-not-Within : (cap : ℤ) (n : ℕ) → Within cap n → exhausted cap n ≡ false
exhausted-not-Within (pos cap) n h = ground arith
exhausted-not-Within (negsuc _) n h = refl

pub llm_allowed :
    (u : Used) (p : Plan)
    → ((decide_llm u p).allowed ≡ true) ↔ (
        Within p.llm_budget_cents_per_5d u.llm_spent_cents_last_5d
        × Within p.llm_budget_cents_per_month u.llm_spent_cents_this_month)
unfolding decide_llm
llm_allowed u p = (
  λ h. elim (Within-exhausted p.llm_budget_cents_per_5d u.llm_spent_cents_last_5d) [
    | inl e ↦ absurd (ground arith)
    | inr a ↦ elim (Within-exhausted p.llm_budget_cents_per_month u.llm_spent_cents_this_month) [
      | inl e ↦ absurd (ground arith)
      | inr b ↦ (a, b)
    ]
  ],
  λ h. rw (
    exhausted-not-Within p.llm_budget_cents_per_5d u.llm_spent_cents_last_5d h.0,
    exhausted-not-Within p.llm_budget_cents_per_month u.llm_spent_cents_this_month h.1,
  ),
)

pub sandbox_allowed :
    (u : Used) (p : Plan)
    → ((decide_sandbox u p).allowed ≡ true)
      ↔ Within p.sandbox_runs_per_month u.sandbox_runs_this_month
unfolding decide_sandbox
sandbox_allowed u p = (
  λ h. elim (Within-exhausted p.sandbox_runs_per_month u.sandbox_runs_this_month) [
    | inl e ↦ absurd (ground arith)
    | inr a ↦ a
  ],
  λ h. rw (exhausted-not-Within p.sandbox_runs_per_month u.sandbox_runs_this_month h),
)

pub storage_allowed :
    (u : Used) (p : Plan)
    → ((decide_storage u p).allowed ≡ true) ↔ Within p.active_boxes u.active_boxes
unfolding decide_storage
storage_allowed u p = (
  λ h. elim (Within-exhausted p.active_boxes u.active_boxes) [
    | inl e ↦ absurd (ground arith)
    | inr a ↦ a
  ],
  λ h. rw (exhausted-not-Within p.active_boxes u.active_boxes h),
)

-- Each gate allows an action exactly when what its own dimension has used is below that dimension's
-- cap, or the cap is negative: the LLM gate looks at both LLM windows, the sandbox gate at the
-- month's builds and the storage gate at the active boxes.
pub gates_allowed :
    (u : Used) (p : Plan)
    → (((decide_llm u p).allowed ≡ true) ↔ (
        Within p.llm_budget_cents_per_5d u.llm_spent_cents_last_5d
        × Within p.llm_budget_cents_per_month u.llm_spent_cents_this_month))
      × (((decide_sandbox u p).allowed ≡ true)
          ↔ Within p.sandbox_runs_per_month u.sandbox_runs_this_month)
      × (((decide_storage u p).allowed ≡ true) ↔ Within p.active_boxes u.active_boxes)
gates_allowed u p = (llm_allowed u p, sandbox_allowed u p, storage_allowed u p)

-- The next month begins after the time and is the start of its own month.
pub next_month_lem : (t : ℕ) → (t < next_month t) × (start_of_month (next_month t) ≡ next_month t)
unfolding next_month start_of_month
next_month_lem t =
    ((month_bounds t).1, first_of_month-date (date t).year (suc (date t).month) (date-month t))

-- Whichever gate denies: a denial by a monthly window says to come back at the very start of a
-- month, later than now; a denial by the five-day window says five days; a denial by storage names
-- no time.
pub denials :
    (u : Used) (p : Plan) (d : Decision)
    → (d ≡ decide_llm u p) ⊎ (d ≡ decide_sandbox u p) ⊎ (d ≡ decide_storage u p)
    → d.allowed ≡ false
    → let reset = u.counted_at + d.retry_after in
      ((d.limited_by ≡ Window.llm_5d) × (d.retry_after ≡ five_days))
      ⊎ (((d.limited_by ≡ Window.llm_monthly) ⊎ (d.limited_by ≡ Window.sandbox))
          × (u.counted_at < reset)
          × (start_of_month reset ≡ reset))
      ⊎ ((d.limited_by ≡ Window.storage) × (d.retry_after ≡ 0))
unfolding decide_llm decide_sandbox decide_storage
denials u p d which h =
    let (later, start) = next_month_lem u.counted_at in
    let reset : u.counted_at + (next_month u.counted_at - u.counted_at) ≡ next_month u.counted_at =
      omega arith in
    let start' : start_of_month (u.counted_at + (next_month u.counted_at - u.counted_at))
        ≡ u.counted_at + (next_month u.counted_at - u.counted_at) =
      rw reset start in
    ground (arith, start', later)

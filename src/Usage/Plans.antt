-- ===== src/Usage/Plans.antt =====
-- relay/internal/usage/plans.go: the registry of subscription tiers.
use appunvs.Prelude.{String, List, [], ◌∷◌, none, some, ◌==◌, string_eq, find}
use appunvs.Prelude.Int.{ℤ, pos, negsuc}

pub record Plan : Type 0 where
  pub id : String
  pub label : String
  pub llm_budget_cents_per_5d : ℤ
  pub llm_budget_cents_per_month : ℤ
  pub sandbox_runs_per_month : ℤ
  pub active_boxes : ℤ

abbrev pub plan_free : Plan
plan_free = record {
  id = "free";
  label = "Free";
  llm_budget_cents_per_5d = pos 50;
  llm_budget_cents_per_month = pos 100;
  sandbox_runs_per_month = pos 5;
  active_boxes = pos 1;
}

abbrev pub plan_pro : Plan
plan_pro = record {
  id = "pro";
  label = "Pro";
  llm_budget_cents_per_5d = pos 1500;
  llm_budget_cents_per_month = pos 3000;
  sandbox_runs_per_month = pos 50;
  active_boxes = pos 5;
}

abbrev pub plan_max : Plan
plan_max = record {
  id = "max";
  label = "Max";
  llm_budget_cents_per_5d = pos 4000;
  llm_budget_cents_per_month = pos 8000;
  sandbox_runs_per_month = pos 200;
  active_boxes = pos 20;
}

abbrev pub plan_max_plus : Plan
plan_max_plus = record {
  id = "max_plus";
  label = "Max+";
  llm_budget_cents_per_5d = negsuc 0;
  llm_budget_cents_per_month = pos 20_000;
  sandbox_runs_per_month = pos 500;
  active_boxes = negsuc 0;
}

abbrev pub plan_byok : Plan
plan_byok = record {
  id = "byok";
  label = "BYOK";
  llm_budget_cents_per_5d = negsuc 0;
  llm_budget_cents_per_month = negsuc 0;
  sandbox_runs_per_month = pos 50;
  active_boxes = pos 5;
}

-- Plans: every key of the Go map is the id of its value.
abbrev pub plans : List Plan
plans = plan_free ∷ plan_pro ∷ plan_max ∷ plan_max_plus ∷ plan_byok ∷ []

-- PlanFor
unfoldable pub plan_for : String → Plan
plan_for id = elim (find (λ p. p.id == id) plans) [ some p ↦ p | none ↦ plan_free ]

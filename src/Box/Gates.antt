-- ===== src/Box/Gates.antt =====
-- relay/internal/box/quota.go: the sandbox and storage gates of the service.
pub mod Laws
use appunvs.Prelude.{ℕ, String, Option, none, some, if◌then◌else◌}
use appunvs.Store.Action.{Action, fail, pure, plan_exhausted, ◌>>=◌}
use appunvs.Usage.Plans.{Plan}
use appunvs.Usage.Quota.{Sources, Decision, check_sandbox, check_storage}

-- Service.Quota and Service.PlanFor, each of which may be nil.
pub record Pricing : Type 0 where
  pub quota : Option Sources
  pub plan_for : Option (String → Plan)

-- The error of a denial, which the gates build and errors.As finds again.
unfoldable pub plan_error : String → Plan → Decision → Action (Unit {0})
plan_error window plan d =
    if d.allowed then pure tt else fail (plan_exhausted window plan.id d.retry_after)

-- Service.gateSandbox
unfoldable pub gate_sandbox : Pricing → String → Action (Unit {0})
unfolding plan_error
gate_sandbox p namespace = elim p.quota [
  | none ↦ pure tt
  | some q ↦ elim p.plan_for [
    | none ↦ pure tt
    | some plan_for ↦ do
      d ← check_sandbox q namespace (plan_for namespace)
      plan_error "sandbox" (plan_for namespace) d
  ]
]

-- Service.gateStorage
unfoldable pub gate_storage : Pricing → String → Action (Unit {0})
unfolding plan_error
gate_storage p namespace = elim p.quota [
  | none ↦ pure tt
  | some q ↦ elim p.plan_for [
    | none ↦ pure tt
    | some plan_for ↦ do
      d ← check_storage q namespace (plan_for namespace)
      plan_error "storage" (plan_for namespace) d
  ]
]

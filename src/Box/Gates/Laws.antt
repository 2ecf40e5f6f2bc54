-- ===== src/Box/Gates/Laws.antt =====
-- The gates of relay/internal/box/quota.go over the store's own counts.
use appunvs.Prelude.{String, some, ◌≡◌, refl, true, arith, sym, string_eq}
use appunvs.Store.Action.{Env, World, ok, ◌>>=◌, Calm, bind-eq-ok, bind-Calm, query, now_millis}
use appunvs.Store.Turns
use appunvs.Store.Boxes
use appunvs.Usage.Plans.{Plan}
use appunvs.Usage.Quota.{
  Used, Decision, store_sources, used, check_sandbox, check_storage, decide_storage, start_of_month,
}
use appunvs.Usage.Quota.Laws.{Within, storage_allowed}
use appunvs.Box.Gates.{Pricing, plan_error, gate_sandbox, gate_storage}

-- Quota.Used writes nothing.
used-Calm : (namespace : String) → Calm (used store_sources namespace)
unfolding used Turns.llm_spent_by_namespace Boxes.sandbox_runs_by_namespace
    Boxes.active_by_namespace query now_millis
used-Calm namespace env w = ground arith

-- What Quota.Used counts, when it ends well, is what the tables hold.
used-counts :
    (namespace : String) (env : Env) (w w' : World) (u : Used)
    → used store_sources namespace env w ≡ (ok u, w')
    → (u.active_boxes ≡ Boxes.active_boxes namespace w.tables)
      × (u.sandbox_runs_this_month
          ≡ Boxes.sandbox_runs namespace (start_of_month u.counted_at) w.tables)
      × (w'.tables ≡ w.tables)
unfolding used Turns.llm_spent_by_namespace Boxes.sandbox_runs_by_namespace
    Boxes.active_by_namespace query now_millis
used-counts namespace env w w' u h = ground arith

module _ (p : Pricing) (plan_for : String → Plan) (priced : p.quota ≡ some store_sources)
    (planned : p.plan_for ≡ some plan_for) where
  gate_storage-unfold :
      (namespace : String)
      → gate_storage p namespace ≡ (
          check_storage store_sources namespace (plan_for namespace) >>= λ d.
          plan_error "storage" (plan_for namespace) d)
  unfolding gate_storage
  gate_storage-unfold namespace = rw (priced, planned) refl

  gate_sandbox-unfold :
      (namespace : String)
      → gate_sandbox p namespace ≡ (
          check_sandbox store_sources namespace (plan_for namespace) >>= λ d.
          plan_error "sandbox" (plan_for namespace) d)
  unfolding gate_sandbox
  gate_sandbox-unfold namespace = rw (priced, planned) refl

-- A run that goes on behind the error of a denial was allowed.
plan_error-ok :
    (window : String) (plan : Plan) (d : Decision) (env : Env) (w w' : World)
    → plan_error window plan d env w ≡ (ok tt, w')
    → (d.allowed ≡ true) × (w' ≡ w)
unfolding plan_error
plan_error-ok window plan d env w w' h = ground arith

module _ (p : Pricing) (plan_for : String → Plan) (priced : p.quota ≡ some store_sources)
    (planned : p.plan_for ≡ some plan_for) where
  -- The storage gate lets a call go on only below the plan's cap.
  pub gate_storage-ok :
      (namespace : String) (env : Env) (w w' : World)
      → gate_storage p namespace env w ≡ (ok tt, w')
      → Within (plan_for namespace).active_boxes (Boxes.active_boxes namespace w.tables)
        × (w'.tables ≡ w.tables)
  unfolding check_storage
  gate_storage-ok namespace env w w' h =
      let h' = rw (gate_storage-unfold p plan_for priced planned namespace) at h in
      let (d, w1, e, g) =
        bind-eq-ok (check_storage store_sources namespace (plan_for namespace)) _ env w h' in
      let (allowed, same) = plan_error-ok "storage" (plan_for namespace) d env w1 w' g in
      let (u, w2, e2, g2) = bind-eq-ok (used store_sources namespace) _ env w e in
      let (counted, _, still) = used-counts namespace env w w2 u e2 in
      let allowed' : (decide_storage u (plan_for namespace)).allowed ≡ true =
        ground (arith, allowed, g2) in
      let within = (storage_allowed u (plan_for namespace)).0 allowed' in
      (rw (sym counted) within, ground arith)

  -- The sandbox gate writes no table.
  pub gate_sandbox-Calm : (namespace : String) → Calm (gate_sandbox p namespace)
  unfolding check_sandbox plan_error
  gate_sandbox-Calm namespace = rw (gate_sandbox-unfold p plan_for priced planned namespace) (
      bind-Calm (check_sandbox store_sources namespace (plan_for namespace)) _
        (bind-Calm (used store_sources namespace) _ (used-Calm namespace) λ u env w. refl)
        λ d env w. ground arith)

-- ===== src/Agent/Run/Laws.antt =====
-- What a turn of relay/internal/ai/openai_engine.go leaves behind.
use appunvs.Prelude.{
  ℕ, ◌+◌, ◌≡◌, String, Bool, none, ◌==◌, string_eq, nat_eq, arith, find, Option-cases, inl, inr,
}
use appunvs.Store.Tables.{Turn}
use appunvs.Store.Boxes.{has_id}
use appunvs.Store.Action.{Env, World, now_millis, exec}
use appunvs.Store.Turns
use appunvs.Agent.{Fault}
use appunvs.Agent.Tools.{ToolDeps}
use appunvs.Agent.Run.{Engine, Turning, row_of_fault, store_row, emit_err}

insert_orphan :
    (turn : Turn) (env : Env) (w : World)
    → find (has_id turn.box_id) w.app_boxes ≡ none
    → (Turns.insert turn env w).1.ai_turns ≡ w.ai_turns
unfolding Turns.insert Turns.insert_turn now_millis exec
insert_orphan turn env w h = elim (Option-cases (find (λ r. r.id == turn.id) w.ai_turns)) [
  | inl n ↦ ground (arith, h, n)
  | inr (r, n) ↦ ground (arith, h, n)
]

module _ (e : Engine) (tools : ToolDeps) (gone : ℕ → Bool) (env : Env) where
  -- A turn that is aborted leaves no row: the row that emitErr writes names no box, and no box has the
  -- empty id.
  pub emit_err_unrecorded :
      (turn_id : String) (x : Fault) (t : Turning)
      → find (has_id "") t.world.app_boxes ≡ none
      → (emit_err e tools gone env turn_id x t).world.ai_turns ≡ t.world.ai_turns
  unfolding emit_err store_row row_of_fault now_millis
  emit_err_unrecorded turn_id x t h =
      insert_orphan (row_of_fault e tools gone env turn_id x (env.clock t.world.place)) env
        (record t.world { place = t.world.place + 1 }) h

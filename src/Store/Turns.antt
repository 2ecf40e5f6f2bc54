-- ===== src/Store/Turns.antt =====
-- relay/internal/store/turns.go: the conversation turns, and the sums that the quota reads.
use appunvs.Prelude.{
  ℕ, ◌+◌, String, Bool, ◌&&◌, none, some, List, [], ◌∷◌, ◌++◌, ◌==◌, ltb, leb, if◌then◌else◌,
  string_eq, nat_eq, find, select, count, sum_where, order_by, take,
}
use appunvs.Store.Tables.{Turn, Tables}
use appunvs.Store.Action.{
  Result, ok, err, unique, foreign_key, turn_not_found, Action, pure, fail, ◌>>=◌, now_millis,
  query, exec,
}
use appunvs.Store.Boxes.{has_id, box_in_namespace}

-- INSERT INTO ai_turns; id is the primary key and box_id references app_boxes(id).
unfoldable pub insert_turn : Turn → Tables → Result (Unit {0} × Tables)
insert_turn turn t = elim (find (λ r. r.id == turn.id) t.ai_turns) [
  | some _ ↦ err unique
  | none ↦ elim (find (has_id turn.box_id) t.app_boxes) [
    | none ↦ err foreign_key
    | some _ ↦ ok (tt, record t { ai_turns = t.ai_turns ++ turn ∷ [] })
  ]
]

-- Turns.Insert: the clock is read only where the caller left the time out.
unfoldable pub insert : Turn → Action (Unit {0})
insert turn =
    if turn.created_at == 0
    then (do now ← now_millis; exec (insert_turn (record turn { created_at = now })))
    else exec (insert_turn turn)

-- Turns.Recent, with limit 0 for "no limit given"
unfoldable pub recent : String → ℕ → Action (List Turn)
recent box_id limit =
    let n = if limit == 0 then 50 else limit in
    query λ t. take n (
      order_by (λ a b. ltb b.created_at a.created_at) (select (λ r. r.box_id == box_id) t.ai_turns))

-- Turns.Get
unfoldable pub get : String → Action Turn
get id = do
  found ← query (λ t. find (λ r. r.id == id) t.ai_turns)
  elim found [ none ↦ fail turn_not_found | some r ↦ pure r ]

-- The JOIN with app_boxes and the window [since, now].
unfoldable pub in_window : String → ℕ → Tables → Turn → Bool
in_window namespace since t r =
    box_in_namespace namespace t.app_boxes r.box_id && leb since r.created_at

-- Turns.TokensSpent
unfoldable pub tokens_spent : String → ℕ → Action ℕ
tokens_spent namespace since =
    query λ t. sum_where (in_window namespace since t) (λ r. r.tokens_in + r.tokens_out) t.ai_turns

-- Turns.CountByNamespace
unfoldable pub count_by_namespace : String → ℕ → Action ℕ
count_by_namespace namespace since = query λ t. count (in_window namespace since t) t.ai_turns

-- Turns.LLMSpentByNamespace
unfoldable pub llm_spent_by_namespace : String → ℕ → Action ℕ
llm_spent_by_namespace namespace since =
    query λ t. sum_where (in_window namespace since t) (λ r. r.cost_cents) t.ai_turns

-- ===== src/Agent/Run/History.antt =====
-- The messages that a turn of relay/internal/ai/openai_engine.go sends.
use appunvs.Prelude.{
  ℕ, zero, suc, ◌+◌, ◌≡◌, refl, ap, ◌∙◌, String, Bool, true, false, Option, none, some, List, [],
  ◌∷◌, ◌++◌, string_eq, nat_eq, arith, Bool-cases, inl, inr,
}
use appunvs.Store.Tables.{Turn}
use appunvs.Store.Action.{World, Env}
use appunvs.Agent.{Role, ToolCall, Message, Request}
use appunvs.Agent.Stream.{Answer, Read, Out, Reply, Reading, answer_of, run_one, offer}
use appunvs.Agent.Tools.{ToolDeps}
use appunvs.Agent.Run.{
  Engine, Turning, Conversation, Ended, plain, is_system, without_system, replay, history_of,
  opening, opened, effective_model, iterate, run_calls, run_call, prefixed, add_result, taken,
  report, after_announced, with_answer, after_calls, after_answer,
}

-- No message of the system.
abbrev pub Unprompted : List Message → Type 0
Unprompted ms = without_system ms ≡ ms

without_system-append :
    (xs ys : List Message) → without_system (xs ++ ys) ≡ without_system xs ++ without_system ys
unfolding without_system
without_system-append [] ys = refl
without_system-append (x ∷ xs) ys = let rest = without_system-append xs ys in ground (arith, rest)

Unprompted-append : (xs ys : List Message) → Unprompted xs → Unprompted ys → Unprompted (xs ++ ys)
Unprompted-append xs ys a b =
    without_system-append xs ys ∙ ap (λ z. z ++ without_system ys) a ∙ ap (λ z. xs ++ z) b

without_system-Unprompted : (ms : List Message) → Unprompted (without_system ms)
unfolding without_system
without_system-Unprompted [] = refl
without_system-Unprompted (m ∷ ms) =
    let rest = without_system-Unprompted ms in
    elim (Bool-cases (is_system m)) [ inl s ↦ rw s rest | inr s ↦ rw (s, s, rest) refl ]

module _ (e : Engine) where
  history-Unprompted : (rows : List Turn) → Unprompted (history_of e rows)
  unfolding history_of replay without_system
  history-Unprompted [] = refl
  history-Unprompted (r ∷ rs) =
      Unprompted-append (history_of e rs) _ (history-Unprompted rs) (replayed (e.decode r.messages))
    where
      replayed : (o : Option (List Message)) → Unprompted (replay e o)
      replayed none = refl
      replayed (some ms) = without_system-Unprompted ms

  -- The system prompt first, and no other.
  abbrev pub Prompted : List Message → Type 0
  Prompted ms = (rest : List Message) × (ms ≡ plain Role.system e.system ∷ rest) × Unprompted rest

  opening-Prompted : (req : Request) (rows : List Turn) → Prompted (opening e req rows)
  unfolding opening without_system
  opening-Prompted req rows =
      (_, refl, Unprompted-append (history_of e rows) _ (history-Unprompted rows) refl)

  Prompted-append : (ms more : List Message) → Prompted ms → Unprompted more → Prompted (ms ++ more)
  Prompted-append ms more (rest, is, u) v =
      (rest ++ more, ap (λ z. z ++ more) is, Unprompted-append rest more u v)

  module _ (tools : ToolDeps) (gone : ℕ → Bool) (env : Env) where
    answer-Unprompted :
        (well : Bool) (x : Read Reading × Out) (a : Answer) (o : Out)
        → answer_of gone well x ≡ (Read.got a, o)
        → Unprompted (a.message ∷ [])
    unfolding answer_of without_system
    answer-Unprompted well (Read.fault y, o') a o h = absurd (ground (arith, h))
    answer-Unprompted false (Read.got r, o') a o h = absurd (ground (arith, h))
    answer-Unprompted true (Read.got r, o') a o h =
        let role : a.message.role ≡ Role.assistant = ground (arith, h) in rw role refl

    run_one-Unprompted :
        (reply : Reply) (o o' : Out) (a : Answer)
        → run_one gone reply o ≡ (Read.got a, o')
        → Unprompted (a.message ∷ [])
    unfolding run_one
    run_one-Unprompted Reply.refused o o' a h = absurd (ground (arith, h))
    run_one-Unprompted (Reply.streamed cs well) o o' a h = answer-Unprompted well _ a o' h

    -- What a step of the tools adds is not the system's.
    abbrev Adds : Option (List Message) × Turning → Type 0
    Adds (none, t) = Unit {0}
    Adds (some ms, t) = Unprompted ms

    abbrev AddsOne : Option Message × Turning → Type 0
    AddsOne (none, t) = Unit {0}
    AddsOne (some m, t) = is_system m ≡ false

    run_call-AddsOne : (tc : ToolCall) (t : Turning) → AddsOne (run_call e tools gone env tc t)
    unfolding run_call after_announced report taken offer
    run_call-AddsOne tc t = elim (Bool-cases (gone t.out.offered)) [
      | inl g ↦ rw g tt
      | inr g ↦ elim (Bool-cases (gone (t.out.offered + 1))) [
        | inl g' ↦ rw (g, g') tt
        | inr g' ↦ rw (g, g') refl
      ]
    ]

    prefixed-Adds :
        (m : Message) (x : Option (List Message) × Turning)
        → is_system m ≡ false
        → Adds x
        → Adds (prefixed e tools gone env m x)
    unfolding prefixed without_system
    prefixed-Adds m (none, t) s a = tt
    prefixed-Adds m (some ms, t) s a = rw (s, a) refl

    add_result-Adds :
        (x : Option Message × Turning) (f : Turning → Option (List Message) × Turning)
        → AddsOne x
        → ((t : Turning) → Adds (f t))
        → Adds (add_result e tools gone env x f)
    unfolding add_result
    add_result-Adds (none, t) f a k = tt
    add_result-Adds (some m, t) f a k = prefixed-Adds m (f t) a (k t)

    run_calls-Adds : (tcs : List ToolCall) (t : Turning) → Adds (run_calls e tools gone env tcs t)
    unfolding run_calls without_system
    run_calls-Adds [] t = refl
    run_calls-Adds (tc ∷ tcs) t =
        add_result-Adds (run_call e tools gone env tc t) (run_calls e tools gone env tcs)
          (run_call-AddsOne tc t) (λ t'. run_calls-Adds tcs t')

    -- The conversation of a turn that was completed.
    abbrev pub KeepsPrompt : Ended × Turning → Type 0
    KeepsPrompt (Ended.completed c, t) = Prompted c.messages
    KeepsPrompt (Ended.failed x, t) = Unit {0}
    KeepsPrompt (Ended.left, t) = Unit {0}

    after_calls-KeepsPrompt :
        (c : Conversation) (next : Conversation → Turning → Ended × Turning)
        (x : Option (List Message) × Turning)
        → Prompted c.messages
        → Adds x
        → ((c : Conversation) (t : Turning) → Prompted c.messages → KeepsPrompt (next c t))
        → KeepsPrompt (after_calls e tools gone env c next x)
    unfolding after_calls
    after_calls-KeepsPrompt c next (none, t) p a k = tt
    after_calls-KeepsPrompt c next (some ms, t) p a k = k _ t (Prompted-append c.messages ms p a)

    after_answer-KeepsPrompt :
        (c : Conversation) (w : World) (next : Conversation → Turning → Ended × Turning)
        (x : Read Answer × Out)
        → Prompted c.messages
        → ((a : Answer) (o : Out) → x ≡ (Read.got a, o) → Unprompted (a.message ∷ []))
        → ((c : Conversation) (t : Turning) → Prompted c.messages → KeepsPrompt (next c t))
        → KeepsPrompt (after_answer e tools gone env c w next x)
    unfolding after_answer with_answer
    after_answer-KeepsPrompt c w next (Read.fault y, o) p u k = tt
    after_answer-KeepsPrompt c w next (Read.got a, o) p u k = with_calls a.message.tool_calls refl
      where
        more : Prompted (c.messages ++ a.message ∷ [])
        more = Prompted-append c.messages (a.message ∷ []) p (u a o refl)

        with_calls :
            (tcs : List ToolCall)
            → a.message.tool_calls ≡ tcs
            → KeepsPrompt (after_answer e tools gone env c w next (Read.got a, o))
        with_calls [] h = rw (h, after_answer) more
        with_calls (tc ∷ tcs) h =
            rw (h, after_answer)
              (after_calls-KeepsPrompt (with_answer e tools gone env a c) next _ more
                (run_calls-Adds (tc ∷ tcs) (record { out = o; world = w })) k)

    iterate-KeepsPrompt :
        (n calls : ℕ) (model : String) (c : Conversation) (t : Turning)
        → Prompted c.messages
        → KeepsPrompt (iterate e tools gone env n calls model c t)
    unfolding iterate
    iterate-KeepsPrompt zero calls model c t p = p
    iterate-KeepsPrompt (suc n) calls model c t p =
        after_answer-KeepsPrompt c t.world _ _ p
          (λ a o h. run_one-Unprompted (e.complete calls model c.messages) t.out o a h)
          (λ c' t' p'. iterate-KeepsPrompt n (suc calls) model c' t' p')

    -- Whatever the stored turns replay, the model answers and the tools say: the conversation that a turn
    -- completes has the engine's system prompt first, and no other system message.
    pub iterate-opened :
        (req : Request) (rows : List Turn) (t : Turning)
        → KeepsPrompt (
            iterate e tools gone env e.max_iters 0
              (effective_model e req)
              (opened e tools gone env req rows)
              t)
    iterate-opened req rows t =
        iterate-KeepsPrompt e.max_iters 0 (effective_model e req) (opened e tools gone env req rows)
          t (opening-Prompted req rows)

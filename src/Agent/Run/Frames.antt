-- ===== src/Agent/Run/Frames.antt =====
-- The frames that a turn of relay/internal/ai/openai_engine.go streams.
use mathlib.Core.Path.{subst}
use appunvs.Prelude.{
  ℕ, zero, suc, ◌+◌, ◌≡◌, refl, sym, ap, String, Bool, true, false, Option, none, some, List, [],
  ◌∷◌, ◌++◌, ◌==◌, string_eq, nat_eq, arith, Bool-cases, inl, inr,
}
use appunvs.Store.Tables.{Turn}
use appunvs.Store.Action.{Result, ok, err, Env, World}
use appunvs.Store.Turns
use appunvs.Agent.{Fault, Frame, ToolCall, Message, Request}
use appunvs.Agent.Stream.{
  Answer, Read, Out, Choice, Chunk, Reading, Reply, offer, forward, after_forward, take_choice,
  and_then, take_choices, take_chunks, answer_of, run_one,
}
use appunvs.Agent.Tools.{ToolDeps}
use appunvs.Agent.Run.{
  Engine, Turning, Conversation, Ended, emit_err, iterate, conclude, finish_turn, no_frames,
  after_history, run, run_calls, run_call, prefixed, add_result, taken, report, after_announced,
  after_calls, after_answer,
}

-- What a turn's frames are before its end: texts, and each call of a tool right before its result.
pub data Body : List Frame → Type 0 where
  start : Body []
  text : {fs : List Frame} → Body fs → (s : String) → Body (fs ++ Frame.token s ∷ [])
  call :
      {fs : List Frame}
      → Body fs
      → (id name args result : String) (is_error : Bool)
      → Body
          ((fs ++ Frame.tool_call id name args ∷ []) ++ Frame.tool_result id result is_error ∷ [])

-- How they end: with nothing or a call whose result was not taken, or with the one last frame.
pub data Tail : List Frame → Type 0 where
  nothing : Tail []
  pending_call : (id name args : String) → Tail (Frame.tool_call id name args ∷ [])
  last_finished : (stop : String) (i o : ℕ) → Tail (Frame.finished stop i o ∷ [])
  last_error : (x : Fault) → Tail (Frame.error x ∷ [])

abbrev pub Framed : List Frame → Type 0
Framed fs = (body : List Frame) × (tail : List Frame) × Body body × Tail tail × (fs ≡ body ++ tail)

append_assoc : (xs ys zs : List Frame) → (xs ++ ys) ++ zs ≡ xs ++ (ys ++ zs)
append_assoc [] ys zs = refl
append_assoc (x ∷ xs) ys zs = ap (λ l. x ∷ l) (append_assoc xs ys zs)

append_nil : (xs : List Frame) → xs ++ [] ≡ xs
append_nil [] = refl
append_nil (x ∷ xs) = ap (λ l. x ∷ l) (append_nil xs)

Body-Framed : {fs : List Frame} → Body fs → Framed fs
Body-Framed {fs} b = (fs, [], b, Tail.nothing, sym (append_nil fs))

module _ (gone : ℕ → Bool) where
  forward-Body : (s : String) (o : Out) → Body o.frames → Body (forward gone s o).1.frames
  unfolding forward offer
  forward-Body s o b = elim (Bool-cases (s == "")) [
    | inl h ↦ rw h b
    | inr h ↦ elim (Bool-cases (gone o.offered)) [
      | inl g ↦ rw (h, g) b
      | inr g ↦ rw (h, g) (Body.text b s)
    ]
  ]

  after_forward-Body :
      (c : Choice) (r : Reading) (x : Bool × Out)
      → Body x.1.frames
      → Body (after_forward gone c r x).1.frames
  unfolding after_forward
  after_forward-Body c r (false, o) b = b
  after_forward-Body c r (true, o) b = b

  and_then-Body :
      (x : Read Reading × Out) (f : Reading → Out → Read Reading × Out)
      → Body x.1.frames
      → ((r : Reading) (o : Out) → Body o.frames → Body (f r o).1.frames)
      → Body (and_then gone x f).1.frames
  unfolding and_then
  and_then-Body (Read.fault x, o) f b k = b
  and_then-Body (Read.got r, o) f b k = k r o b

  take_choices-Body :
      (cs : List Choice) (r : Reading) (o : Out)
      → Body o.frames
      → Body (take_choices gone cs r o).1.frames
  unfolding take_choices take_choice
  take_choices-Body [] r o b = b
  take_choices-Body (c ∷ cs) r o b =
      and_then-Body (take_choice gone c r o) (take_choices gone cs)
        (after_forward-Body c r (forward gone c.content o) (forward-Body c.content o b))
        (λ r' o' b'. take_choices-Body cs r' o' b')

  take_chunks-Body :
      (cs : List Chunk) (r : Reading) (o : Out)
      → Body o.frames
      → Body (take_chunks gone cs r o).1.frames
  unfolding take_chunks
  take_chunks-Body [] r o b = b
  take_chunks-Body (c ∷ cs) r o b =
      and_then-Body (take_choices gone c.choices _ o) (take_chunks gone cs)
        (take_choices-Body c.choices _ o b) (λ r' o' b'. take_chunks-Body cs r' o' b')

  answer_of-Body :
      (well : Bool) (x : Read Reading × Out)
      → Body x.1.frames
      → Body (answer_of gone well x).1.frames
  unfolding answer_of
  answer_of-Body well (Read.fault x, o) b = b
  answer_of-Body false (Read.got r, o) b = b
  answer_of-Body true (Read.got r, o) b = b

  run_one-Body : (reply : Reply) (o : Out) → Body o.frames → Body (run_one gone reply o).1.frames
  unfolding run_one
  run_one-Body Reply.refused o b = b
  run_one-Body (Reply.streamed cs well) o b = answer_of-Body well _ (take_chunks-Body cs _ o b)

  -- A last frame that is taken or not.
  offer-Framed :
      (f : Frame) (o : Out) → Body o.frames → Tail (f ∷ []) → Framed (offer gone f o).1.frames
  unfolding offer
  offer-Framed f o b t = elim (Bool-cases (gone o.offered)) [
    | inl g ↦ rw g (Body-Framed b)
    | inr g ↦ rw g (o.frames, f ∷ [], b, t, refl)
  ]

module _ (e : Engine) (tools : ToolDeps) (gone : ℕ → Bool) (env : Env) where
  -- After a call: the frames go on, or the turn was left.
  abbrev Goes : {A : Type 0} → Option A × Turning → Type 0
  Goes (none, t) = Framed t.out.frames
  Goes (some a, t) = Body t.out.frames

  run_call-Goes :
      (tc : ToolCall) (t : Turning) → Body t.out.frames → Goes (run_call e tools gone env tc t)
  unfolding run_call after_announced report taken offer
  run_call-Goes tc t b = elim (Bool-cases (gone t.out.offered)) [
    | inl g ↦ rw g (Body-Framed b)
    | inr g ↦ elim (Bool-cases (gone (t.out.offered + 1))) [
      | inl g' ↦
          rw (g, g')
            (
              t.out.frames,
              Frame.tool_call tc.id tc.name tc.args ∷ [],
              b,
              Tail.pending_call _ _ _,
              refl,
            )
      | inr g' ↦ rw (g, g') (Body.call b tc.id tc.name tc.args _ _)
    ]
  ]

  prefixed-Goes :
      (m : Message) (x : Option (List Message) × Turning)
      → Goes x
      → Goes (prefixed e tools gone env m x)
  unfolding prefixed
  prefixed-Goes m (none, t) g = g
  prefixed-Goes m (some ms, t) g = g

  add_result-Goes :
      (x : Option Message × Turning) (f : Turning → Option (List Message) × Turning)
      → Goes x
      → ((t : Turning) → Body t.out.frames → Goes (f t))
      → Goes (add_result e tools gone env x f)
  unfolding add_result
  add_result-Goes (none, t) f g k = g
  add_result-Goes (some m, t) f g k = prefixed-Goes m (f t) (k t g)

  run_calls-Goes :
      (tcs : List ToolCall) (t : Turning)
      → Body t.out.frames
      → Goes (run_calls e tools gone env tcs t)
  unfolding run_calls
  run_calls-Goes [] t b = b
  run_calls-Goes (tc ∷ tcs) t b =
      add_result-Goes (run_call e tools gone env tc t) (run_calls e tools gone env tcs)
        (run_call-Goes tc t b) (λ t' b'. run_calls-Goes tcs t' b')

  -- After the loop.
  abbrev Stops : Ended × Turning → Type 0
  Stops (Ended.completed c, t) = Body t.out.frames
  Stops (Ended.failed x, t) = Body t.out.frames
  Stops (Ended.left, t) = Framed t.out.frames

  after_calls-Stops :
      (c : Conversation) (next : Conversation → Turning → Ended × Turning)
      (x : Option (List Message) × Turning)
      → Goes x
      → ((c : Conversation) (t : Turning) → Body t.out.frames → Stops (next c t))
      → Stops (after_calls e tools gone env c next x)
  unfolding after_calls
  after_calls-Stops c next (none, t) g k = g
  after_calls-Stops c next (some ms, t) g k = k _ t g

  after_answer-Stops :
      (c : Conversation) (w : World) (next : Conversation → Turning → Ended × Turning)
      (x : Read Answer × Out)
      → Body x.1.frames
      → ((c : Conversation) (t : Turning) → Body t.out.frames → Stops (next c t))
      → Stops (after_answer e tools gone env c w next x)
  unfolding after_answer
  after_answer-Stops c w next (Read.fault x, o) b k = b
  after_answer-Stops c w next (Read.got a, o) b k = with_calls a.message.tool_calls refl
    where
      with_calls :
          (tcs : List ToolCall)
          → a.message.tool_calls ≡ tcs
          → Stops (after_answer e tools gone env c w next (Read.got a, o))
      with_calls [] h = rw (h, after_answer) b
      with_calls (tc ∷ tcs) h =
          rw (h, after_answer)
            (after_calls-Stops _ next _
              (run_calls-Goes (tc ∷ tcs) (record { out = o; world = w }) b) k)

  iterate-Stops :
      (n calls : ℕ) (model : String) (c : Conversation) (t : Turning)
      → Body t.out.frames
      → Stops (iterate e tools gone env n calls model c t)
  unfolding iterate
  iterate-Stops zero calls model c t b = b
  iterate-Stops (suc n) calls model c t b =
      after_answer-Stops c t.world _ _
        (run_one-Body gone (e.complete calls model c.messages) t.out b)
        (λ c' t' b'. iterate-Stops n (suc calls) model c' t' b')

  finish_turn-Framed :
      (turn_id : String) (req : Request) (x : Ended × Turning)
      → Stops x
      → Framed (finish_turn e tools gone env turn_id req x).1.out.frames
  unfolding finish_turn emit_err conclude
  finish_turn-Framed turn_id req (Ended.left, t) s = s
  finish_turn-Framed turn_id req (Ended.failed x, t) s =
      offer-Framed gone _ t.out s (Tail.last_error x)
  finish_turn-Framed turn_id req (Ended.completed c, t) s =
      offer-Framed gone _ t.out s (Tail.last_finished c.finish c.tokens_in c.tokens_out)

  -- Whatever the provider streams, the tools answer and the context does: the frames of a turn are texts
  -- and calls of tools, each right before the result of the same call, and then at most one more frame, a
  -- Finished, an error, or a call whose result was not taken.
  pub run-Framed :
      (turn_id : String) (req : Request) (w : World) (closed : Bool) (t : Turning)
      → run e tools gone env turn_id req w ≡ some (closed, t)
      → Framed t.out.frames
  unfolding run emit_err after_history
  run-Framed turn_id req w closed t h = elim (Bool-cases (req.box_id == "")) [
    | inl b ↦ absurd (let h' = rw b at h in ground (arith, h'))
    | inr b ↦
        let is : after_history e tools gone env turn_id req (Turns.recent req.box_id 20 env w)
            ≡ (closed, t) =
          let h' = rw b at h in ground (arith, h') in
        subst (λ (x : Bool × Turning). Framed x.1.out.frames) is (ended _)
  ]
    where
      ended :
          (x : Result (List Turn) × World)
          → Framed (after_history e tools gone env turn_id req x).1.out.frames
      ended (err y, w') = (offer-Framed gone _ no_frames Body.start (Tail.last_error _))
      ended (ok rows, w') = (finish_turn-Framed turn_id req _ (iterate-Stops _ _ _ _ _ Body.start))

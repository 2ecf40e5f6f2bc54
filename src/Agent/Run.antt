-- ===== src/Agent/Run.antt =====
-- OpenAIEngine.Run of relay/internal/ai/openai_engine.go: the goroutine of a turn. The provider's answers,
-- the JSON of messages and the price of tokens are parameters.
pub mod Laws
pub mod Frames
pub mod History
use appunvs.Prelude.{
  ℕ, zero, suc, ◌+◌, String, Bool, true, false, Option, none, some, List, [], ◌∷◌, ◌++◌, ◌==◌,
  if◌then◌else◌, string_eq, nat_eq,
}
use appunvs.Store.Tables.{Turn}
use appunvs.Store.Action.{Result, ok, err, Env, World, Action, attempt, now_millis, ◌>>=◌}
use appunvs.Store.Turns
use appunvs.Agent.{Fault, history_fault, context_done, Frame, Role, ToolCall, Message, Request}
use appunvs.Agent.Stream.{Usage, Reply, Read, Answer, Out, offer, run_one}
use appunvs.Agent.Tools.{ToolDeps, Outcome, run_tool}

-- The engine's configuration and what it calls.
pub record Engine : Type 0 where
  pub model : String
  pub system : String
  pub max_iters : ℕ
  -- CreateChatCompletionStream, by how often it was called in the turn before
  pub complete : ℕ → (model : String) → List Message → Reply
  pub encode : List Message → String
  pub decode : String → Option (List Message)
  pub cost_cents : String → ℕ → ℕ → ℕ
  pub error_text : Fault → String

-- The turn so far: its frames and the tables.
pub record Turning : Type 0 where
  pub out : Out
  pub world : World

pub record Conversation : Type 0 where
  pub messages : List Message
  pub tokens_in : ℕ
  pub tokens_out : ℕ
  pub finish : String

-- How the loop ends: at an answer or the cap, with an error, or because the context is done while a frame
-- of a tool is offered.
pub data Ended : Type 0 where
  completed : Conversation → Ended
  failed : Fault → Ended
  left : Ended

abbrev pub plain : Role → String → Message
plain role content = record { role = role; content = content; tool_calls = []; tool_call_id = "" }

abbrev pub is_system : Message → Bool
is_system m = elim m.role [ Role.system ↦ true | _ ↦ false ]

unfoldable pub without_system : List Message → List Message
without_system [] = []
without_system (m ∷ ms) = let rest = without_system ms in if is_system m then rest else m ∷ rest

abbrev pub no_frames : Out
no_frames = record { frames = []; offered = 0 }

module _ (e : Engine) where
  -- The stored messages of a turn; a row that does not decode is skipped.
  unfoldable pub replay : Option (List Message) → List Message
  replay none = []
  replay (some ms) = without_system ms

  -- The rows come newest first, the messages are wanted oldest first.
  unfoldable pub history_of : List Turn → List Message
  history_of [] = []
  history_of (r ∷ rs) = history_of rs ++ replay (e.decode r.messages)

  -- The messages that a turn begins with.
  unfoldable pub opening : Request → List Turn → List Message
  opening req rows = plain Role.system e.system ∷ (history_of rows ++ plain Role.user req.text ∷ [])

  unfoldable pub effective_model : Request → String
  effective_model req = if req.model == "" then e.model else req.model

  module _ (tools : ToolDeps) (gone : ℕ → Bool) (env : Env) where
    abbrev pub message_of : ToolCall → String → Message
    message_of tc result = record {
      role = Role.tool;
      content = result;
      tool_calls = [];
      tool_call_id = tc.id;
    }

    -- RunTool has no error of its own.
    abbrev pub outcome_of : Result Outcome → Outcome
    outcome_of (ok o) = o
    outcome_of (err x) = ("", true)

    unfoldable pub taken : ToolCall → String → World → Bool × Out → Option Message × Turning
    taken tc text w (false, o) = (none, record { out = o; world = w })
    taken tc text w (true, o) = (some (message_of tc text), record { out = o; world = w })

    -- The result of a tool is offered, and becomes a message.
    unfoldable pub report : ToolCall → Result Outcome × World → Out → Option Message × Turning
    report tc (r, w) o =
        let (text, is_error) = outcome_of r in
        taken tc text w (offer gone (Frame.tool_result tc.id text is_error) o)

    unfoldable pub after_announced : ToolCall → World → Bool × Out → Option Message × Turning
    after_announced tc w (false, o) = (none, record { out = o; world = w })
    after_announced tc w (true, o) = report tc (run_tool tools tc.name tc.args env w) o

    unfoldable pub run_call : ToolCall → Turning → Option Message × Turning
    run_call tc t =
        after_announced tc t.world (offer gone (Frame.tool_call tc.id tc.name tc.args) t.out)

    unfoldable pub prefixed :
        Message → Option (List Message) × Turning → Option (List Message) × Turning
    prefixed m (none, t) = (none, t)
    prefixed m (some ms, t) = (some (m ∷ ms), t)

    unfoldable pub add_result :
        Option Message × Turning
        → (Turning → Option (List Message) × Turning)
        → Option (List Message) × Turning
    add_result (none, t) f = (none, t)
    add_result (some m, t) f = prefixed m (f t)

    unfoldable pub run_calls : List ToolCall → Turning → Option (List Message) × Turning
    run_calls [] t = (some [], t)
    run_calls (tc ∷ tcs) t = add_result (run_call tc t) (run_calls tcs)

    unfoldable pub with_answer : Answer → Conversation → Conversation
    with_answer a c = record {
      messages = c.messages ++ a.message ∷ [];
      tokens_in = c.tokens_in + a.usage.prompt_tokens;
      tokens_out = c.tokens_out + a.usage.completion_tokens;
      finish = a.finish;
    }

    unfoldable pub after_calls :
        Conversation
        → (Conversation → Turning → Ended × Turning)
        → Option (List Message) × Turning
        → Ended × Turning
    after_calls c next (none, t) = (Ended.left, t)
    after_calls c next (some ms, t) = next (record c { messages = c.messages ++ ms }) t

    unfoldable pub after_answer :
        Conversation
        → World
        → (Conversation → Turning → Ended × Turning)
        → Read Answer × Out
        → Ended × Turning
    after_answer c w next (Read.fault x, o) = (Ended.failed x, record { out = o; world = w })
    after_answer c w next (Read.got a, o) = elim a.message.tool_calls [
      | [] ↦ (Ended.completed (with_answer a c), record { out = o; world = w })
      | tc ∷ tcs ↦
          after_calls (with_answer a c) next (run_calls (tc ∷ tcs) (record { out = o; world = w }))
    ]

    -- The loop, with the iterations that are left and the calls that were made.
    unfoldable pub iterate : ℕ → ℕ → String → Conversation → Turning → Ended × Turning
    iterate zero calls model c t = (Ended.completed c, t)
    iterate (suc n) calls model c t =
        after_answer c t.world (iterate n (suc calls) model)
          (run_one gone (e.complete calls model c.messages) t.out)

    -- The row of a turn that was completed; the id of the turn is given.
    unfoldable pub row_of : String → Request → Conversation → ℕ → Turn
    row_of turn_id req c now = record {
      id = turn_id;
      box_id = req.box_id;
      user_text = req.text;
      messages = e.encode c.messages;
      model = effective_model req;
      tokens_in = c.tokens_in;
      tokens_out = c.tokens_out;
      cost_cents = e.cost_cents (effective_model req) c.tokens_in c.tokens_out;
      stop_reason = c.finish;
      created_at = now;
    }

    -- The row that emitErr writes names no box.
    unfoldable pub row_of_fault : String → Fault → ℕ → Turn
    row_of_fault turn_id x now = record {
      id = turn_id;
      box_id = "";
      user_text = "";
      messages = "";
      model = "";
      tokens_in = 0;
      tokens_out = 0;
      cost_cents = 0;
      stop_reason = e.error_text x;
      created_at = now;
    }

    -- A row that cannot be stored is logged or dropped.
    unfoldable pub store_row : (ℕ → Turn) → World → World
    store_row row w = ((now_millis >>= λ now. attempt (Turns.insert (row now))) env w).1

    -- emitErr: the frame is dropped if the channel has no room.
    unfoldable pub emit_err : String → Fault → Turning → Turning
    emit_err turn_id x t = record {
      out = (offer gone (Frame.error x) t.out).1;
      world = store_row (row_of_fault turn_id x) t.world;
    }

    -- How the goroutine is left: the channel closed, or its last send never taken.
    unfoldable pub conclude : Bool × Out → World → Bool × Turning
    conclude (taken, o) w = (taken, record { out = o; world = w })

    unfoldable pub finish_turn : String → Request → Ended × Turning → Bool × Turning
    finish_turn turn_id req (Ended.left, t) = (true, t)
    finish_turn turn_id req (Ended.failed x, t) = (true, emit_err turn_id x t)
    finish_turn turn_id req (Ended.completed c, t) =
        conclude (offer gone (Frame.finished c.finish c.tokens_in c.tokens_out) t.out)
          (store_row (row_of turn_id req c) t.world)

    abbrev pub opened : Request → List Turn → Conversation
    opened req rows = record {
      messages = opening req rows;
      tokens_in = 0;
      tokens_out = 0;
      finish = "";
    }

    unfoldable pub after_history : String → Request → Result (List Turn) × World → Bool × Turning
    after_history turn_id req (err x, w) =
        (true, emit_err turn_id history_fault (record { out = no_frames; world = w }))
    after_history turn_id req (ok rows, w) = finish_turn turn_id req (
        iterate e.max_iters 0 (effective_model req) (opened req rows)
          (record { out = no_frames; world = w }))

    -- Run; a request without a box is refused before any turn begins.
    unfoldable pub run : String → Request → World → Option (Bool × Turning)
    run turn_id req w =
        if req.box_id == ""
        then none
        else some (after_history turn_id req (Turns.recent req.box_id 20 env w))

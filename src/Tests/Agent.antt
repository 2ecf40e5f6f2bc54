-- ===== src/Tests/Agent.antt =====
-- Runs of relay/internal/ai.
use appunvs.Prelude.{
  ℕ, zero, suc, ◌≡◌, refl, String, Bool, true, false, Option, none, some, List, [], ◌∷◌, find,
  select, order_by, take, String-discrete, ◌==◌, nat_eq,
}
use appunvs.Store.Action.{pure, fail, other, query}
use appunvs.Store.Turns
use appunvs.Store.Boxes.{has_id}
use appunvs.Agent.{stream_fault, Request}
use appunvs.Agent.Stream
use appunvs.Agent.Stream.{
  Usage, Delta, Choice, Chunk, Reply, lookup, index_of, take_deltas, assemble,
}
use appunvs.Agent.Stream.Laws.{said, lookup-take_deltas, lost_call}
use appunvs.Agent.Tools
use appunvs.Agent.Tools.{Codec, ToolDeps}
use appunvs.Agent.Run
use appunvs.Agent.Run.{Engine, Turning, no_frames, run, emit_err}
use appunvs.Agent.Run.Laws.{emit_err_unrecorded}
use appunvs.Agent.Run.History.{KeepsPrompt, iterate-opened}
use appunvs.Agent.Run.Frames.{Framed, run-Framed}
use appunvs.Tests.Data.{env, world}

abbrev piece : ℕ → String → String → String → Delta
piece i id name args = record { index = some i; id = id; name = name; args = args }

abbrev pieces : List Delta
pieces = piece 0 "c1" "fs_read" "{" ∷ piece 1 "c2" "list_files" "" ∷ piece 0 "" "" "}" ∷ []

lookup-take_deltas_example :
    lookup 0 (take_deltas pieces []) ≡ said (select (λ d. index_of d == 0) pieces)
lookup-take_deltas_example = lookup-take_deltas 0 pieces

lost_call_example :
    assemble (take_deltas (piece 1 "c1" "fs_read" "{" ∷ piece 1 "" "" "}" ∷ []) []) ≡ []
lost_call_example =
    lost_call (piece 1 "c1" "fs_read" "{") (piece 1 "" "" "}" ∷ []) 0 refl (refl, tt)

abbrev tools : ToolDeps
tools = record {
  codec = record {
    read_args = λ args. none;
    write_args = λ args. none;
    entry_point = λ args. "";
    list_json = λ files. "[]";
    bundle_json = λ b. "{}";
    error_text = λ x. "failed";
    invalid_input = λ args. "invalid input";
    short_hash = λ h. h;
  };
  open_repo = pure tt;
  read_file = λ path. pure none;
  write_file = λ path content message. pure "abc";
  list_files = pure [];
  publish = λ entry. fail other;
}

abbrev answers : ℕ → Reply
answers zero =
    Reply.streamed
      (record {
        usage = none;
        choices =
            record {
              finish_reason = "tool_calls";
              content = "hi";
              tool_calls = piece 0 "c1" "list_files" "{}" ∷ [];
            }
            ∷ [];
      }
        ∷ [])
      true
answers (suc n) =
    Reply.streamed
      (record {
        usage = some (record { prompt_tokens = 12; completion_tokens = 5 });
        choices = record { finish_reason = "stop"; content = "done"; tool_calls = [] } ∷ [];
      }
        ∷ [])
      true

abbrev engine : Engine
engine = record {
  model = "deepseek-v4-pro";
  system = "You are a coding agent.";
  max_iters = 10;
  complete = λ calls model messages. answers calls;
  encode = λ ms. "[]";
  decode = λ s. none;
  cost_cents = λ model i o. 1;
  error_text = λ x. "error:";
}

abbrev always : ℕ → Bool
always n = false

abbrev asked : Request
asked = record { box_id = "box_1"; text = "list"; user_id = "ann"; model = "" }

abbrev ended : Option (Bool × Turning)
ended = run engine tools always env "t1" asked world

abbrev turning_of : Option (Bool × Turning) → Turning
turning_of none = record { out = no_frames; world = world }
turning_of (some (b, t)) = t

ended_run : ended ≡ some (true, turning_of ended)
unfolding run Run.after_history Run.iterate Run.after_answer Run.after_calls Run.with_answer
    Run.run_calls Run.add_result Run.prefixed Run.run_call Run.after_announced Run.report Run.taken
    Run.finish_turn Run.conclude Run.opening Run.history_of Run.effective_model Stream.run_one
    Stream.answer_of Stream.take_chunks Stream.take_choices Stream.take_choice Stream.and_then
    Stream.after_forward Stream.forward Stream.offer assemble Stream.assemble_from lookup
    take_deltas Stream.update_at Stream.extend Tools.run_tool Tools.list_files Turns.recent query
    select order_by take find String-discrete
ended_run = refl

run-Framed_example : Framed (turning_of ended).out.frames
run-Framed_example =
    run-Framed engine tools always env "t1" asked world true (turning_of ended) ended_run

abbrev at_start : Turning
at_start = record { out = no_frames; world = world }

emit_err_unrecorded_example :
    (emit_err engine tools always env "t1" stream_fault at_start).world.ai_turns ≡ world.ai_turns
unfolding find String-discrete
emit_err_unrecorded_example =
    emit_err_unrecorded engine tools always env "t1" stream_fault at_start no_box
  where
    no_box : find (has_id "") world.app_boxes ≡ none
    no_box = refl

iterate-opened_example : KeepsPrompt engine tools always env (
    Run.iterate engine tools always env 10 0
      (Run.effective_model engine asked)
      (Run.opened engine tools always env asked [])
      at_start)
iterate-opened_example = iterate-opened engine tools always env asked [] at_start

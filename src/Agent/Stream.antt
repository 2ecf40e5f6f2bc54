-- ===== src/Agent/Stream.antt =====
-- runOne of relay/internal/ai/openai_engine.go: one streamed completion. Whether the context is done
-- before the n-th frame of the turn is taken is a function of n.
pub mod Laws
use Prim.Native.String.{◌++◌ as append}
use appunvs.Prelude.{
  ℕ, zero, suc, ◌+◌, String, Bool, true, false, Option, none, some, List, [], ◌∷◌, ◌++◌, ◌==◌,
  if◌then◌else◌, string_eq, nat_eq, length,
}
use appunvs.Agent.{Fault, stream_fault, context_done, Frame, Role, ToolCall, Message}

-- openai.Usage
pub record Usage : Type 0 where
  pub prompt_tokens : ℕ
  pub completion_tokens : ℕ

-- A delta of a tool call; an index is not negative.
pub record Delta : Type 0 where
  pub index : Option ℕ
  pub id : String
  pub name : String
  pub args : String

pub record Choice : Type 0 where
  pub finish_reason : String
  pub content : String
  pub tool_calls : List Delta

pub record Chunk : Type 0 where
  pub usage : Option Usage
  pub choices : List Choice

-- What Recv answers with, to the end: io.EOF or an error. No stream at all is an error, too.
pub data Reply : Type 0 where
  refused : Reply
  streamed : List Chunk → (ends_well : Bool) → Reply

pub record Pending : Type 0 where
  pub id : String
  pub name : String
  pub args : String

-- The variables of the loop; byIdx is an association list with each index once.
pub record Reading : Type 0 where
  pub content : String
  pub finish : String
  pub usage : Usage
  pub by_index : List (ℕ × Pending)

abbrev pub new_reading : Reading
new_reading = record {
  content = "";
  finish = "";
  usage = record { prompt_tokens = 0; completion_tokens = 0 };
  by_index = [];
}

-- The frames that were taken, and how many the engine has offered.
pub record Out : Type 0 where
  pub frames : List Frame
  pub offered : ℕ

unfoldable pub lookup : ℕ → List (ℕ × Pending) → Option Pending
lookup i [] = none
lookup i ((j, p) ∷ m) = let rest = lookup i m in if j == i then some p else rest

abbrev pub no_call : Pending
no_call = record { id = ""; name = ""; args = "" }

-- What a delta makes of the call at its index.
unfoldable pub extend : Delta → Pending → Pending
extend d p = record {
  id = if d.id == "" then p.id else d.id;
  name = if d.name == "" then p.name else d.name;
  args = if d.args == "" then p.args else append p.args d.args;
}

unfoldable pub update_at : ℕ → Delta → List (ℕ × Pending) → List (ℕ × Pending)
update_at i d [] = (i, extend d no_call) ∷ []
update_at i d ((j, p) ∷ m) =
    let rest = update_at i d m in if j == i then (j, extend d p) ∷ m else (j, p) ∷ rest

abbrev pub index_of : Delta → ℕ
index_of d = elim d.index [ none ↦ 0 | some i ↦ i ]

unfoldable pub take_deltas : List Delta → List (ℕ × Pending) → List (ℕ × Pending)
take_deltas [] m = m
take_deltas (d ∷ ds) m = take_deltas ds (update_at (index_of d) d m)

-- The tool calls in index order, for as many indices as there are.
unfoldable pub assemble_from : ℕ → ℕ → List (ℕ × Pending) → List ToolCall
assemble_from zero i m = []
assemble_from (suc n) i m =
    let rest = assemble_from n (suc i) m in
    elim (lookup i m) [
      | none ↦ rest
      | some p ↦ record { id = p.id; name = p.name; args = p.args } ∷ rest
    ]

unfoldable pub assemble : List (ℕ × Pending) → List ToolCall
assemble m = assemble_from (length m) 0 m

-- What runOne answers with.
pub record Answer : Type 0 where
  pub message : Message
  pub usage : Usage
  pub finish : String

pub data Read (A : Type 0) : Type 0 where
  got : A → Read A
  fault : Fault → Read A

module _ (gone : ℕ → Bool) where
  -- A select between the channel and the context.
  unfoldable pub offer : Frame → Out → Bool × Out
  offer f o =
      if gone o.offered
      then (false, record o { offered = o.offered + 1 })
      else (true, record { frames = o.frames ++ f ∷ []; offered = o.offered + 1 })

  unfoldable pub forward : String → Out → Bool × Out
  forward text o = if text == "" then (true, o) else offer (Frame.token text) o

  unfoldable pub after_forward : Choice → Reading → Bool × Out → Read Reading × Out
  after_forward c r (false, o) = (Read.fault context_done, o)
  after_forward c r (true, o) = (
    Read.got (record {
      content = append r.content c.content;
      finish = if c.finish_reason == "" then r.finish else c.finish_reason;
      usage = r.usage;
      by_index = take_deltas c.tool_calls r.by_index;
    }),
    o,
  )

  unfoldable pub take_choice : Choice → Reading → Out → Read Reading × Out
  take_choice c r o = after_forward c r (forward c.content o)

  unfoldable pub and_then :
      Read Reading × Out → (Reading → Out → Read Reading × Out) → Read Reading × Out
  and_then (Read.fault e, o) f = (Read.fault e, o)
  and_then (Read.got r, o) f = f r o

  unfoldable pub take_choices : List Choice → Reading → Out → Read Reading × Out
  take_choices [] r o = (Read.got r, o)
  take_choices (c ∷ cs) r o = and_then (take_choice c r o) (take_choices cs)

  abbrev pub with_usage : Option Usage → Reading → Reading
  with_usage none r = r
  with_usage (some u) r = record r { usage = u }

  unfoldable pub take_chunks : List Chunk → Reading → Out → Read Reading × Out
  take_chunks [] r o = (Read.got r, o)
  take_chunks (c ∷ cs) r o =
      and_then (take_choices c.choices (with_usage c.usage r) o) (take_chunks cs)

  unfoldable pub answer_of : Bool → Read Reading × Out → Read Answer × Out
  answer_of ends_well (Read.fault e, o) = (Read.fault e, o)
  answer_of false (Read.got r, o) = (Read.fault stream_fault, o)
  answer_of true (Read.got r, o) = (
    Read.got (record {
      message = record {
        role = Role.assistant;
        content = r.content;
        tool_calls = assemble r.by_index;
        tool_call_id = "";
      };
      usage = r.usage;
      finish = r.finish;
    }),
    o,
  )

  -- runOne, from what the provider answers.
  unfoldable pub run_one : Reply → Out → Read Answer × Out
  run_one Reply.refused o = (Read.fault stream_fault, o)
  run_one (Reply.streamed cs ends_well) o = answer_of ends_well (take_chunks cs new_reading o)

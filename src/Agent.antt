-- ===== src/Agent.antt =====
-- relay/internal/ai: the frames of a turn, the tools, and the engine of openai_engine.go.
pub mod Stream
pub mod Tools
pub mod Run
use appunvs.Prelude.{ℕ, String, Bool, Option, List}

-- The errors that end a turn: of the database, of the model's stream, and of the context.
pub data Fault : Type 0 where
  history_fault stream_fault context_done : Fault

-- Frame, without the id of the turn, which all frames of a run share.
pub data Frame : Type 0 where
  token : (text : String) → Frame
  tool_call : (call_id name args : String) → Frame
  tool_result : (call_id result : String) (is_error : Bool) → Frame
  finished : (stop_reason : String) (tokens_in tokens_out : ℕ) → Frame
  error : Fault → Frame

pub data Role : Type 0 where
  system user assistant tool : Role

-- openai.ToolCall of the kind function.
pub record ToolCall : Type 0 where
  pub id : String
  pub name : String
  pub args : String

-- openai.ChatCompletionMessage, as far as it is used.
pub record Message : Type 0 where
  pub role : Role
  pub content : String
  pub tool_calls : List ToolCall
  pub tool_call_id : String

-- ai.Request
pub record Request : Type 0 where
  pub box_id : String
  pub text : String
  pub user_id : String
  pub model : String

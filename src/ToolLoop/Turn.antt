-- ===== src/ToolLoop/Turn.antt =====
-- What one turn of `tool_loop_stream` and of `tool_loop_nonstream` (scripts/files/router-app.py)
-- adds to the conversation: the assistant's tool calls and one result for each.
use local_gpu_cluster.Prelude.{ℕ, String, Option, List, [], ◌∷◌, ◌++◌}
use local_gpu_cluster.Prelude.Json.{Value}
use local_gpu_cluster.ToolLoop.Accumulator.{Call, ToolCall, ensure_tool_call_ids}
use local_gpu_cluster.ToolLoop.Dispatch.{Output}

pub data Message : Type 0 where
  given : (message : Value) → Message
  assistant : (content : Option String) (tool_calls : List ToolCall) → Message
  tool : (tool_call_id : String) (content : Output) → Message

pub record Talk : Type 0 where
  pub messages : List Message
  -- How many identifiers have been made.
  pub made : ℕ

module _ (fresh : ℕ → String) (dispatch : Option String → String → Output) where
  unfoldable pub results : List ToolCall → List Message
  results [] = []
  results (t ∷ ts) = tool t.id (dispatch t.name t.arguments) ∷ results ts

  abbrev pub answered : Option String → Talk → List ToolCall × ℕ → Talk
  answered content talk (calls, made) = record {
    messages = talk.messages ++ (assistant content calls ∷ results calls);
    made = made;
  }

  -- The identifiers, the assistant's message and the results of its calls.
  unfoldable pub take_turn : Option String → List Call → Talk → Talk
  take_turn content calls talk = answered content talk (ensure_tool_call_ids fresh talk.made calls)

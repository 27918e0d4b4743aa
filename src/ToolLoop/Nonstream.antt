-- ===== src/ToolLoop/Nonstream.antt =====
-- `tool_loop_nonstream` of scripts/files/router-app.py. Of a response its choices are kept, and
-- a call that a message holds has the empty text for arguments that are missing or null. An
-- exception that the loop does not catch is a value.
use Prim.Native.String.{◌++◌ as ◌+s◌}
use local_gpu_cluster.Prelude.{
  ℕ, zero, suc, String, Bool, true, false, ◌&&◌, Option, none, some, List, [], ◌∷◌, str_eq,
  if◌then◌else◌,
}
use local_gpu_cluster.ToolLoop.Accumulator.{Call, ToolCall, ensure_tool_call_ids}
use local_gpu_cluster.ToolLoop.Dispatch.{Output}
use local_gpu_cluster.ToolLoop.Turn.{Message, Talk, take_turn}

pub record Spoken : Type 0 where
  pub content : Option String
  pub tool_calls : List Call

pub record Choice : Type 0 where
  pub message : Option Spoken
  pub finish_reason : Option String

-- The upstream's answer to one request: an exception of the client that the loop catches, a body
-- that is no JSON, anything on which the loop raises what it does not catch, such as another exception
-- of the client or a JSON value that is no object, or the choices.
pub data Posted : Type 0 where
  no_connection no_json unusable : Posted
  answered : (choices : List Choice) → Posted

-- What the client gets: an error envelope, a completion, or an exception in their place.
pub data Final : Type 0 where
  service_degraded upstream_invalid_json max_tool_iterations_exceeded : Final
  completion : (choices : List Choice) → Final
  raised : Final

abbrev pub empty_spoken : Spoken
empty_spoken = record { content = none; tool_calls = [] }

-- choice.get("message") or {}
abbrev pub said : Option Spoken → Spoken
said none = empty_spoken
said (some m) = m

abbrev pub is_tool_calls : Option String → Bool
is_tool_calls none = false
is_tool_calls (some reason) = str_eq reason "tool_calls"

abbrev pub any_calls : List Call → Bool
any_calls [] = false
any_calls (c ∷ cs) = true

-- finish == "tool_calls" and msg.get("tool_calls")
unfoldable pub asks_for_tools : Choice → Bool
asks_for_tools c = is_tool_calls c.finish_reason && any_calls (said c.message).tool_calls

abbrev pub with_ids : List ToolCall → List Call
with_ids [] = []
with_ids (t ∷ ts) = record { id = some t.id; name = t.name; arguments = t.arguments } ∷ with_ids ts

abbrev pub annotation : String
annotation = "\n\n[router: max_tool_iterations reached]"

-- existing = content or ""
abbrev pub or_empty : Option String → String
or_empty none = ""
or_empty (some s) = s

unfoldable pub annotate : Choice → Choice
annotate c = record {
  message = some (record (said c.message) {
    content = some (or_empty (said c.message).content +s annotation);
  });
  finish_reason = some "stop";
}

-- After the last iteration.
abbrev pub exhausted : List Choice → Final
exhausted [] = max_tool_iterations_exceeded
exhausted (c ∷ cs) = completion (annotate c ∷ cs)

module _ (clean : String → String) where
  -- if msg.get("content"): ...
  abbrev pub cleaned_content : Option String → Option String
  cleaned_content none = none
  cleaned_content (some s) = if str_eq s "" then some s else some (clean s)

  abbrev pub cleaned_message : Option Spoken → Option Spoken
  cleaned_message none = none
  cleaned_message (some m) = some (record m { content = cleaned_content m.content })

  unfoldable pub cleaned : Choice → Choice
  cleaned c = record c { message = cleaned_message c.message }

  module _ (fresh : ℕ → String) (dispatch : Option String → String → Output)
      (serve : ℕ → List Message → Posted) (late : ℕ → Bool) where
    -- The response as the turn leaves it: its calls have identifiers.
    abbrev pub identified : ℕ → Choice → Choice
    identified made c = record c {
      message = some (record (said c.message) {
        tool_calls = with_ids (ensure_tool_call_ids fresh made (said c.message).tool_calls).0;
      });
    }

    abbrev pub turn_of : Choice → Talk → Talk
    turn_of c talk =
        take_turn fresh dispatch (said c.message).content (said c.message).tool_calls talk

    abbrev pub on_choices :
        (Talk → List Choice → List (List Message) × Final)
        → Talk
        → List Choice
        → List (List Message) × Final
    on_choices rest talk [] = ([], completion [])
    on_choices rest talk (c ∷ cs) =
        let next = rest (turn_of c talk) (identified talk.made c ∷ cs) in
        if asks_for_tools c then next else ([], completion (cleaned c ∷ cs))

    abbrev pub on_posted :
        (Talk → List Choice → List (List Message) × Final)
        → Talk
        → Posted
        → List (List Message) × Final
    on_posted rest talk no_connection = ([], service_degraded)
    on_posted rest talk no_json = ([], upstream_invalid_json)
    on_posted rest talk unusable = ([], raised)
    on_posted rest talk (answered cs) = on_choices rest talk cs

    abbrev pub asking : Talk → List (List Message) × Final → List (List Message) × Final
    asking talk (asked, final) = (talk.messages ∷ asked, final)

    -- With this many iterations left, and the last response's choices.
    unfoldable pub iterate : ℕ → Talk → List Choice → List (List Message) × Final
    iterate zero talk last = ([], exhausted last)
    iterate (suc left) talk last =
        let turn = asking talk (on_posted (iterate left) talk (serve left talk.messages)) in
        if late left then ([], service_degraded) else turn

    -- The messages are `none` where the body has no list of them.
    unfoldable pub tool_loop_nonstream : ℕ → Option (List Message) → List (List Message) × Final
    tool_loop_nonstream max_tool_iterations none = ([], raised)
    tool_loop_nonstream max_tool_iterations (some messages) =
        iterate max_tool_iterations (record { messages = messages; made = 0 }) []

-- ===== src/ToolLoop/Stream.antt =====
-- `tool_loop_stream` of scripts/files/router-app.py. The upstream, the clock, the regular
-- expressions and the tools are arguments; of a client's chunk its
-- content is kept. An exception that the loop does not catch is a value: it cuts the response off.
use Prim.Native.String.{◌++◌ as ◌+s◌}
use local_gpu_cluster.Prelude.{
  ℕ, zero, suc, String, Bool, true, false, ◌&&◌, Option, none, some, List, [], ◌∷◌, ◌++◌, leb,
  str_eq, if◌then◌else◌,
}
use local_gpu_cluster.Prelude.Text.{Codes}
use local_gpu_cluster.ToolLoop.Accumulator.{
  Fragment, Calls, truthy, replaced, feed, has_any, finalize,
}
use local_gpu_cluster.ToolLoop.Events.{
  Line, skipped, done_mark, payload, read_line, split_lines, read_events,
}
use local_gpu_cluster.ToolLoop.Dispatch.{Output}
use local_gpu_cluster.ToolLoop.Turn.{Message, Talk, take_turn}

-- choices[0] of an upstream chunk.
pub record Choice : Type 0 where
  pub tool_calls : List Fragment
  pub content : Option String
  pub finish_reason : Option String

-- What json.loads makes of a payload: no JSON, no choices, a first choice, or a value on which the
-- loop raises, such as one that is no object or a content that is no text.
pub data Chunk : Type 0 where
  not_json no_choices malformed : Chunk
  choice : (first : Choice) → Chunk

-- What the client gets. `torn` is no frame but the end of a response that an exception cuts off.
pub data Frame : Type 0 where
  ping : Frame
  content : (text : String) → Frame
  finish : (reason : String) → Frame
  max_iterations_reached : Frame
  degraded : Frame
  done : Frame
  torn : Frame

-- The variables of one iteration, with the frames that it has sent, and whether a chunk has made it
-- raise: nothing is read any more then.
pub record Heard : Type 0 where
  pub calls : Calls
  pub assistant_content : String
  pub finish_reason : Option String
  pub frames : List Frame
  pub raised : Bool

abbrev pub silence : Heard
silence = record {
  calls = [];
  assistant_content = "";
  finish_reason = none;
  frames = [];
  raised = false;
}

-- How the reading of a stream ends: at its end, with an exception that the loop catches, or with
-- another one.
pub data Close : Type 0 where
  complete breaks raises : Close

-- The upstream's answer to one request. There may be none, with an exception that the loop catches
-- or with another one.
pub data Reply : Type 0 where
  unreachable unsent : Reply
  replied : (status_code : ℕ) (stream : List Codes) (close : Close) → Reply

-- What of a delta's content reaches the client, with the substitutions of the two regular
-- expressions as arguments. The loops take this function as `clean`.
abbrev pub strip_out :
    (strip_thinking strip_context_markers : Bool) (think_sub marker_sub : String → String)
    → String
    → String
strip_out strip_thinking strip_context_markers think_sub marker_sub s =
    let out = if strip_thinking then think_sub s else s in
    if strip_context_markers then marker_sub out else out

-- finish_reason or "stop"
abbrev pub or_stop : Option String → Option String
or_stop none = some "stop"
or_stop (some reason) = some reason

-- `assistant_content or None`
abbrev pub or_null : String → Option String
or_null s = if str_eq s "" then none else some s

-- finish_reason == "tool_calls" and accumulator.has_any()
abbrev pub wants_tools : Option String → Calls → Bool
wants_tools none calls = false
wants_tools (some reason) calls = str_eq reason "tool_calls" && has_any calls

-- The final response.
abbrev pub closing : Option String → List Frame
closing none = done ∷ []
closing (some reason) = finish reason ∷ done ∷ []

abbrev pub went_on :
    List Frame → List (List Message) × List Frame → List (List Message) × List Frame
went_on frames (asked, sent) = (asked, frames ++ sent)

abbrev pub broken : Heard → List (List Message) × List Frame
broken h = ([], h.frames ++ degraded ∷ done ∷ [])

-- An exception that is not caught, after these frames.
abbrev pub cut_off : Heard → List (List Message) × List Frame
cut_off h = ([], h.frames ++ torn ∷ [])

abbrev pub asking : Talk → List (List Message) × List Frame → List (List Message) × List Frame
asking talk (asked, sent) = (talk.messages ∷ asked, sent)

module _ (json_loads : Codes → Chunk) (clean : String → String) where
  abbrev pub hear_content : Option String → Heard → Heard
  hear_content none h = h
  hear_content (some s) h = record h {
    assistant_content = h.assistant_content +s s;
    frames = h.frames ++ content (clean s) ∷ [];
  }

  unfoldable pub hear_choice : Choice → Heard → Heard
  hear_choice c h = hear_content c.content (record h {
    calls = feed c.tool_calls h.calls;
    finish_reason = replaced h.finish_reason (truthy c.finish_reason);
  })

  abbrev pub hear_chunk : Chunk → Heard → Heard
  hear_chunk not_json h = h
  hear_chunk no_choices h = h
  hear_chunk malformed h = record h { raised = true }
  hear_chunk (choice c) h = hear_choice c h

  abbrev pub hear_line : Line → Heard → Heard
  hear_line skipped h = h
  hear_line done_mark h = record h { finish_reason = or_stop h.finish_reason }
  hear_line (payload json) h = hear_chunk (json_loads json) h

  unfoldable pub hear_lines : List Codes → Heard → Heard
  hear_lines [] h = h
  hear_lines (l ∷ ls) h = hear_lines ls (if h.raised then h else hear_line (read_line l) h)

  unfoldable pub hear_events : List Codes → Heard → Heard
  hear_events [] h = h
  hear_events (e ∷ es) h = hear_events es (hear_lines (split_lines e) h)

  -- The body of the stream that was read.
  unfoldable pub hear : List Codes → Heard
  hear stream = hear_events (read_events [] stream).0 silence

  module _ (fresh : ℕ → String) (dispatch : Option String → String → Output)
      (serve : ℕ → List Message → Reply) (late : ℕ → Bool) where
    -- What follows a stream that was read: the tools and the next turn, by `rest`, or the end.
    abbrev pub conclude :
        (Talk → List (List Message) × List Frame) → Talk → Heard → List (List Message) × List Frame
    conclude rest talk h =
        let next =
          went_on h.frames (
            rest
              (take_turn fresh dispatch (or_null h.assistant_content) (finalize h.calls) talk)) in
        if wants_tools h.finish_reason h.calls
        then next
        else ([], h.frames ++ closing h.finish_reason)

    abbrev pub after_stream :
        (Talk → List (List Message) × List Frame)
        → Talk
        → Heard
        → Close
        → List (List Message) × List Frame
    after_stream rest talk h complete = conclude rest talk h
    after_stream rest talk h breaks = broken h
    after_stream rest talk h raises = cut_off h

    abbrev pub after_reading :
        (Talk → List (List Message) × List Frame)
        → Talk
        → Heard
        → Close
        → List (List Message) × List Frame
    after_reading rest talk h close =
        let closed = after_stream rest talk h close in if h.raised then cut_off h else closed

    abbrev pub on_reply :
        (Talk → List (List Message) × List Frame) → Talk → Reply → List (List Message) × List Frame
    on_reply rest talk unreachable = ([], degraded ∷ done ∷ [])
    on_reply rest talk unsent = ([], torn ∷ [])
    on_reply rest talk (replied status stream close) =
        let read = after_reading rest talk (hear stream) close in
        if leb 500 status then ([], degraded ∷ done ∷ []) else read

    -- With this many iterations left: the requests made, in order, and the frames sent.
    unfoldable pub iterate : ℕ → Talk → List (List Message) × List Frame
    iterate zero talk = ([], max_iterations_reached ∷ done ∷ [])
    iterate (suc left) talk =
        let turn = asking talk (on_reply (iterate left) talk (serve left talk.messages)) in
        if late left then ([], degraded ∷ done ∷ []) else turn

    -- The messages are `none` where the body has no list of them.
    unfoldable pub tool_loop_stream : ℕ → Option (List Message) → List (List Message) × List Frame
    tool_loop_stream max_tool_iterations none = ([], ping ∷ torn ∷ [])
    tool_loop_stream max_tool_iterations (some messages) =
        went_on (ping ∷ []) (iterate max_tool_iterations (record { messages = messages; made = 0 }))

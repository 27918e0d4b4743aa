-- ===== src/ToolLoop/Tests.antt =====
-- One turn with a tool and an answer, under `tool_loop_stream` and `tool_loop_nonstream` of
-- scripts/files/router-app.py.
use local_gpu_cluster.Prelude.{
  ℕ, true, ◌≡◌, ◌≢◌, ◌≤◌, ◌⊎◌, refl, String, Bool, false, Option, none, some, List, [], ◌∷◌, length,
  All, if◌then◌else◌, arith, eq_iff, leb,
}
use local_gpu_cluster.Prelude.Json.{null}
use local_gpu_cluster.Prelude.Text.{Codes, codes, codes_eq}
use local_gpu_cluster.ToolLoop.Accumulator.{
  Fragment, feed, feed_one, merge, finalize, ToolCall, ensure_tool_call_ids,
}
use local_gpu_cluster.ToolLoop.Reassembly.{
  lookup, keys, described, of_index, first_seen, feed-Reassembles,
}
use local_gpu_cluster.ToolLoop.Events.{
  split_blank, drain, drain_all, read_events, split_lines, read_line,
}
use local_gpu_cluster.ToolLoop.Chunking.{read_events-Chunking}
use local_gpu_cluster.ToolLoop.Dispatch.{Output, json_dumps}
use local_gpu_cluster.ToolLoop.Turn.{Message, given, assistant, tool, take_turn, results}
use local_gpu_cluster.ToolLoop.Stream
use local_gpu_cluster.ToolLoop.Stream.{
  strip_out, Chunk, Frame, ping, content, finish, done, Reply, replied, complete, hear, hear_events,
  hear_lines, hear_choice, tool_loop_stream,
}
use local_gpu_cluster.ToolLoop.Nonstream
use local_gpu_cluster.ToolLoop.Nonstream.{
  Posted, answered, Final, completion, tool_loop_nonstream, asks_for_tools, cleaned,
}
use local_gpu_cluster.ToolLoop.Conversation.{Continues, requests-Continue}
use local_gpu_cluster.ToolLoop.Endings.{IsEnded, SomeRaises, stream-IsEnded}
use local_gpu_cluster.ToolLoop.Answer.{IsAnswer, SomeUnusable, nonstream-IsAnswer}

abbrev fragment : ℕ → Option String → Option String → Option String → Fragment
fragment i d n a = record { index = i; id = d; name = n; arguments = a }

-- Two calls, whose fragments mix.
abbrev deltas : List Fragment
deltas =
    fragment 1 (some "b") (some "web_fetch") (some "{")
    ∷ fragment 0 none (some "tavily_map") none
    ∷ fragment 1 none none (some "}")
    ∷ fragment 0 (some "") none (some "{}")
    ∷ []

joins :
    finalize (feed deltas [])
    ≡ record { id = some "b"; name = some "web_fetch"; arguments = "{}" }
      ∷ record { id = none; name = some "tavily_map"; arguments = "{}" }
      ∷ []
unfolding finalize feed feed_one merge
joins = refl

feed-Reassembles_example :
    ((i : ℕ) → lookup i (feed deltas []) ≡ described (of_index i deltas))
    × (keys (feed deltas []) ≡ first_seen deltas [])
feed-Reassembles_example = feed-Reassembles deltas

abbrev two_lines : String
two_lines = "data: x\n\nda"

abbrev rest_line : String
rest_line = "ta: y\n\n"

abbrev first_half : String
first_half = "data: x\n"

abbrev second_half : String
second_half = "\ndata: y\n\n"

read_events-Chunking_example :
    (read_events [] (codes two_lines ∷ codes rest_line ∷ [])
      ≡ read_events [] (codes first_half ∷ codes second_half ∷ []))
    × (split_blank (read_events [] (codes two_lines ∷ codes rest_line ∷ [])).1 ≡ none)
read_events-Chunking_example =
    read_events-Chunking (codes two_lines ∷ codes rest_line ∷ [])
      (codes first_half ∷ codes second_half ∷ []) refl

-- The upstream asks for a tool until it has a result, then says "hi".
abbrev call_chunk : Chunk
call_chunk = Stream.choice (record {
  tool_calls = fragment 0 none (some "web_fetch") (some "{}") ∷ [];
  content = none;
  finish_reason = some "tool_calls";
})

abbrev hi_chunk : Chunk
hi_chunk =
    Stream.choice (record { tool_calls = []; content = some "hi"; finish_reason = some "stop" })

abbrev json_loads : Codes → Chunk
json_loads s = if codes_eq s (codes "call") then call_chunk else hi_chunk

abbrev call_stream : String
call_stream = "data: call\n\ndata: [DONE]\n\n"

abbrev hi_stream : String
hi_stream = "data: hi\n\ndata: [DONE]\n\n"

abbrev serve : ℕ → List Message → Reply
serve n ms =
    replied 200 (codes (if leb (length ms) 1 then call_stream else hi_stream) ∷ []) complete

abbrev fresh : ℕ → String
fresh n = "call_0"

fresh_id : (n : ℕ) → fresh n ≢ ""
fresh_id n h = ground (arith, eq_iff "call_0" "")

abbrev dispatch : Option String → String → Output
dispatch name arguments = json_dumps null

abbrev unchanged : String → String
unchanged s = strip_out true false (λ t. t) (λ t. t) s

abbrev never : ℕ → Bool
never n = false

abbrev question : List Message
question = given null ∷ []

abbrev web_call : ToolCall
web_call = record { id = "call_0"; name = some "web_fetch"; arguments = "{}" }

streams : tool_loop_stream json_loads unchanged fresh dispatch serve never 10 (some question) ≡ (
  question
      ∷ (given null ∷ assistant none (web_call ∷ []) ∷ tool "call_0" (json_dumps null) ∷ [])
      ∷ [],
  ping ∷ content "hi" ∷ finish "stop" ∷ done ∷ [],
)
unfolding tool_loop_stream Stream.iterate hear hear_events hear_lines hear_choice read_events
    drain_all drain split_blank split_lines read_line feed feed_one merge finalize
    ensure_tool_call_ids results take_turn codes_eq
streams = refl

requests-Continue_example :
    let asked =
      (tool_loop_stream json_loads unchanged fresh dispatch serve never 10 (some question)).0 in
    All (Continues dispatch question) asked × (length asked ≤ 10)
requests-Continue_example =
    requests-Continue dispatch fresh fresh_id json_loads unchanged serve never 10 question

stream-IsEnded_example :
    let (asked, sent) =
      tool_loop_stream json_loads unchanged fresh dispatch serve never 10 (some question) in
    (body : List Frame) × (sent ≡ ping ∷ body)
    × IsEnded ((some question ≡ none) ⊎ SomeRaises json_loads unchanged serve asked) body
stream-IsEnded_example =
    stream-IsEnded json_loads unchanged fresh dispatch serve never 10 (some question)

abbrev call_choice : Nonstream.Choice
call_choice = record {
  message = some (record {
    content = none;
    tool_calls = record { id = none; name = some "web_fetch"; arguments = "{}" } ∷ [];
  });
  finish_reason = some "tool_calls";
}

-- An upstream that asks for a tool every time.
abbrev insist : ℕ → List Message → Posted
insist n ms = answered (call_choice ∷ [])

nonstream-IsAnswer_example :
    let (asked, final) =
      tool_loop_nonstream unchanged fresh dispatch insist never 2 (some question) in
    All (Continues dispatch question) asked
    × (length asked ≤ 2)
    × IsAnswer ((some question ≡ none) ⊎ SomeUnusable insist asked) final
nonstream-IsAnswer_example =
    nonstream-IsAnswer unchanged fresh fresh_id dispatch insist never 2 (some question)
      (omega arith)

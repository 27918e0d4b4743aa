-- ===== src/ToolLoop/Conversation.antt =====
-- What the upstream is sent by `tool_loop_stream` of scripts/files/router-app.py, turn after turn.
use local_gpu_cluster.Prelude.{
  ℕ, zero, suc, ◌≤◌, ◌≡◌, ◌≢◌, refl, String, Bool, true, Option, none, some, List, [], ◌∷◌, ◌++◌,
  length, leb, All, Bool-cases, inl, inr, arith, eq_iff,
}
use local_gpu_cluster.Prelude.Text.{Codes}
use local_gpu_cluster.ToolLoop.Accumulator.{
  Call, Calls, ToolCall, truthy, with_id, ensure_tool_call_ids, finalize, has_any,
}
use local_gpu_cluster.ToolLoop.Dispatch.{Output}
use local_gpu_cluster.ToolLoop.Turn.{Message, assistant, tool, Talk, results, take_turn}
use local_gpu_cluster.ToolLoop.Stream.{
  Chunk, Frame, Heard, Reply, unreachable, unsent, replied, Close, complete, breaks, raises,
  after_stream, after_reading, or_null, hear, wants_tools, conclude, on_reply, iterate,
  tool_loop_stream,
}

module _ (dispatch : Option String → String → Output) where
  -- One result for each call, in their order, under the call's identifier, which is not empty.
  abbrev pub Answers : List ToolCall → List Message → Type 0
  Answers [] [] = Unit
  Answers (t ∷ ts) (tool i o ∷ ms) =
      (t.id ≢ "") × (i ≡ t.id) × (o ≡ dispatch t.name t.arguments) × Answers ts ms
  Answers _ _ = ⊥

  -- The conversation `to` is `from` with further turns.
  pub data Continues (from : List Message) : List Message → Type 0 where
    same : {to : List Message} → to ≡ from → Continues from to
    turn :
        {to : List Message} (before : List Message) (content : Option String)
        (calls : List ToolCall) (answers : List Message)
        → Continues from before
        → calls ≢ []
        → Answers calls answers
        → to ≡ before ++ (assistant content calls ∷ answers)
        → Continues from to

  module _ (fresh : ℕ → String) (fresh_id : (n : ℕ) → fresh n ≢ "") where
    truthy-ne : (o : Option String) (s : String) → truthy o ≡ some s → s ≢ ""
    truthy-ne none s h e = cc
    truthy-ne (some t) s h e = ground (arith, eq_iff t "")

    with_id-ne : (n : ℕ) (o : Option String) (c : Call) → (with_id fresh n (truthy o) c).0.id ≢ ""
    with_id-ne n o c = id-ne (truthy o) (truthy-ne o)
      where
        id-ne :
            (p : Option String)
            → ((s : String) → p ≡ some s → s ≢ "")
            → (with_id fresh n p c).0.id ≢ ""
        id-ne none h = fresh_id n
        id-ne (some s) h = h s refl

    results-Answers :
        (n : ℕ) (cs : List Call)
        → Answers
            (ensure_tool_call_ids fresh n cs).0
            (results fresh dispatch (ensure_tool_call_ids fresh n cs).0)
    unfolding ensure_tool_call_ids results
    results-Answers n [] = tt
    results-Answers n (c ∷ cs) =
        (with_id-ne n c.id c, refl, refl, results-Answers (with_id fresh n (truthy c.id) c).1 cs)

    ensure-nonempty : (n : ℕ) (cs : List Call) → cs ≢ [] → (ensure_tool_call_ids fresh n cs).0 ≢ []
    unfolding ensure_tool_call_ids
    ensure-nonempty n [] h e = h refl
    ensure-nonempty n (c ∷ cs) h e = cc

    finalize-nonempty : (calls : Calls) → has_any calls ≡ true → finalize calls ≢ []
    unfolding finalize
    finalize-nonempty [] h e = cc
    finalize-nonempty (c ∷ cs) h e = cc

    pub take_turn-Continues :
        (from : List Message) (content : Option String) (cs : List Call) (talk : Talk)
        → cs ≢ []
        → Continues from talk.messages
        → Continues from (take_turn fresh dispatch content cs talk).messages
    unfolding take_turn
    take_turn-Continues from content cs talk h c =
        let calls = (ensure_tool_call_ids fresh talk.made cs).0 in
        turn talk.messages content calls (results fresh dispatch calls) c
          (ensure-nonempty talk.made cs h) (results-Answers talk.made cs) refl

    module _ (json_loads : Codes → Chunk) (clean : String → String)
        (serve : ℕ → List Message → Reply) (late : ℕ → Bool) where
      abbrev Kept : List Message → ℕ → List (List Message) × List Frame → Type 0
      Kept from left (asked, sent) = All (Continues from) asked × (length asked ≤ left)

      wants_tools-any :
          (reason : Option String) (calls : Calls)
          → wants_tools reason calls ≡ true
          → has_any calls ≡ true
      wants_tools-any none calls h = cc
      wants_tools-any (some r) calls h = ground arith

      abbrev runs : ℕ → Talk → List (List Message) × List Frame
      runs = iterate json_loads clean fresh dispatch serve late

      conclude-Kept :
          (from : List Message) (left : ℕ) (talk : Talk) (h : Heard)
          → Continues from talk.messages
          → ((t : Talk) → Continues from t.messages → Kept from left (runs left t))
          → Kept from left (conclude json_loads clean fresh dispatch serve late (runs left) talk h)
      conclude-Kept from left talk h c ih =
          elim (Bool-cases (wants_tools h.finish_reason h.calls)) [
            | inl w ↦ rw w (
                ih (take_turn fresh dispatch (or_null h.assistant_content) (finalize h.calls) talk)
                  (take_turn-Continues from (or_null h.assistant_content) (finalize h.calls) talk
                    (finalize-nonempty h.calls (wants_tools-any h.finish_reason h.calls w)) c))
            | inr n ↦ rw n (tt, omega arith)
          ]

      after_reading-Kept :
          (from : List Message) (left : ℕ) (talk : Talk) (h : Heard) (close : Close)
          → Continues from talk.messages
          → ((t : Talk) → Continues from t.messages → Kept from left (runs left t))
          → Kept from left
              (after_reading json_loads clean fresh dispatch serve late (runs left) talk h close)
      after_reading-Kept from left talk h close c ih = elim (Bool-cases h.raised) [
        | inl e ↦ rw e (tt, omega arith)
        | inr e ↦ rw e (closed close)
      ]
        where
          closed :
              (close : Close)
              → Kept from left
                  (after_stream json_loads clean fresh dispatch serve late (runs left) talk h close)
          closed complete = conclude-Kept from left talk h c ih
          closed breaks = (tt, omega arith)
          closed raises = (tt, omega arith)

      on_reply-Kept :
          (from : List Message) (left : ℕ) (talk : Talk) (r : Reply)
          → Continues from talk.messages
          → ((t : Talk) → Continues from t.messages → Kept from left (runs left t))
          → Kept from left (on_reply json_loads clean fresh dispatch serve late (runs left) talk r)
      on_reply-Kept from left talk unreachable c ih = (tt, omega arith)
      on_reply-Kept from left talk unsent c ih = (tt, omega arith)
      on_reply-Kept from left talk (replied status stream close) c ih =
          elim (Bool-cases (leb 500 status)) [
            | inl e ↦ rw e (tt, omega arith)
            | inr e ↦
                rw e (after_reading-Kept from left talk (hear json_loads clean stream) close c ih)
          ]

      iterate-Kept :
          (from : List Message) (left : ℕ) (talk : Talk)
          → Continues from talk.messages
          → Kept from left (runs left talk)
      unfolding iterate
      iterate-Kept from zero talk c = (tt, omega arith)
      iterate-Kept from (suc left) talk c = elim (Bool-cases (late left)) [
        | inl e ↦ rw e (tt, omega arith)
        | inr e ↦
            let (conts, few) =
              on_reply-Kept from left talk (serve left talk.messages) c
                (λ t k. iterate-Kept from left t k) in
            rw e ((c, conts), omega arith)
      ]

      -- Whatever the upstream answers, it is asked at most as often as there are iterations, and
      -- every time with the client's messages followed by whole turns: an assistant's message
      -- with at least one tool call and then, in the order of its calls, the result of each
      -- under its own identifier, which is not empty.
      pub requests-Continue :
          (max_tool_iterations : ℕ) (messages : List Message)
          → let asked =
              (tool_loop_stream json_loads clean fresh dispatch serve late max_tool_iterations
                (some messages)).0 in
            All (Continues messages) asked × (length asked ≤ max_tool_iterations)
      unfolding tool_loop_stream
      requests-Continue limit messages =
          iterate-Kept messages limit (record { messages = messages; made = 0 }) (same refl)

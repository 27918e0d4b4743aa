-- ===== src/ToolLoop/Endings.antt =====
-- What the client is sent by `tool_loop_stream` of scripts/files/router-app.py.
use local_gpu_cluster.Prelude.{
  ℕ, zero, suc, ◌≡◌, refl, String, Bool, true, false, Option, none, some, List, [], ◌∷◌, ◌++◌, leb,
  if_either, if◌then◌else◌, ◌⊎◌, Any, inl, inr, Bool-cases,
}
use local_gpu_cluster.Prelude.Text.{Codes}
use local_gpu_cluster.ToolLoop.Events.{
  Line, skipped, done_mark, payload, read_line, split_lines, read_events,
}
use local_gpu_cluster.ToolLoop.Accumulator.{finalize}
use local_gpu_cluster.ToolLoop.Dispatch.{Output}
use local_gpu_cluster.ToolLoop.Turn.{Message, Talk, take_turn}
use local_gpu_cluster.ToolLoop.Stream.{
  Chunk, not_json, no_choices, malformed, torn, unsent, Close, complete, breaks, raises, cut_off,
  after_stream, choice, Frame, ping, content, finish, max_iterations_reached, degraded, done, Heard,
  silence, Reply, unreachable, replied, or_null, hear_content, hear_choice, hear_chunk, hear_line,
  hear_lines, hear_events, hear, wants_tools, closing, conclude, on_reply, iterate,
  tool_loop_stream,
}

-- Contents, then at most one frame that says why the stream ends, then the terminator and no frame after it;
-- or contents and the place where it is cut off, which there is only with the given reason.
abbrev pub IsEnded : Type 0 → List Frame → Type 0
IsEnded reason [] = ⊥
IsEnded reason (content s ∷ fs) = IsEnded reason fs
IsEnded reason (finish r ∷ fs) = fs ≡ done ∷ []
IsEnded reason (max_iterations_reached ∷ fs) = fs ≡ done ∷ []
IsEnded reason (degraded ∷ fs) = fs ≡ done ∷ []
IsEnded reason (done ∷ fs) = fs ≡ []
IsEnded reason (torn ∷ fs) = (fs ≡ []) × reason
IsEnded reason (ping ∷ fs) = ⊥

-- An answer of the upstream on which the loop raises what it does not catch.
abbrev pub MakesRaise : (Codes → Chunk) → (String → String) → Reply → Type 0
MakesRaise json_loads clean unreachable = ⊥
MakesRaise json_loads clean unsent = Unit
MakesRaise json_loads clean (replied status stream close) =
    (close ≡ raises) ⊎ ((hear json_loads clean stream).raised ≡ true)

-- One of these requests is answered in such a way.
abbrev pub SomeRaises :
    (Codes → Chunk) → (String → String) → (ℕ → List Message → Reply) → List (List Message) → Type 0
SomeRaises json_loads clean serve asked =
    Any (λ messages. (left : ℕ) × MakesRaise json_loads clean (serve left messages)) asked

IsEnded-map : {P Q : Type 0} → (P → Q) → (fs : List Frame) → IsEnded P fs → IsEnded Q fs
IsEnded-map f [] h = h
IsEnded-map f (content s ∷ fs) h = IsEnded-map f fs h
IsEnded-map f (finish r ∷ fs) h = h
IsEnded-map f (max_iterations_reached ∷ fs) h = h
IsEnded-map f (degraded ∷ fs) h = h
IsEnded-map f (done ∷ fs) h = h
IsEnded-map f (torn ∷ fs) h = (h.0, f h.1)
IsEnded-map f (ping ∷ fs) h = h

abbrev OnlyContent : List Frame → Type 0
OnlyContent [] = Unit
OnlyContent (content s ∷ fs) = OnlyContent fs
OnlyContent _ = ⊥

OnlyContent-append : (fs gs : List Frame) → OnlyContent fs → OnlyContent gs → OnlyContent (fs ++ gs)
OnlyContent-append [] gs h k = k
OnlyContent-append (content s ∷ fs) gs h k = OnlyContent-append fs gs h k
OnlyContent-append (f ∷ fs) gs h k = absurd h

append-IsEnded :
    (reason : Type 0) (fs gs : List Frame)
    → OnlyContent fs
    → IsEnded reason gs
    → IsEnded reason (fs ++ gs)
append-IsEnded reason [] gs h k = k
append-IsEnded reason (content s ∷ fs) gs h k = append-IsEnded reason fs gs h k
append-IsEnded reason (f ∷ fs) gs h k = absurd h

if_Only :
    (b : Bool) (h k : Heard)
    → OnlyContent h.frames
    → OnlyContent k.frames
    → OnlyContent (if b then h else k).frames
if_Only true h k p q = p
if_Only false h k p q = q

module _ (json_loads : Codes → Chunk) (clean : String → String) where
  hear_content-Only :
      (c : Option String) (h : Heard)
      → OnlyContent h.frames
      → OnlyContent (hear_content json_loads clean c h).frames
  hear_content-Only none h k = k
  hear_content-Only (some s) h k = OnlyContent-append h.frames (content (clean s) ∷ []) k tt

  hear_chunk-Only :
      (c : Chunk) (h : Heard)
      → OnlyContent h.frames
      → OnlyContent (hear_chunk json_loads clean c h).frames
  unfolding hear_choice
  hear_chunk-Only not_json h k = k
  hear_chunk-Only no_choices h k = k
  hear_chunk-Only malformed h k = k
  hear_chunk-Only (choice c) h k = hear_content-Only c.content _ k

  hear_line-Only :
      (l : Line) (h : Heard)
      → OnlyContent h.frames
      → OnlyContent (hear_line json_loads clean l h).frames
  hear_line-Only skipped h k = k
  hear_line-Only done_mark h k = k
  hear_line-Only (payload json) h k = hear_chunk-Only (json_loads json) h k

  hear_lines-Only :
      (ls : List Codes) (h : Heard)
      → OnlyContent h.frames
      → OnlyContent (hear_lines json_loads clean ls h).frames
  unfolding hear_lines
  hear_lines-Only [] h k = k
  hear_lines-Only (l ∷ ls) h k =
      hear_lines-Only ls _ (if_Only h.raised h _ k (hear_line-Only (read_line l) h k))

  hear_events-Only :
      (es : List Codes) (h : Heard)
      → OnlyContent h.frames
      → OnlyContent (hear_events json_loads clean es h).frames
  unfolding hear_events
  hear_events-Only [] h k = k
  hear_events-Only (e ∷ es) h k = hear_events-Only es _ (hear_lines-Only (split_lines e) h k)

  hear-Only : (stream : List Codes) → OnlyContent (hear json_loads clean stream).frames
  unfolding hear
  hear-Only stream = hear_events-Only (read_events [] stream).0 silence tt

  closing-IsEnded : (why : Type 0) (reason : Option String) → IsEnded why (closing reason)
  closing-IsEnded why none = refl
  closing-IsEnded why (some r) = refl

  module _ (fresh : ℕ → String) (dispatch : Option String → String → Output)
      (serve : ℕ → List Message → Reply) (late : ℕ → Bool) where
    abbrev runs : ℕ → Talk → List (List Message) × List Frame
    runs = iterate json_loads clean fresh dispatch serve late

    -- The frames are cut off only for this reason or by an answer to one of the requests.
    abbrev Ends : Type 0 → List (List Message) × List Frame → Type 0
    Ends why (asked, sent) = IsEnded (why ⊎ SomeRaises json_loads clean serve asked) sent

    conclude-Ends :
        (why : Type 0) (left : ℕ) (talk : Talk) (h : Heard)
        → OnlyContent h.frames
        → ((t : Talk) → Ends ⊥ (runs left t))
        → Ends why (conclude json_loads clean fresh dispatch serve late (runs left) talk h)
    conclude-Ends why left talk h k ih =
        let next : Talk =
          take_turn fresh dispatch (or_null h.assistant_content) (finalize h.calls) talk in
        elim (Bool-cases (wants_tools h.finish_reason h.calls)) [
          | inl w ↦ rw w (
              append-IsEnded _ h.frames (runs left next).1 k (
                IsEnded-map (λ x. elim x [ inl never ↦ absurd never | inr r ↦ inr r ])
                  (runs left next).1 (ih next)))
          | inr n ↦ rw n (append-IsEnded _ h.frames _ k (closing-IsEnded _ h.finish_reason))
        ]

    after_stream-Ends :
        (why : Type 0) (left : ℕ) (talk : Talk) (h : Heard) (close : Close)
        → OnlyContent h.frames
        → (close ≡ raises → why)
        → ((t : Talk) → Ends ⊥ (runs left t))
        → Ends why
            (after_stream json_loads clean fresh dispatch serve late (runs left) talk h close)
    after_stream-Ends why left talk h complete k r ih = conclude-Ends why left talk h k ih
    after_stream-Ends why left talk h breaks k r ih = append-IsEnded _ h.frames _ k refl
    after_stream-Ends why left talk h raises k r ih =
        append-IsEnded _ h.frames _ k (refl, inl (r refl))

    on_reply-Ends :
        (left : ℕ) (talk : Talk) (r : Reply)
        → ((t : Talk) → Ends ⊥ (runs left t))
        → Ends
            (MakesRaise json_loads clean r)
            (on_reply json_loads clean fresh dispatch serve late (runs left) talk r)
    on_reply-Ends left talk unreachable ih = refl
    on_reply-Ends left talk unsent ih = (refl, inl tt)
    on_reply-Ends left talk (replied status stream close) ih =
        let h = hear json_loads clean stream in
        let bad = MakesRaise json_loads clean (replied status stream close) in
        let only : OnlyContent h.frames = hear-Only stream in
        let closed =
          after_stream json_loads clean fresh dispatch serve late (runs left) talk h close in
        let read = if h.raised then cut_off h else closed in
        if_either (Ends bad) (leb 500 status) ([], degraded ∷ done ∷ []) read (λ e. refl)
          (λ e.
            if_either (Ends bad) h.raised (cut_off h) closed
              (λ y. append-IsEnded _ h.frames _ only (refl, inl (inr y)))
              (λ n. after_stream-Ends bad left talk h close only (λ c. inl c) ih))

    iterate-Ends : (left : ℕ) (talk : Talk) → Ends ⊥ (runs left talk)
    unfolding iterate
    iterate-Ends zero talk = refl
    iterate-Ends (suc left) talk =
        let r = serve left talk.messages in
        let answered = on_reply json_loads clean fresh dispatch serve late (runs left) talk r in
        elim (Bool-cases (late left)) [
          | inl e ↦ rw e refl
          | inr e ↦ rw e (
              IsEnded-map
                (λ (x : MakesRaise json_loads clean r
                    ⊎ SomeRaises json_loads clean serve answered.0).
                  elim x [ inl m ↦ inr (inl (left, m)) | inr s ↦ inr (inr s) ])
                answered.1 (on_reply-Ends left talk r (λ t. iterate-Ends left t)))
        ]

    -- Whatever the upstream answers and the clock shows, the stream ends: a first ping, then
    -- contents only, then at most one frame with the reason, be it the model's, the limit of
    -- turns or an error that the loop catches, and the terminator as the last frame, once. Only a
    -- body without a list of messages, or an answer to one of the loop's requests on which it
    -- raises what it does not catch, can cut it off after the contents, without the terminator.
    pub stream-IsEnded :
        (max_tool_iterations : ℕ) (messages : Option (List Message))
        → let (asked, sent) =
            tool_loop_stream json_loads clean fresh dispatch serve late max_tool_iterations
              messages in
          (body : List Frame) × (sent ≡ ping ∷ body)
          × IsEnded ((messages ≡ none) ⊎ SomeRaises json_loads clean serve asked) body
    unfolding tool_loop_stream
    stream-IsEnded limit none = (torn ∷ [], refl, (refl, inl refl))
    stream-IsEnded limit (some messages) =
        let talk : Talk = record { messages = messages; made = 0 } in
        let sent = (runs limit talk).1 in
        (
          sent,
          refl,
          IsEnded-map (λ x. elim x [ inl never ↦ absurd never | inr r ↦ inr r ]) sent
              (iterate-Ends limit talk),
        )

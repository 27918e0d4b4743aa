-- ===== src/ToolLoop/Answer.antt =====
-- What `tool_loop_nonstream` of scripts/files/router-app.py asks of the upstream and answers.
use local_gpu_cluster.Prelude.{
  ℕ, zero, suc, ◌≤◌, ◌<◌, ◌≡◌, ◌≢◌, refl, String, Bool, true, false, ◌&&◌, Option, none, some, List,
  [], ◌∷◌, length, All, ◌⊎◌, Any, Bool-cases, inl, inr, arith,
}
use local_gpu_cluster.ToolLoop.Accumulator.{Call}
use local_gpu_cluster.ToolLoop.Dispatch.{Output}
use local_gpu_cluster.ToolLoop.Turn.{Message, Talk}
use local_gpu_cluster.ToolLoop.Nonstream.{
  Spoken, Choice, Posted, no_connection, no_json, unusable, raised, service_degraded,
  upstream_invalid_json, answered, Final, max_tool_iterations_exceeded, completion, said,
  is_tool_calls, any_calls, asks_for_tools, annotate, exhausted, cleaned, cleaned_message,
  identified, turn_of, on_posted, iterate, tool_loop_nonstream,
}
use local_gpu_cluster.ToolLoop.Conversation.{Continues, same, take_turn-Continues}

-- An error, a completion whose first choice is not one on which the loop itself would go on, that is one
-- with the finish reason "tool_calls" and calls, or an exception, for the given reason.
abbrev pub IsAnswer : Type 0 → Final → Type 0
IsAnswer reason (completion []) = Unit
IsAnswer reason (completion (c ∷ cs)) = asks_for_tools c ≡ false
IsAnswer reason max_tool_iterations_exceeded = ⊥
IsAnswer reason service_degraded = Unit
IsAnswer reason upstream_invalid_json = Unit
IsAnswer reason raised = reason

-- One of these requests is answered with something on which the loop raises.
abbrev pub SomeUnusable : (ℕ → List Message → Posted) → List (List Message) → Type 0
SomeUnusable serve asked = Any (λ messages. (left : ℕ) × (serve left messages ≡ unusable)) asked

IsAnswer-map : {P Q : Type 0} → (P → Q) → (o : Final) → IsAnswer P o → IsAnswer Q o
IsAnswer-map f (completion []) h = h
IsAnswer-map f (completion (c ∷ cs)) h = h
IsAnswer-map f max_tool_iterations_exceeded h = h
IsAnswer-map f service_degraded h = h
IsAnswer-map f upstream_invalid_json h = h
IsAnswer-map f raised h = f h

-- The client's messages, if the body has a list of them.
abbrev pub own_messages : Option (List Message) → List Message
own_messages none = []
own_messages (some messages) = messages

any_calls-nonempty : (cs : List Call) → any_calls cs ≡ true → cs ≢ []
any_calls-nonempty [] h e = cc
any_calls-nonempty (c ∷ cs) h e = cc

and_right : (a b : Bool) → (a && b) ≡ true → b ≡ true
and_right true b h = h
and_right false b h = cc

asks-any : (c : Choice) → asks_for_tools c ≡ true → (said c.message).tool_calls ≢ []
unfolding asks_for_tools
asks-any c h =
    any_calls-nonempty (said c.message).tool_calls
      (and_right (is_tool_calls c.finish_reason) (any_calls (said c.message).tool_calls) h)

asks-annotate : (c : Choice) → asks_for_tools (annotate c) ≡ false
unfolding asks_for_tools annotate
asks-annotate c = refl

module _ (clean : String → String) where
  calls-cleaned :
      (m : Option Spoken) → (said (cleaned_message clean m)).tool_calls ≡ (said m).tool_calls
  calls-cleaned none = refl
  calls-cleaned (some m) = refl

  asks-cleaned : (c : Choice) → asks_for_tools (cleaned clean c) ≡ asks_for_tools c
  unfolding asks_for_tools cleaned
  asks-cleaned c = ground (arith, calls-cleaned c.message)

  module _ (fresh : ℕ → String) (fresh_id : (n : ℕ) → fresh n ≢ "")
      (dispatch : Option String → String → Output) (serve : ℕ → List Message → Posted)
      (late : ℕ → Bool) where
    abbrev runs : ℕ → Talk → List Choice → List (List Message) × Final
    runs = iterate clean fresh dispatch serve late

    abbrev Kept : Type 0 → List Message → ℕ → List (List Message) × Final → Type 0
    Kept why from left (asked, final) =
        All (Continues dispatch from) asked
        × (length asked ≤ left)
        × IsAnswer (why ⊎ SomeUnusable serve asked) final

    -- The choices of a last response, of which there is one unless no iteration is left.
    abbrev HasLast : List Choice → ℕ → Type 0
    HasLast [] left = 0 < left
    HasLast (c ∷ cs) left = Unit

    exhausted-IsAnswer :
        (why : Type 0) (last : List Choice) → HasLast last 0 → IsAnswer why (exhausted last)
    exhausted-IsAnswer why [] h = absurd (omega arith)
    exhausted-IsAnswer why (c ∷ cs) h = asks-annotate c

    Kept-map :
        {P Q : Type 0}
        → (P → Q)
        → (from : List Message) (left : ℕ) (u : List (List Message) × Final) → Kept P from left u
        → Kept Q from left u
    Kept-map f from left u (conts, few, final) =
        (conts, few, IsAnswer-map (λ x. elim x [ inl p ↦ inl (f p) | inr r ↦ inr r ]) u.1 final)

    on_posted-Kept :
        (from : List Message) (left : ℕ) (talk : Talk) (p : Posted)
        → Continues dispatch from talk.messages
        → ((t : Talk) (c : Choice) (cs : List Choice)
            → Continues dispatch from t.messages
            → Kept ⊥ from left (runs left t (c ∷ cs)))
        → Kept
            (p ≡ unusable)
            from
            left
            (on_posted clean fresh dispatch serve late (runs left) talk p)
    on_posted-Kept from left talk no_connection k ih = (tt, omega arith, tt)
    on_posted-Kept from left talk no_json k ih = (tt, omega arith, tt)
    on_posted-Kept from left talk unusable k ih = (tt, omega arith, inl refl)
    on_posted-Kept from left talk (answered []) k ih = (tt, omega arith, tt)
    on_posted-Kept from left talk (answered (c ∷ cs)) k ih = elim (Bool-cases (asks_for_tools c)) [
      | inl e ↦ rw e (
          Kept-map (λ never. absurd never) from left _
            (ih (turn_of clean fresh dispatch serve late c talk)
              (identified clean fresh dispatch serve late talk.made c) cs
              (take_turn-Continues dispatch fresh fresh_id from (said c.message).content
                (said c.message).tool_calls talk (asks-any c e) k)))
      | inr e ↦ rw e (tt, omega arith, rw (asks-cleaned c) e)
    ]

    iterate-Kept :
        (from : List Message) (left : ℕ) (talk : Talk) (last : List Choice)
        → Continues dispatch from talk.messages
        → HasLast last left
        → Kept ⊥ from left (runs left talk last)
    unfolding iterate
    iterate-Kept from zero talk last k h = (tt, omega arith, exhausted-IsAnswer _ last h)
    iterate-Kept from (suc left) talk last k h = elim (Bool-cases (late left)) [
      | inl e ↦ rw e (tt, omega arith, tt)
      | inr e ↦
          let (conts, few, final) =
            on_posted-Kept from left talk (serve left talk.messages) k
              (λ t c cs kept. iterate-Kept from left t (c ∷ cs) kept tt) in
          rw e (
            (k, conts),
            omega arith,
            IsAnswer-map (λ x. elim x [ inl p ↦ inr (inl (left, p)) | inr r ↦ inr (inr r) ])
                (on_posted clean fresh dispatch serve late (runs left) talk
                  (serve left talk.messages)).1
                final,
          )
    ]

    -- With at least one iteration allowed, and whatever the upstream answers: it is asked at most
    -- as often as there are iterations, every time with the client's messages and whole turns
    -- after them. The client gets an error, or a completion whose first choice does not have both
    -- the finish reason "tool_calls" and calls, also when the iterations run out, although calls may
    -- be left in it under another reason; the error for having run out is never needed. Only a
    -- body without a list of messages, or an answer to one of the loop's requests on which it raises
    -- what it does not catch, makes it end with an exception.
    pub nonstream-IsAnswer :
        (max_tool_iterations : ℕ) (messages : Option (List Message))
        → 0 < max_tool_iterations
        → let (asked, final) =
            tool_loop_nonstream clean fresh dispatch serve late max_tool_iterations messages in
          All (Continues dispatch (own_messages messages)) asked
          × (length asked ≤ max_tool_iterations)
          × IsAnswer ((messages ≡ none) ⊎ SomeUnusable serve asked) final
    unfolding tool_loop_nonstream
    nonstream-IsAnswer limit none h = (tt, omega arith, inl refl)
    nonstream-IsAnswer limit (some messages) h =
        let talk : Talk = record { messages = messages; made = 0 } in
        Kept-map (λ never. absurd never) messages limit (runs limit talk [])
          (iterate-Kept messages limit talk [] (same refl) h)

-- ===== src/ToolLoop/Chunking.antt =====
-- The events that `tool_loop_stream` of scripts/files/router-app.py reads, whatever the chunks.
use mathlib.Core.List.{append_assoc, append-nil}
use local_gpu_cluster.Prelude.{
  ℕ, zero, suc, ◌<◌, ◌≡◌, refl, sym, ap, ◌∙◌, none, some, List, [], ◌∷◌, ◌++◌, length, arith,
  Option-cases, inl, inr,
}
use local_gpu_cluster.Prelude.Text.{Codes}
use local_gpu_cluster.ToolLoop.Events.{split_blank, drain, drain_all, read_events}

split_blank-append :
    (a b event rest : Codes)
    → split_blank a ≡ some (event, rest)
    → split_blank (a ++ b) ≡ some (event, rest ++ b)
unfolding split_blank
split_blank-append [] b event rest h = cc
split_blank-append (c ∷ []) b event rest h = cc
split_blank-append (c ∷ d ∷ cs) b event rest h = elim (Option-cases (split_blank (d ∷ cs))) [
  | inl e ↦ ground arith
  | inr ((ev, r), e) ↦ ground (arith, split_blank-append (d ∷ cs) b ev r e)
]

split_blank-length :
    (a event rest : Codes) → split_blank a ≡ some (event, rest) → length rest < length a
unfolding split_blank
split_blank-length [] event rest h = cc
split_blank-length (c ∷ []) event rest h = cc
split_blank-length (c ∷ d ∷ cs) event rest h = elim (Option-cases (split_blank (d ∷ cs))) [
  | inl e ↦ ground arith
  | inr ((ev, r), e) ↦ ground (arith, split_blank-length (d ∷ cs) ev r e)
]

-- Enough fuel leaves no blank line in the buffer.
drain_ends : (fuel : ℕ) (buf : Codes) → length buf < fuel → split_blank (drain fuel buf).1 ≡ none
unfolding drain
drain_ends zero buf h = absurd (omega arith)
drain_ends (suc fuel) buf h = elim (Option-cases (split_blank buf)) [
  | inl e ↦ ground arith
  | inr ((event, rest), e) ↦
      let shorter = split_blank-length buf event rest e in ground (arith, drain_ends fuel rest)
]

drain_fuel : (f g : ℕ) (buf : Codes) → length buf < f → length buf < g → drain f buf ≡ drain g buf
unfolding drain
drain_fuel zero g buf hf hg = absurd (omega arith)
drain_fuel (suc f) zero buf hf hg = absurd (omega arith)
drain_fuel (suc f) (suc g) buf hf hg = elim (Option-cases (split_blank buf)) [
  | inl e ↦ ground arith
  | inr ((event, rest), e) ↦
      let shorter = split_blank-length buf event rest e in ground (arith, drain_fuel f g rest)
]

drain-none : (f : ℕ) (a : Codes) → split_blank a ≡ none → drain (suc f) a ≡ ([], a)
unfolding drain
drain-none f a e = ground arith

abbrev prepend : Codes → List Codes × Codes → List Codes × Codes
prepend event (events, left) = (event ∷ events, left)

drain-some :
    (f : ℕ) (a event rest : Codes)
    → split_blank a ≡ some (event, rest)
    → drain (suc f) a ≡ prepend event (drain f rest)
unfolding drain
drain-some f a event rest e = ground arith

abbrev after : ℕ → Codes → List Codes × Codes → List Codes × Codes
after h b (events, left) = (events ++ (drain h (left ++ b)).0, (drain h (left ++ b)).1)

-- A buffer is read with what follows, or first on its own and then what it leaves with what
-- follows.
drain-append :
    (f g h : ℕ) (a b : Codes)
    → length a < f
    → length (a ++ b) < g
    → length ((drain f a).1 ++ b) < h
    → drain g (a ++ b) ≡ after h b (drain f a)
drain-append zero g h a b hf hg hh = absurd (omega arith)
drain-append (suc f) zero h a b hf hg hh = absurd (omega arith)
drain-append (suc f) (suc g) h a b hf hg hh = elim (Option-cases (split_blank a)) [
  | inl e ↦
      let hh' : length (a ++ b) < h = rw (drain-none f a e) at hh in
      rw (drain-none f a e) (drain_fuel (suc g) h (a ++ b) hg hh')
  | inr ((event, rest), e) ↦
      let e' = split_blank-append a b event rest e in
      let shorter = split_blank-length a event rest e in
      let shorter' = split_blank-length (a ++ b) event (rest ++ b) e' in
      let hh' : length ((drain f rest).1 ++ b) < h = rw (drain-some f a event rest e) at hh in
      rw (drain-some f a event rest e, drain-some g (a ++ b) event (rest ++ b) e')
        (ap (prepend event) (drain-append f g h rest b (omega arith) (omega arith) hh'))
]

drain_all-append :
    (a b : Codes)
    → drain_all (a ++ b) ≡ (
      (drain_all a).0 ++ (drain_all ((drain_all a).1 ++ b)).0,
      (drain_all ((drain_all a).1 ++ b)).1,
    )
unfolding drain_all
drain_all-append a b =
    drain-append (suc (length a)) (suc (length (a ++ b)))
      (suc (length ((drain (suc (length a)) a).1 ++ b))) a b (omega arith) (omega arith)
      (omega arith)

drain_all_ends : (a : Codes) → split_blank (drain_all a).1 ≡ none
unfolding drain_all
drain_all_ends a = drain_ends (suc (length a)) a (omega arith)

drain_all-none : (a : Codes) → split_blank a ≡ none → drain_all a ≡ ([], a)
unfolding drain_all
drain_all-none a e = drain-none (length a) a e

abbrev pub concat : List Codes → Codes
concat [] = []
concat (raw ∷ stream) = raw ++ concat stream

read_events-concat :
    (stream : List Codes) (buf : Codes)
    → split_blank buf ≡ none
    → read_events buf stream ≡ drain_all (buf ++ concat stream)
unfolding read_events
read_events-concat [] buf h = rw (append-nil buf) (sym (drain_all-none buf h))
read_events-concat (raw ∷ stream) buf h =
    let (events, left) = drain_all (buf ++ raw) in
    let ih = read_events-concat stream left (drain_all_ends (buf ++ raw)) in
    rw ih (
      sym (
        rw (← append_assoc buf raw (concat stream))
          (drain_all-append (buf ++ raw) (concat stream))))

nothing : split_blank [] ≡ none
unfolding split_blank
nothing = refl

-- The events that are read depend on the text that the upstream sent, not on where the network
-- cut it into chunks; and what is left in the buffer at the end has no blank line, so no
-- complete event is left unread.
pub read_events-Chunking :
    (stream stream' : List Codes)
    → concat stream ≡ concat stream'
    → (read_events [] stream ≡ read_events [] stream')
      × (split_blank (read_events [] stream).1 ≡ none)
read_events-Chunking stream stream' h =
    let ends = λ (s : List Codes). read_events-concat s [] nothing in
    (
      ends stream ∙ ap drain_all h ∙ sym (ends stream'),
      rw (ends stream) (drain_all_ends (concat stream)),
    )

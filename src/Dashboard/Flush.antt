-- ===== src/Dashboard/Flush.antt =====
-- What a flush that answers true has made sure of: scripts/files/live_dashboard/history.py.
use local_gpu_cluster.Prelude.{
  if_either, ℕ, suc, ◌≡◌, refl, ◌∙◌, Bool, true, false, List, [], ◌∷◌, ◌++◌, ◌⊎◌, inl, inr, All,
  arith,
}
use local_gpu_cluster.Dashboard.Row.{Entry}
use local_gpu_cluster.Dashboard.History.{
  Attempt, Transaction, History, new_history, handle_add, handle_noop, drain, try_recover, Step,
  add, prune, recover, reject, step, steps,
}
use local_gpu_cluster.Dashboard.Held.{
  InLog, InBacklog, Held, if_both, handle_add-Held, handle_add-new, handle_prune-Held,
  handle_add-StillOk, handle_prune-StillOk,
}

-- Between two steps, a writer that is ok has no backlog.
abbrev Idle : History → Type 0
Idle h = h.ok ≡ true → h.backlog ≡ []

taken_off :
    (row first : Entry) (rows : List Entry) (h : History)
    → h.backlog ≡ first ∷ rows
    → Held row h
    → (first ≡ row) ⊎ Held row (record h { backlog = rows })
taken_off row first rows h e (inl l) = inr (inl l)
taken_off row first rows h e (inr (inl w)) = inr (inr (inl w))
taken_off row first rows h e (inr (inr b)) =
    let here : InBacklog row (first ∷ rows) = rw e at b in
    elim here [ inl p ↦ inl p | inr q ↦ inr (inr (inr q)) ]

-- The loop over the backlog forgets no row, and leaves none if the writer is still ok.
drain-Sound :
    (m : ℕ) (attempts : ℕ → ℕ → Attempt) (i : ℕ) (rows : List Entry) (h : History)
    → h.backlog ≡ rows
    → ((row : Entry) → Held row h → Held row (drain m attempts i rows h))
      × Idle (drain m attempts i rows h)
unfolding drain
drain-Sound m attempts i [] h e = (λ row held. held, λ o. e)
drain-Sound m attempts i (first ∷ rows) h e =
    let off = record h { backlog = rows } in
    let next = handle_add m first (attempts i) off in
    let still = handle_add-StillOk m first (attempts i) off in
    let kept : (row : Entry) → Held row h → Held row next = λ (row : Entry) (held : Held row h).
      elim (taken_off row first rows h e held) [
        | inl p ↦ rw (← p) (handle_add-new m first (attempts i) off)
        | inr k ↦ handle_add-Held m first row (attempts i) off k
      ] in
    if_either (λ u. ((row : Entry) → Held row h → Held row u) × Idle u) next.ok
      (drain m attempts (suc i) rows next) next
      (λ o.
        let (later, idle) = drain-Sound m attempts (suc i) rows next (still o).1 in
        (λ row held. later row (kept row held), idle))
      (λ n. (kept, λ o. absurd (cc (o, n))))

-- The rows that `add` put into the queue; a row that it rejects does not get there.
abbrev pub rows_of : Step → List Entry
rows_of (add row attempts) = row ∷ []
rows_of (prune cutoff attempts) = []
rows_of (recover setup attempts) = []
rows_of (reject row) = []

abbrev pub added : List Step → List Entry
added [] = []
added (s ∷ ss) = rows_of s ++ added ss

abbrev Sound : List Entry → History → History → Type 0
Sound new h u = ((row : Entry) → Held row h → Held row u) × All (λ row. Held row u) new × Idle u

same-Sound : (h : History) → Idle h → Sound [] h h
same-Sound h idle = (λ row held. held, tt, idle)

recover-Sound :
    (m : ℕ) (setup : Bool) (attempts : ℕ → ℕ → Attempt) (h : History)
    → Idle h
    → Sound [] h (try_recover m setup attempts h)
unfolding try_recover
recover-Sound m false attempts h idle = same-Sound h idle
recover-Sound m true attempts h idle =
    let (kept, empty) = drain-Sound m attempts 0 h.backlog (record h { ok = true }) refl in
    (kept, tt, empty)

step-Sound : (m : ℕ) (s : Step) (h : History) → Idle h → Sound (rows_of s) h (step m s h)
step-Sound m (add new attempts) h idle = (
  λ row held. handle_add-Held m new row attempts h held,
  (handle_add-new m new attempts h, tt),
  λ o. let (was, same) = handle_add-StillOk m new attempts h o in same ∙ idle was,
)
step-Sound m (prune cutoff attempts) h idle = (
  λ row held. handle_prune-Held cutoff row attempts h held,
  tt,
  λ o. let (was, same) = handle_prune-StillOk cutoff attempts h o in same ∙ idle was,
)
step-Sound m (recover setup attempts) h idle =
    if_both (Sound [] h) h.ok h (try_recover m setup attempts h) (same-Sound h idle)
      (recover-Sound m setup attempts h idle)
step-Sound m (reject new) h idle = (λ row held. inl refl, tt, idle)

All-Held-append :
    (h : History) (xs ys : List Entry)
    → All (λ row. Held row h) xs
    → All (λ row. Held row h) ys
    → All (λ row. Held row h) (xs ++ ys)
All-Held-append h [] ys p q = q
All-Held-append h (x ∷ xs) ys p q = (p.0, All-Held-append h xs ys p.1 q)

All-later :
    (h u : History) (xs : List Entry)
    → ((row : Entry) → Held row h → Held row u)
    → All (λ row. Held row h) xs
    → All (λ row. Held row u) xs
All-later h u [] f p = tt
All-later h u (x ∷ xs) f p = (f x p.0, All-later h u xs f p.1)

steps-Sound : (m : ℕ) (ss : List Step) (h : History) → Idle h → Sound (added ss) h (steps m ss h)
unfolding steps
steps-Sound m [] h idle = (λ row held. held, tt, idle)
steps-Sound m (s ∷ ss) h idle =
    let next = step m s h in
    let (first, new, idle') = step-Sound m s h idle in
    let (later, rest, idle_end) = steps-Sound m ss next idle' in
    (
      λ row held. later row (first row held),
      All-Held-append (steps m ss next) (rows_of s) (added ss)
          (All-later next (steps m ss next) (rows_of s) later new) rest,
      idle_end,
    )

-- Steps, each group of them followed by a flush.
unfoldable pub flushes : ℕ → List (List Step) → History → History
flushes m [] h = h
flushes m (ss ∷ groups) h = flushes m groups (handle_noop (steps m ss h)).1

flushes-Idle :
    (m : ℕ) (groups : List (List Step)) (h : History) → Idle h → Idle (flushes m groups h)
unfolding flushes handle_noop
flushes-Idle m [] h idle = idle
flushes-Idle m (ss ∷ groups) h idle =
    flushes-Idle m groups (handle_noop (steps m ss h)).1 (steps-Sound m ss h idle).2

held-InLog :
    (row : Entry) (h : History)
    → Idle h
    → h.ok ≡ true
    → h.lost ≡ false
    → Held row h
    → InLog row h.log
held-InLog row h idle o l (inl lost) = absurd (cc (lost, l))
held-InLog row h idle o l (inr (inl w)) = w
held-InLog row h idle o l (inr (inr b)) =
    let none_left : InBacklog row [] = rw (idle o) at b in absurd none_left

all-InLog :
    (h : History) (xs : List Entry)
    → Idle h
    → h.ok ≡ true
    → h.lost ≡ false
    → All (λ row. Held row h) xs
    → All (λ row. InLog row h.log) xs
all-InLog h [] idle o l p = tt
all-InLog h (x ∷ xs) idle o l p = (held-InLog x h idle o l p.0, all-InLog h xs idle o l p.1)

noop_true : (h : History) → (handle_noop h).0 ≡ true → (h.ok ≡ true) × (h.lost ≡ false)
unfolding handle_noop
noop_true h e = ground arith

-- However the database fails and recovers, and whatever else was asked and flushed before: when
-- a flush answers true, every row that `add` put into the queue since the flush before it, in the
-- order of the queue, has been committed.
pub flush_sound :
    (backlog_max : ℕ) (setup : Bool) (stored : List Transaction) (earlier : List (List Step))
    (since : List Step)
    → let h = steps backlog_max since (flushes backlog_max earlier (new_history setup stored)) in
      (handle_noop h).0 ≡ true → All (λ row. InLog row h.log) (added since)
unfolding new_history
flush_sound m setup stored earlier since e =
    let start = flushes m earlier (new_history setup stored) in
    let idle = flushes-Idle m earlier (new_history setup stored) (λ o. refl) in
    let (later, held, idle_end) = steps-Sound m since start idle in
    let h = steps m since start in
    let (o, l) = noop_true h e in all-InLog h (added since) idle_end o l held

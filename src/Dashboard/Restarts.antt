-- ===== src/Dashboard/Restarts.antt =====
-- What a restart of the chat server does to the rows: scripts/files/live_dashboard/tracker.py.
use mathlib.Core.List.{append_assoc, append-nil}
use local_gpu_cluster.Prelude.{
  ℕ, ◌≡◌, refl, sym, ap, ◌∙◌, true, Option, some, List, [], ◌∷◌, ◌++◌, arith,
}
use local_gpu_cluster.Dashboard.Slots.{find, drop}
use local_gpu_cluster.Dashboard.Row.{interrupted, Entry, Row, finished_entry}
use local_gpu_cluster.Dashboard.Tracker.{
  Tracker, finish, slots_of, interrupt, interrupt_all, restart,
}
use local_gpu_cluster.Dashboard.Journal.{server_start, noticed, on_journal}

-- The rows as they are stored when they are cut short.
abbrev pub cut_short : ℕ → List (ℕ × Row) → List Entry
cut_short now [] = []
cut_short now ((slot, r) ∷ rows) = finished_entry r interrupted now ∷ cut_short now rows

find_first : (slot : ℕ) (r : Row) (rows : List (ℕ × Row)) → find slot ((slot, r) ∷ rows) ≡ some r
unfolding find
find_first slot r rows = ground arith

drop_first : (slot : ℕ) (r : Row) (rows : List (ℕ × Row)) → drop slot ((slot, r) ∷ rows) ≡ rows
unfolding drop
drop_first slot r rows = ground arith

finish_first :
    (slot now : ℕ) (r : Row) (rows : List (ℕ × Row)) (t : Tracker)
    → t.rows ≡ (slot, r) ∷ rows
    → ((finish slot interrupted now t).rows ≡ rows)
      × ((finish slot interrupted now t).finished
          ≡ t.finished ++ finished_entry r interrupted now ∷ [])
unfolding finish
finish_first slot now r rows t e =
    let found : find slot t.rows ≡ some r = ap (find slot) e ∙ find_first slot r rows in
    rw found (ap (drop slot) e ∙ drop_first slot r rows, refl)

interrupt-rows :
    (rows : List (ℕ × Row)) (now : ℕ) (t : Tracker)
    → t.rows ≡ rows
    → ((interrupt (slots_of rows) now t).rows ≡ [])
      × ((interrupt (slots_of rows) now t).finished ≡ t.finished ++ cut_short now rows)
unfolding interrupt
interrupt-rows [] now t e = (e, sym (append-nil t.finished))
interrupt-rows ((slot, r) ∷ rows) now t e =
    let (left, stored) = finish_first slot now r rows t e in
    let (none_left, all_stored) = interrupt-rows rows now (finish slot interrupted now t) left in
    (
      none_left,
      all_stored
          ∙ ap (λ es. es ++ cut_short now rows) stored
          ∙ append_assoc t.finished (finished_entry r interrupted now ∷ []) (cut_short now rows),
    )

-- A start of the server ends every open row as interrupted, in their order, and leaves none
-- open, no cancelled task and no idle slot; the tracker shows a restart from then on, and new
-- rows belong to the new run.
pub server_start_interrupts :
    (second : ℕ) (since : Option ℕ) (now : ℕ) (t : Tracker)
    → let u = on_journal second (record { kind = server_start; since_start_s = since }) now t in
      (u.rows ≡ [])
      × (u.finished ≡ t.finished ++ cut_short now t.rows)
      × (u.cancelled ≡ [])
      × (u.idle_since ≡ [])
      × (u.restarting ≡ true)
      × (u.server_run ≡ some now)
unfolding on_journal noticed restart interrupt_all
server_start_interrupts second since now t =
    let (none_left, all_stored) = interrupt-rows t.rows now t refl in
    (none_left, all_stored, refl, refl, refl, refl)

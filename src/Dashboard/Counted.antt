-- ===== src/Dashboard/Counted.antt =====
-- No input of the tracker loses a row: scripts/files/live_dashboard/tracker.py.
use local_gpu_cluster.Prelude.{ℕ, ◌≤◌, Bool, Option, List, [], ◌∷◌}
use local_gpu_cluster.Dashboard.Tracker.{Tracker, new_tracker, set_journal_up}
use local_gpu_cluster.Dashboard.Journal.{Event, on_journal}
use local_gpu_cluster.Dashboard.Polling.{Slot, on_slots}
use local_gpu_cluster.Dashboard.Rows.{IsGood, weigh, Kept, Kept-trans}
use local_gpu_cluster.Dashboard.JournalKept.{same-Kept, on_journal-Kept}
use local_gpu_cluster.Dashboard.PollsKept.{on_slots-Kept}

-- What the tracker is fed.
pub data Input : Type 0 where
  journal : (second : ℕ) (event : Event) (now : ℕ) → Input
  poll : (slots : Option (List Slot)) (now : ℕ) → Input
  journal_is_up : (up : Bool) → Input

unfoldable pub feed : List Input → Tracker → Tracker
feed [] t = t
feed (journal second ev now ∷ inputs) t = feed inputs (on_journal second ev now t)
feed (poll slots now ∷ inputs) t = feed inputs (on_slots slots now t)
feed (journal_is_up up ∷ inputs) t = feed inputs (set_journal_up up t)

feed-Kept : (inputs : List Input) (t : Tracker) → IsGood t → Kept t (feed inputs t)
unfolding feed set_journal_up
feed-Kept [] t g = same-Kept t g
feed-Kept (journal second ev now ∷ inputs) t g =
    Kept-trans t (on_journal second ev now t) (feed inputs (on_journal second ev now t))
      (on_journal-Kept second ev now t g) (λ k. feed-Kept inputs (on_journal second ev now t) k)
feed-Kept (poll slots now ∷ inputs) t g =
    Kept-trans t (on_slots slots now t) (feed inputs (on_slots slots now t))
      (on_slots-Kept slots now t g) (λ k. feed-Kept inputs (on_slots slots now t) k)
feed-Kept (journal_is_up up ∷ inputs) t g = feed-Kept inputs (set_journal_up up t) g

new-IsGood : (grace unreachable : ℕ) → IsGood (new_tracker grace unreachable)
unfolding new_tracker
new-IsGood grace unreachable = record { open_rows = tt; distinct = tt; stored = tt }

-- Whatever the journal and the polls say and in whatever order they come: no slot has two open
-- rows; an open row stands under its slot, is reading or generating and has no final numbers; a
-- finished row has a final status and a time, its cached and its new tokens add up to its prompt
-- where these are known, and it is marked slow by its new tokens alone. And no later input loses
-- a row or changes its run, slot or task: whatever these keys weigh, the rows that are open or
-- finished never weigh less than before.
pub rows_accounted :
    (grace unreachable : ℕ) (earlier later : List Input)
    → let t = feed earlier (new_tracker grace unreachable) in
      IsGood (feed later t) × ((w : ℕ → ℕ → ℕ → ℕ) → weigh w t ≤ weigh w (feed later t))
rows_accounted grace unreachable earlier later =
    let t = feed earlier (new_tracker grace unreachable) in
    feed-Kept later t
      (feed-Kept earlier (new_tracker grace unreachable) (new-IsGood grace unreachable)).0

-- ===== src/Dashboard/History.antt =====
-- The writer thread of scripts/files/live_dashboard/history.py. The database is the list of the
-- transactions that were committed, and how an attempt at one ends is an argument. An item of the
-- queue is handled as a whole. A row that `add` rejects sets `_lost` on the thread of the caller,
-- outside the queue: `reject` is that write where it falls between two items, and a write that
-- falls between the two statements by which a flush reads and clears `_lost` is not modelled.
use local_gpu_cluster.Prelude.{
  ℕ, zero, suc, Bool, true, false, not, ◌&&◌, List, [], ◌∷◌, ◌++◌, length, ◌==◌, if◌then◌else◌,
}
use local_gpu_cluster.Dashboard.Row.{Entry}

-- How one attempt ends: committed, an error of the data, a lock, or any other error.
pub data Attempt : Type 0 where
  committed data_error transient persistent : Attempt

-- How `_run` ends.
pub data Ran : Type 0 where
  written dropped raised : Ran

pub data Transaction : Type 0 where
  insert : (row : Entry) → Transaction
  delete_before : (cutoff : ℕ) → Transaction

pub record History : Type 0 where
  pub ok : Bool
  pub lost : Bool
  pub backlog : List Entry
  pub log : List Transaction

unfoldable pub new_history : Bool → List Transaction → History
new_history setup log = record { ok = setup; lost = false; backlog = []; log = log }

-- RETRY_BACKOFF has three delays.
abbrev pub retries : ℕ
retries = 3

abbrev pub ends_in : Ran → Attempt → Ran
ends_in after_lock committed = written
ends_in after_lock data_error = dropped
ends_in after_lock transient = after_lock
ends_in after_lock persistent = raised

-- `_run`, with this many retries left.
unfoldable pub run : ℕ → (ℕ → Attempt) → Ran
run zero attempts = ends_in dropped (attempts 0)
run (suc left) attempts = ends_in (run left attempts) (attempts (suc left))

abbrev pub drop_first : List Entry → List Entry
drop_first [] = []
drop_first (r ∷ rs) = rs

-- `_keep`: a full backlog gives up its oldest row.
unfoldable pub keep : ℕ → Entry → History → History
keep backlog_max row h =
    if length h.backlog == backlog_max
    then record h { lost = true; backlog = drop_first (h.backlog ++ row ∷ []) }
    else record h { backlog = h.backlog ++ row ∷ [] }

abbrev pub commit : Transaction → History → History
commit t h = record h { log = h.log ++ t ∷ [] }

-- What `_handle` does with a row, and with a cutoff, once `_run` has ended.
abbrev pub after_add : ℕ → Entry → Ran → History → History
after_add backlog_max row written h = commit (insert row) h
after_add backlog_max row dropped h = record h { lost = true }
after_add backlog_max row raised h = keep backlog_max row (record h { ok = false })

abbrev pub after_prune : ℕ → Ran → History → History
after_prune cutoff written h = commit (delete_before cutoff) h
after_prune cutoff dropped h = record h { lost = true }
after_prune cutoff raised h = record h { ok = false }

unfoldable pub handle_add : ℕ → Entry → (ℕ → Attempt) → History → History
handle_add backlog_max row attempts h =
    if h.ok then after_add backlog_max row (run retries attempts) h else keep backlog_max row h

unfoldable pub handle_prune : ℕ → (ℕ → Attempt) → History → History
handle_prune cutoff attempts h = if h.ok then after_prune cutoff (run retries attempts) h else h

-- The answer of a flush, and the state after it.
unfoldable pub handle_noop : History → Bool × History
handle_noop h = (h.ok && not h.lost, record h { lost = false })

-- while self._backlog and self.ok, over the rows that are still in the backlog.
unfoldable pub drain : ℕ → (ℕ → ℕ → Attempt) → ℕ → List Entry → History → History
drain backlog_max attempts i [] h = h
drain backlog_max attempts i (row ∷ rows) h =
    let next = handle_add backlog_max row (attempts i) (record h { backlog = rows }) in
    let rest = drain backlog_max attempts (suc i) rows next in if next.ok then rest else next

-- `_try_recover`, which the writer calls only while it is not ok.
unfoldable pub try_recover : ℕ → Bool → (ℕ → ℕ → Attempt) → History → History
try_recover backlog_max setup attempts h =
    if setup then drain backlog_max attempts 0 h.backlog (record h { ok = true }) else h

-- What happens between two flushes.
pub data Step : Type 0 where
  add : (row : Entry) (attempts : ℕ → Attempt) → Step
  prune : (cutoff : ℕ) (attempts : ℕ → Attempt) → Step
  recover : (setup : Bool) (attempts : ℕ → ℕ → Attempt) → Step
  -- `add` of a row without key or time, or with the queue full.
  reject : (row : Entry) → Step

abbrev pub step : ℕ → Step → History → History
step backlog_max (add row attempts) h = handle_add backlog_max row attempts h
step backlog_max (prune cutoff attempts) h = handle_prune cutoff attempts h
step backlog_max (recover setup attempts) h =
    if h.ok then h else try_recover backlog_max setup attempts h
step backlog_max (reject row) h = record h { lost = true }

unfoldable pub steps : ℕ → List Step → History → History
steps backlog_max [] h = h
steps backlog_max (s ∷ ss) h = steps backlog_max ss (step backlog_max s h)

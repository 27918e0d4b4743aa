-- ===== src/Dashboard/Tracker.antt =====
-- The state of `Tracker` in scripts/files/live_dashboard/tracker.py, its helpers and its outputs.
-- A set of tasks is a list without order.
use local_gpu_cluster.Prelude.{ℕ, Bool, true, false, Option, none, some, List, [], ◌∷◌, ◌++◌}
use local_gpu_cluster.Dashboard.Slots.{find, assign, drop}
use local_gpu_cluster.Dashboard.Row.{
  Status, interrupted, Entry, Row, no_live, new_entry, finished_entry,
}

pub record LastRow : Type 0 where
  pub prompt_tokens : Option ℕ
  pub cached_tokens : Option ℕ

pub record Tracker : Type 0 where
  pub approx_grace_s : ℕ
  pub unreachable_s : ℕ
  pub server_run : Option ℕ
  pub last_since : Option ℕ
  pub restarting : Bool
  pub journal_up : Bool
  pub unreachable_since : Option ℕ
  pub unreachable_rekeyed : Bool
  pub rows : List (ℕ × Row)
  pub cancelled : List ℕ
  pub last_done : List (ℕ × ℕ)
  pub last_row : List (ℕ × LastRow)
  pub idle_since : List (ℕ × ℕ)
  pub finished : List Entry

unfoldable pub new_tracker : ℕ → ℕ → Tracker
new_tracker approx_grace_s unreachable_s = record {
  approx_grace_s = approx_grace_s;
  unreachable_s = unreachable_s;
  server_run = none;
  last_since = none;
  restarting = false;
  journal_up = true;
  unreachable_since = none;
  unreachable_rekeyed = false;
  rows = [];
  cancelled = [];
  last_done = [];
  last_row = [];
  idle_since = [];
  finished = [];
}

-- if self.server_run is None: self.server_run = now
abbrev pub run_or : Option ℕ → ℕ → ℕ
run_or none now = now
run_or (some run) now = run

abbrev pub fresh_row : ℕ → ℕ → ℕ → ℕ → Row
fresh_row run slot task now = record { entry = new_entry run slot task now; live = no_live }

-- `_new_row`
unfoldable pub new_row : ℕ → ℕ → ℕ → Tracker → Tracker
new_row slot task now t =
    let run = run_or t.server_run now in
    record t {
      server_run = some run;
      idle_since = drop slot t.idle_since;
      rows = assign slot (fresh_row run slot task now) t.rows;
    }

abbrev pub store : ℕ → ℕ → Entry → Tracker → Tracker
store slot now e t = record t {
  rows = drop slot t.rows;
  idle_since = drop slot t.idle_since;
  last_done = assign slot now t.last_done;
  last_row =
      assign slot (record { prompt_tokens = e.prompt_tokens; cached_tokens = e.cached_tokens })
        t.last_row;
  finished = t.finished ++ e ∷ [];
}

abbrev pub finish_found : ℕ → Status → ℕ → Tracker → Option Row → Tracker
finish_found slot status now t none = record t { idle_since = drop slot t.idle_since }
finish_found slot status now t (some r) = store slot now (finished_entry r status now) t

-- `_finish`
unfoldable pub finish : ℕ → Status → ℕ → Tracker → Tracker
finish slot status now t = finish_found slot status now t (find slot t.rows)

abbrev pub slots_of : List (ℕ × Row) → List ℕ
slots_of [] = []
slots_of ((slot, r) ∷ rows) = slot ∷ slots_of rows

-- for slot in list(self.open): self._finish(slot, "interrupted", now)
unfoldable pub interrupt : List ℕ → ℕ → Tracker → Tracker
interrupt [] now t = t
interrupt (slot ∷ slots) now t = interrupt slots now (finish slot interrupted now t)

unfoldable pub interrupt_all : ℕ → Tracker → Tracker
interrupt_all now t = interrupt (slots_of t.rows) now t

-- `_restart`
unfoldable pub restart : ℕ → Tracker → Tracker
restart now t = record (interrupt_all now t) {
  idle_since = [];
  server_run = some now;
  cancelled = [];
}

unfoldable pub set_journal_up : Bool → Tracker → Tracker
set_journal_up up t = record t { journal_up = up; last_since = none }

unfoldable pub pop_finished : Tracker → List Entry × Tracker
pop_finished t = (t.finished, record t { finished = [] })

abbrev pub entries_of : List (ℕ × Row) → List Entry
entries_of [] = []
entries_of ((slot, r) ∷ rows) = r.entry ∷ entries_of rows

-- `open_rows`
unfoldable pub open_rows : Tracker → List Entry
open_rows t = entries_of t.rows

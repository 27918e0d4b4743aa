-- ===== src/Dashboard/Tests.antt =====
-- One request from its start to its release, and one cut short by a restart, under
-- scripts/files/live_dashboard/tracker.py.
use local_gpu_cluster.Prelude.{
  ℕ, ◌≤◌, ◌≡◌, refl, true, false, Option, none, some, List, [], ◌∷◌, map,
}
use local_gpu_cluster.Prelude.Int.{pos}
use local_gpu_cluster.Dashboard.Slots.{find, assign, drop, discard}
use local_gpu_cluster.Dashboard.Row.{Status, done, approx, Rate, Entry, new_entry, finished_entry}
use local_gpu_cluster.Dashboard.Tracker.{Tracker, new_tracker, new_row, finish, set_journal_up}
use local_gpu_cluster.Dashboard.Journal.{
  Kind, start, prefill, gen, prompt_eval, eval, total, release, update, noticed, on_journal,
  round_div,
}
use local_gpu_cluster.Dashboard.Polling.{Slot, see, on_slot, on_each, on_slots}
use local_gpu_cluster.Dashboard.Rows.{IsGood, weigh}
use local_gpu_cluster.Dashboard.Counted.{Input, journal, poll, journal_is_up, feed, rows_accounted}

abbrev line : Kind → ℕ → Input
line k now = journal 1000 (record { kind = k; since_start_s = none }) now

abbrev speed : Rate
speed = record { amount = 50; per = 1 }

-- 40 tokens in the slot at the end, 30 of the prompt newly read, 8 written.
abbrev request : List Input
request =
    line (start 0 7) 100
    ∷ line (prefill 0 7 16 500_000 speed) 110
    ∷ line (gen 0 7 speed) 120
    ∷ line (prompt_eval 0 7 (record { ms = 20; n = 30 })) 130
    ∷ line (eval 0 7 (record { ms = 10; n = 8 })) 130
    ∷ line (total 0 7 (record { ms = 30; n = 38 })) 130
    ∷ line (release 0 7 (some 40)) 131
    ∷ []

abbrev idle_tracker : Tracker
idle_tracker = new_tracker 10_000 10_000

abbrev stored_row : Entry
stored_row = record {
  server_run = 100;
  slot = 0;
  task = 7;
  started = 100;
  finished = some 131;
  status = done;
  prompt_tokens = some 32;
  new_prompt_tokens = some 30;
  cached_tokens = some 2;
  output_tokens = some 8;
  prefill_tok_s = some (record { amount = 30; per = 20 });
  gen_tok_s = some (record { amount = 8; per = 10 });
  duration_s = some (pos 30);
  draft_accept = none;
  slow = false;
}

stores : (feed request idle_tracker).finished ≡ stored_row ∷ []
unfolding feed new_tracker on_journal noticed update new_row new_entry finish finished_entry find
    assign drop discard round_div
stores = refl

-- With the journal silent, a poll alone opens a row, and an idle slot ends it.
abbrev busy : Slot
busy = record {
  id = 1;
  is_processing = true;
  id_task = 9;
  n_decoded = 3;
  n_prompt_tokens = 5;
  cache = none;
}

abbrev idle : Slot
idle = record busy { is_processing = false }

abbrev polled : List Input
polled = journal_is_up false ∷ poll (some (busy ∷ [])) 200 ∷ poll (some (idle ∷ [])) 210 ∷ []

ends_approx :
    map {B = ℕ × Status × Option ℕ}
      (λ e. (e.task, e.status, e.output_tokens))
      (feed polled idle_tracker).finished
    ≡ (9, approx, some 3) ∷ []
unfolding feed new_tracker on_slots on_each on_slot see new_row new_entry finish finished_entry find
    assign drop set_journal_up
ends_approx = refl

rows_accounted_example :
    let t = feed request idle_tracker in
    IsGood (feed polled t) × ((w : ℕ → ℕ → ℕ → ℕ) → weigh w t ≤ weigh w (feed polled t))
rows_accounted_example = rows_accounted 10_000 10_000 request polled

abbrev begun : Tracker
begun = feed (line (start 0 7) 100 ∷ []) idle_tracker

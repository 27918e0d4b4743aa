-- ===== src/Dashboard/Journal.antt =====
-- `Tracker.on_journal` of scripts/files/live_dashboard/tracker.py.
use Prim.Native.Nat.{◌/◌, ◌%◌}
use local_gpu_cluster.Prelude.{
  ℕ, ◌+◌, ◌*◌, Bool, true, false, ◌||◌, Option, none, some, ltb, ◌==◌, if◌then◌else◌,
}
use local_gpu_cluster.Dashboard.Slots.{find, assign, member, include, discard}
use local_gpu_cluster.Dashboard.Row.{Status, generating, done, approx, cancelled, Rate, Timing, Row}
use local_gpu_cluster.Dashboard.Tracker.{Tracker, run_or, new_row, finish, restart}

-- What a line of the journal says. `progress` is in millionths.
pub data Kind : Type 0 where
  server_start server_ready : Kind
  cancel : (task : ℕ) → Kind
  start : (slot task : ℕ) → Kind
  prefill : (slot task n progress : ℕ) (tok_s : Rate) → Kind
  gen : (slot task : ℕ) (tok_s : Rate) → Kind
  prompt_eval eval total : (slot task : ℕ) (timing : Timing) → Kind
  draft : (slot task accepted generated : ℕ) → Kind
  release : (slot task : ℕ) (n : Option ℕ) → Kind

pub record Event : Type 0 where
  pub kind : Kind
  pub since_start_s : Option ℕ

abbrev pub one : ℕ
one = 1_000_000

abbrev pub is_even : ℕ → Bool
is_even n = n % 2 == 0

-- round(a / b): to the nearest whole number, a half to the even one.
unfoldable pub round_div : ℕ → ℕ → ℕ
round_div a b =
    let q = a / b in
    let twice = 2 * (a % b) in
    if ltb twice b then q else if ltb b twice then q + 1 else if is_even q then q else q + 1

-- since < self.last_since - second
abbrev pub backwards : ℕ → Option ℕ → Option ℕ → Bool
backwards second (some since) (some last) = ltb (since + second) last
backwards second _ _ = false

abbrev pub is_start : Kind → Bool
is_start server_start = true
is_start _ = false

-- kind in ("start", "prefill", "gen", "prompt_eval", "release")
abbrev pub is_serving : Kind → Bool
is_serving (start s k) = true
is_serving (prefill s k n p v) = true
is_serving (gen s k v) = true
is_serving (prompt_eval s k d) = true
is_serving (release s k n) = true
is_serving _ = false

abbrev pub is_generating : Status → Bool
is_generating generating = true
is_generating _ = false

-- A change of the row that is open for the task, if one is.
abbrev pub update_found : ℕ → ℕ → (Row → Row) → Tracker → Option Row → Tracker
update_found slot task f t none = t
update_found slot task f t (some r) =
    if r.entry.task == task then record t { rows = assign slot (f r) t.rows } else t

unfoldable pub update : ℕ → ℕ → (Row → Row) → Tracker → Tracker
update slot task f t = update_found slot task f t (find slot t.rows)

-- The branches of the row's events.
abbrev pub on_prefill : ℕ → ℕ → Rate → Row → Row
on_prefill n progress tok_s r = if is_generating r.entry.status then r else record r {
  live = record r.live {
    progress = some progress;
    processed = some n;
    live_tok_s = some tok_s;
    ctx = some n;
    prompt_est = if ltb 0 progress then some (round_div (n * one) progress) else r.live.prompt_est;
  };
}

abbrev pub on_gen : Rate → Row → Row
on_gen tok_s r = record {
  entry = record r.entry { status = generating };
  live = record r.live { progress = some one; live_tok_s = some tok_s };
}

abbrev pub on_prompt_eval : Timing → Row → Row
on_prompt_eval d r = record r { live = record r.live { pe = some d } }

abbrev pub on_eval : Timing → Row → Row
on_eval d r = record r { live = record r.live { eval = some d } }

abbrev pub on_total : Timing → Row → Row
on_total d r = record r { live = record r.live { total = some d } }

abbrev pub on_draft : ℕ → ℕ → Row → Row
on_draft accepted generated r = record r {
  entry = record r.entry {
    draft_accept =
        if ltb 0 generated then some (record { amount = accepted; per = generated }) else none;
  };
}

abbrev pub done_or_approx : Option Timing → Status
done_or_approx none = approx
done_or_approx (some d) = done

abbrev pub release_status : Bool → Option Timing → Status
release_status was_cancelled timing = if was_cancelled then cancelled else done_or_approx timing

abbrev pub on_release : ℕ → ℕ → Option ℕ → ℕ → Tracker → Option Row → Tracker
on_release slot task n now t none = t
on_release slot task n now t (some r) =
    if r.entry.task == task
    then finish slot (release_status (member task t.cancelled) r.live.eval) now (record t {
      rows = assign slot (record r { live = record r.live { rel_n = n } }) t.rows;
      cancelled = discard task t.cancelled;
    })
    else t

-- The slot is adopted where its row is already open, and taken over where another one is.
abbrev pub on_start : ℕ → ℕ → ℕ → Tracker → Option Row → Tracker
on_start slot task now t none = new_row slot task now t
on_start slot task now t (some r) =
    if r.entry.task == task then t else new_row slot task now (finish slot approx now t)

abbrev pub on_kind : Kind → ℕ → Tracker → Tracker
on_kind server_start now t = t
on_kind server_ready now t = t
on_kind (cancel task) now t = record t { cancelled = include task t.cancelled }
on_kind (start slot task) now t = on_start slot task now t (find slot t.rows)
on_kind (prefill slot task n progress tok_s) now t =
    update slot task (on_prefill n progress tok_s) t
on_kind (gen slot task tok_s) now t = update slot task (on_gen tok_s) t
on_kind (prompt_eval slot task d) now t = update slot task (on_prompt_eval d) t
on_kind (eval slot task d) now t = update slot task (on_eval d) t
on_kind (total slot task d) now t = update slot task (on_total d) t
on_kind (draft slot task accepted generated) now t =
    update slot task (on_draft accepted generated) t
on_kind (release slot task n) now t = on_release slot task n now t (find slot t.rows)

-- The restart that a start of the server, or a prefix that runs backwards, stands for.
unfoldable pub noticed : ℕ → Event → ℕ → Tracker → Tracker
noticed second ev now t =
    if is_start ev.kind || backwards second ev.since_start_s t.last_since then restart now t else t

abbrev pub serve_kind : Kind → ℕ → Tracker → Tracker
serve_kind server_start now t = record t { restarting = true }
serve_kind server_ready now t = record t { restarting = false }
serve_kind k now t = on_kind k now (record t {
  restarting = if is_serving k then false else t.restarting;
  server_run = some (run_or t.server_run now);
})

unfoldable pub on_journal : ℕ → Event → ℕ → Tracker → Tracker
on_journal second ev now t =
    serve_kind ev.kind now (record (noticed second ev now t) { last_since = ev.since_start_s })

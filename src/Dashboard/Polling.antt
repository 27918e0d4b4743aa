-- ===== src/Dashboard/Polling.antt =====
-- `Tracker.on_slots` of scripts/files/live_dashboard/tracker.py: what a poll of /slots changes.
use local_gpu_cluster.Prelude.{
  ℕ, ◌+◌, ◌-◌, Bool, true, false, not, ◌&&◌, ◌||◌, Option, none, some, List, [], ◌∷◌, ltb, leb,
  ◌==◌, if◌then◌else◌,
}
use local_gpu_cluster.Dashboard.Slots.{find, assign, drop, or_default}
use local_gpu_cluster.Dashboard.Row.{generating, approx, Rate, Row}
use local_gpu_cluster.Dashboard.Tracker.{Tracker, new_row, finish, interrupt_all}
use local_gpu_cluster.Dashboard.Journal.{one, is_generating}

pub record Slot : Type 0 where
  pub id : ℕ
  pub is_processing : Bool
  pub id_task : ℕ
  pub n_decoded : ℕ
  pub n_prompt_tokens : ℕ
  pub cache : Option ℕ

-- self.unreachable_since, set to now where it is None
abbrev pub since_or : Option ℕ → ℕ → ℕ
since_or none now = now
since_or (some s) now = s

-- Once in each time that the server is out of reach.
abbrev pub rekey : ℕ → Tracker → Tracker
rekey now t =
    if t.unreachable_rekeyed
    then t
    else record t { unreachable_rekeyed = true; server_run = some now; cancelled = [] }

-- slots is None
unfoldable pub on_unreachable : ℕ → Tracker → Tracker
on_unreachable now t =
    let since = since_or t.unreachable_since now in
    let known = record t { unreachable_since = some since } in
    if not t.journal_up && leb (since + t.unreachable_s) now
    then rekey now (interrupt_all now known)
    else known

-- max(0, decoded since the last poll) / the time since then, where that has passed
abbrev pub measured : ℕ → ℕ → Option ℕ → Option ℕ → Option Rate → Option Rate
measured n now (some dec) (some dec_t) old =
    if ltb dec_t now then some (record { amount = n - dec; per = now - dec_t }) else old
measured n now _ _ old = old

abbrev pub see_decoded : Slot → ℕ → Row → Row
see_decoded s now r =
    let old = if is_generating r.entry.status then r.live.live_tok_s else none in
    record {
      entry = record r.entry { status = generating };
      live = record r.live {
        progress = some one;
        live_tok_s = measured s.n_decoded now r.live.dec r.live.dec_t old;
        dec = some s.n_decoded;
        dec_t = some now;
      };
    }

abbrev pub see_context : Slot → Bool → Row → Row
see_context s journal_up r = record r {
  live = record r.live {
    cache = s.cache;
    ctx = if ltb 0 s.n_decoded || not journal_up then some s.n_prompt_tokens else r.live.ctx;
  };
}

-- The assignments to the row of a slot that is processing.
unfoldable pub see : Slot → Bool → ℕ → Row → Row
see s journal_up now r =
    let seen = see_context s journal_up r in
    if ltb 0 s.n_decoded then see_decoded s now seen else seen

-- The row that is open by now, if there is one.
abbrev pub see_row : Slot → ℕ → Tracker → Option Row → Tracker
see_row s now t none = t
see_row s now t (some r) = record t {
  idle_since = drop s.id t.idle_since;
  rows = assign s.id (see s t.journal_up now r) t.rows;
}

abbrev pub open_unless_up : Slot → ℕ → Tracker → Tracker
open_unless_up s now t = if t.journal_up then t else new_row s.id s.id_task now t

abbrev pub see_new : Slot → ℕ → Tracker → Tracker
see_new s now t = see_row s now t (find s.id t.rows)

-- With the journal up, its start and release sort out a slot that has changed its task.
abbrev pub see_processing : Slot → ℕ → Tracker → Option Row → Tracker
see_processing s now t none = see_new s now (open_unless_up s now t)
see_processing s now t (some r) =
    if r.entry.task == s.id_task
    then see_row s now t (some r)
    else if t.journal_up
    then t
    else see_new s now (open_unless_up s now (finish s.id approx now t))

abbrev pub see_idle : Slot → ℕ → Tracker → Option Row → Tracker
see_idle s now t none = t
see_idle s now t (some r) =
    let first = or_default now (find s.id t.idle_since) in
    let known = record t { idle_since = assign s.id first t.idle_since } in
    if not t.journal_up || leb (first + t.approx_grace_s) now
    then finish s.id approx now known
    else known

unfoldable pub on_slot : Slot → ℕ → Tracker → Tracker
on_slot s now t =
    if s.is_processing
    then see_processing s now (record t { restarting = false }) (find s.id t.rows)
    else see_idle s now t (find s.id t.rows)

unfoldable pub on_each : List Slot → ℕ → Tracker → Tracker
on_each [] now t = t
on_each (s ∷ ss) now t = on_each ss now (on_slot s now t)

unfoldable pub on_slots : Option (List Slot) → ℕ → Tracker → Tracker
on_slots none now t = on_unreachable now t
on_slots (some ss) now t =
    on_each ss now (record t { unreachable_since = none; unreachable_rekeyed = false })

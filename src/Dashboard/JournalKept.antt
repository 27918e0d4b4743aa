-- ===== src/Dashboard/JournalKept.antt =====
-- Under scripts/files/live_dashboard/tracker.py.
-- That on_journal of scripts/files/live_dashboard/tracker.py keeps the rows.
use local_gpu_cluster.Prelude.{
  ℕ, ◌≡◌, refl, Bool, true, false, ◌||◌, Option, none, some, List, [], ◌∷◌, ◌==◌, if◌then◌else◌,
  arith, Option-cases, Bool-cases, inl, inr,
}
use local_gpu_cluster.Dashboard.Slots.{find, assign, member, discard}
use local_gpu_cluster.Dashboard.Row.{approx, interrupted, generating, Rate, Timing, Entry, Row}
use local_gpu_cluster.Dashboard.Tracker.{
  Tracker, run_or, new_row, finish, slots_of, interrupt, interrupt_all, restart,
}
use local_gpu_cluster.Dashboard.Journal.{
  is_serving, Kind, server_start, server_ready, cancel, start, prefill, gen, prompt_eval, eval,
  total, draft, release, Event, is_start, backwards, is_generating, update, on_prefill, on_gen,
  on_prompt_eval, on_eval, on_total, on_draft, release_status, on_release, on_start, on_kind,
  noticed, serve_kind, on_journal,
}
use local_gpu_cluster.Dashboard.Rows.{
  IsOpen, IsFinal, IsGood, Kept, finish-Kept, finish-clears, new_row-Kept, change-Kept, find-IsOpen,
  Kept-trans,
}

pub same-Kept : (t : Tracker) → IsGood t → Kept t t
same-Kept t g = (g, λ w. omega arith)

pub interrupt-Kept :
    (slots : List ℕ) (now : ℕ) (t : Tracker) → IsGood t → Kept t (interrupt slots now t)
unfolding interrupt
interrupt-Kept [] now t g = same-Kept t g
interrupt-Kept (s ∷ slots) now t g =
    Kept-trans t (finish s interrupted now t) (interrupt slots now (finish s interrupted now t))
      (finish-Kept s now interrupted t tt g)
      (λ k. interrupt-Kept slots now (finish s interrupted now t) k)

pub interrupt_all-Kept : (now : ℕ) (t : Tracker) → IsGood t → Kept t (interrupt_all now t)
unfolding interrupt_all
interrupt_all-Kept now t g = interrupt-Kept (slots_of t.rows) now t g

pub restart-Kept : (now : ℕ) (t : Tracker) → IsGood t → Kept t (restart now t)
unfolding restart
restart-Kept now t g = interrupt_all-Kept now t g

-- A change of a row keeps its key and leaves an open row open.
abbrev pub Gentle : (Row → Row) → Type 0
Gentle f =
    (r : Row) (slot : ℕ)
    → IsOpen slot r.entry
    → ((f r).entry.server_run ≡ r.entry.server_run)
      × ((f r).entry.task ≡ r.entry.task)
      × IsOpen slot (f r).entry

pub update-Kept :
    (slot task : ℕ) (f : Row → Row) (t : Tracker)
    → Gentle f
    → IsGood t
    → Kept t (update slot task f t)
unfolding update
update-Kept slot task f t gentle g = elim (Option-cases (find slot t.rows)) [
  | inl e ↦ rw e (same-Kept t g)
  | inr (r, e) ↦ rw e (elim (Bool-cases (r.entry.task == task)) [
    | inl y ↦
        let (run, same, o) = gentle r slot (find-IsOpen slot r t.rows g.open_rows e) in
        rw y (change-Kept slot r (f r) t e run same o g)
    | inr n ↦ rw n (same-Kept t g)
  ])
]

pub on_prefill-Gentle : (n progress : ℕ) (v : Rate) → Gentle (on_prefill n progress v)
on_prefill-Gentle n progress v r slot o = elim (Bool-cases (is_generating r.entry.status)) [
  | inl y ↦ rw y (refl, refl, o)
  | inr y ↦ rw y (refl, refl, o)
]

pub generating-IsOpen :
    (slot : ℕ) (e : Entry) → IsOpen slot e → IsOpen slot (record e { status = generating })
generating-IsOpen slot e o = record {
  placed = o.placed;
  running = tt;
  unfinished = o.unfinished;
  no_prompt = o.no_prompt;
  no_new = o.no_new;
  no_cached = o.no_cached;
}

pub on_draft-Gentle : (a n : ℕ) → Gentle (on_draft a n)
on_draft-Gentle a n r slot o = (
  refl,
  refl,
  record {
    placed = o.placed;
    running = o.running;
    unfinished = o.unfinished;
    no_prompt = o.no_prompt;
    no_new = o.no_new;
    no_cached = o.no_cached;
  },
)

pub release-IsFinal : (was : Bool) (timing : Option Timing) → IsFinal (release_status was timing)
release-IsFinal true timing = tt
release-IsFinal false none = tt
release-IsFinal false (some d) = tt

pub on_release-Kept :
    (slot task : ℕ) (n : Option ℕ) (now : ℕ) (t : Tracker)
    → IsGood t
    → Kept t (on_release slot task n now t (find slot t.rows))
on_release-Kept slot task n now t g = elim (Option-cases (find slot t.rows)) [
  | inl e ↦ rw e (same-Kept t g)
  | inr (r, e) ↦ rw e (elim (Bool-cases (r.entry.task == task)) [
    | inl y ↦
        let changed = record r { live = record r.live { rel_n = n } } in
        let held = record t {
          rows = assign slot changed t.rows;
          cancelled = discard task t.cancelled;
        } in
        let status = release_status (member task t.cancelled) r.live.eval in
        rw y (
          Kept-trans t held (finish slot status now held)
            (change-Kept slot r changed t e refl refl (find-IsOpen slot r t.rows g.open_rows e) g)
            (finish-Kept slot now status held
              (release-IsFinal (member task t.cancelled) r.live.eval)))
    | inr k ↦ rw k (same-Kept t g)
  ])
]

pub finish_then_new-Kept :
    (slot task now : ℕ) (t : Tracker)
    → IsGood t
    → Kept t (new_row slot task now (finish slot approx now t))
finish_then_new-Kept slot task now t g =
    Kept-trans t (finish slot approx now t) (new_row slot task now (finish slot approx now t))
      (finish-Kept slot now approx t tt g)
      (new_row-Kept slot task now (finish slot approx now t) (finish-clears slot now approx t g))

pub on_start-Kept :
    (slot task now : ℕ) (t : Tracker)
    → IsGood t
    → Kept t (on_start slot task now t (find slot t.rows))
on_start-Kept slot task now t g = elim (Option-cases (find slot t.rows)) [
  | inl e ↦ rw e (new_row-Kept slot task now t e g)
  | inr (r, e) ↦ rw e (elim (Bool-cases (r.entry.task == task)) [
    | inl y ↦ rw y (same-Kept t g)
    | inr n ↦ rw n (finish_then_new-Kept slot task now t g)
  ])
]

pub on_kind-Kept : (k : Kind) (now : ℕ) (t : Tracker) → IsGood t → Kept t (on_kind k now t)
on_kind-Kept server_start now t g = same-Kept t g
on_kind-Kept server_ready now t g = same-Kept t g
on_kind-Kept (cancel task) now t g = same-Kept t g
on_kind-Kept (start slot task) now t g = on_start-Kept slot task now t g
on_kind-Kept (prefill slot task n p v) now t g =
    update-Kept slot task (on_prefill n p v) t (on_prefill-Gentle n p v) g
on_kind-Kept (gen slot task v) now t g =
    update-Kept slot task (on_gen v) t (λ r s o. (refl, refl, generating-IsOpen s r.entry o)) g
on_kind-Kept (prompt_eval slot task d) now t g =
    update-Kept slot task (on_prompt_eval d) t (λ r s o. (refl, refl, o)) g
on_kind-Kept (eval slot task d) now t g =
    update-Kept slot task (on_eval d) t (λ r s o. (refl, refl, o)) g
on_kind-Kept (total slot task d) now t g =
    update-Kept slot task (on_total d) t (λ r s o. (refl, refl, o)) g
on_kind-Kept (draft slot task a n) now t g =
    update-Kept slot task (on_draft a n) t (on_draft-Gentle a n) g
on_kind-Kept (release slot task n) now t g = on_release-Kept slot task n now t g

pub noticed-Kept :
    (second : ℕ) (ev : Event) (now : ℕ) (t : Tracker) → IsGood t → Kept t (noticed second ev now t)
unfolding noticed
noticed-Kept second ev now t g =
    elim (Bool-cases (is_start ev.kind || backwards second ev.since_start_s t.last_since)) [
      | inl y ↦ rw y (restart-Kept now t g)
      | inr n ↦ rw n (same-Kept t g)
    ]

pub serve_kind-Kept : (k : Kind) (now : ℕ) (t : Tracker) → IsGood t → Kept t (serve_kind k now t)
serve_kind-Kept server_start now t g = same-Kept t g
serve_kind-Kept server_ready now t g = same-Kept t g
serve_kind-Kept k now t g =
    on_kind-Kept k now
      (record t {
        restarting = if is_serving k then false else t.restarting;
        server_run = some (run_or t.server_run now);
      })
      g

pub on_journal-Kept :
    (second : ℕ) (ev : Event) (now : ℕ) (t : Tracker)
    → IsGood t
    → Kept t (on_journal second ev now t)
unfolding on_journal
on_journal-Kept second ev now t g =
    Kept-trans t (noticed second ev now t) (on_journal second ev now t)
      (noticed-Kept second ev now t g)
      (λ k.
        serve_kind-Kept ev.kind now
          (record (noticed second ev now t) { last_since = ev.since_start_s }) k)

-- A poll.

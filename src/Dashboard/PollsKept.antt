-- ===== src/Dashboard/PollsKept.antt =====
-- Under scripts/files/live_dashboard/tracker.py.
-- That on_slots of scripts/files/live_dashboard/tracker.py keeps the rows.
use local_gpu_cluster.Prelude.{
  ℕ, ◌+◌, ◌≡◌, refl, Bool, true, false, not, ◌&&◌, ◌||◌, Option, none, some, List, [], ◌∷◌, ◌==◌,
  leb, ltb, if◌then◌else◌, Bool-cases, inl, inr,
}
use local_gpu_cluster.Dashboard.Slots.{find, assign, or_default}
use local_gpu_cluster.Dashboard.Row.{approx, Row}
use local_gpu_cluster.Dashboard.Tracker.{Tracker, new_row, finish, interrupt_all}
use local_gpu_cluster.Dashboard.Polling.{
  Slot, since_or, on_unreachable, see, see_row, open_unless_up, see_new, see_processing, see_idle,
  on_slot, on_each, on_slots,
}
use local_gpu_cluster.Dashboard.Rows.{
  IsGood, Kept, finish-Kept, finish-clears, new_row-Kept, change-Kept, find-IsOpen, Kept-trans,
}
use local_gpu_cluster.Dashboard.JournalKept.{
  same-Kept, interrupt_all-Kept, Gentle, generating-IsOpen,
}

pub on_unreachable-Kept : (now : ℕ) (t : Tracker) → IsGood t → Kept t (on_unreachable now t)
unfolding on_unreachable
on_unreachable-Kept now t g =
    let since = since_or t.unreachable_since now in
    let known = record t { unreachable_since = some since } in
    elim (Bool-cases (not t.journal_up && leb (since + t.unreachable_s) now)) [
      | inl y ↦ rw y (elim (Bool-cases ((interrupt_all now known).unreachable_rekeyed)) [
        | inl k ↦ rw k (interrupt_all-Kept now known g)
        | inr k ↦ rw k (interrupt_all-Kept now known g)
      ])
      | inr n ↦ rw n (same-Kept t g)
    ]

pub see-Gentle : (s : Slot) (up : Bool) (now : ℕ) → Gentle (see s up now)
unfolding see
see-Gentle s up now r slot o = elim (Bool-cases (ltb 0 s.n_decoded)) [
  | inl y ↦ rw y (refl, refl, generating-IsOpen slot r.entry o)
  | inr n ↦ rw n (refl, refl, o)
]

pub see_row-Kept :
    (s : Slot) (now : ℕ) (t : Tracker) (o : Option Row)
    → find s.id t.rows ≡ o
    → IsGood t
    → Kept t (see_row s now t o)
see_row-Kept s now t none e g = same-Kept t g
see_row-Kept s now t (some r) e g =
    let (run, same, o) =
      see-Gentle s t.journal_up now r s.id (find-IsOpen s.id r t.rows g.open_rows e) in
    change-Kept s.id r (see s t.journal_up now r) t e run same o g

pub if-Kept : (b : Bool) (t x y : Tracker) → Kept t x → Kept t y → Kept t (if b then x else y)
if-Kept true t x y h k = h
if-Kept false t x y h k = k

pub see_new-Kept :
    (s : Slot) (now : ℕ) (t : Tracker)
    → find s.id t.rows ≡ none
    → IsGood t
    → Kept t (see_new s now (open_unless_up s now t))
see_new-Kept s now t e g =
    let opened = open_unless_up s now t in
    Kept-trans t opened (see_new s now opened)
      (if-Kept t.journal_up t t (new_row s.id s.id_task now t) (same-Kept t g)
        (new_row-Kept s.id s.id_task now t e g))
      (λ k. see_row-Kept s now opened (find s.id opened.rows) refl k)

pub see_processing-Kept :
    (s : Slot) (now : ℕ) (t : Tracker) (o : Option Row)
    → find s.id t.rows ≡ o
    → IsGood t
    → Kept t (see_processing s now t o)
see_processing-Kept s now t none e g = see_new-Kept s now t e g
see_processing-Kept s now t (some r) e g = elim (Bool-cases (r.entry.task == s.id_task)) [
  | inl y ↦ rw y (see_row-Kept s now t (some r) e g)
  | inr n ↦ rw n (
      if-Kept t.journal_up t t (see_new s now (open_unless_up s now (finish s.id approx now t)))
        (same-Kept t g)
        (Kept-trans t (finish s.id approx now t)
          (see_new s now (open_unless_up s now (finish s.id approx now t)))
          (finish-Kept s.id now approx t tt g)
          (λ k.
            see_new-Kept s now (finish s.id approx now t) (finish-clears s.id now approx t g) k)))
]

pub see_idle-Kept :
    (s : Slot) (now : ℕ) (t : Tracker) (o : Option Row) → IsGood t → Kept t (see_idle s now t o)
see_idle-Kept s now t none g = same-Kept t g
see_idle-Kept s now t (some r) g =
    let first = or_default now (find s.id t.idle_since) in
    let known = record t { idle_since = assign s.id first t.idle_since } in
    elim (Bool-cases (not t.journal_up || leb (first + t.approx_grace_s) now)) [
      | inl y ↦ rw y (finish-Kept s.id now approx known tt g)
      | inr n ↦ rw n (same-Kept t g)
    ]

pub on_slot-Kept : (s : Slot) (now : ℕ) (t : Tracker) → IsGood t → Kept t (on_slot s now t)
unfolding on_slot
on_slot-Kept s now t g =
    let here = find s.id t.rows in
    if-Kept s.is_processing t (see_processing s now (record t { restarting = false }) here)
      (see_idle s now t here)
      (see_processing-Kept s now (record t { restarting = false }) here refl g)
      (see_idle-Kept s now t here g)

pub on_each-Kept : (ss : List Slot) (now : ℕ) (t : Tracker) → IsGood t → Kept t (on_each ss now t)
unfolding on_each
on_each-Kept [] now t g = same-Kept t g
on_each-Kept (s ∷ ss) now t g =
    Kept-trans t (on_slot s now t) (on_each ss now (on_slot s now t)) (on_slot-Kept s now t g)
      (λ k. on_each-Kept ss now (on_slot s now t) k)

pub on_slots-Kept :
    (o : Option (List Slot)) (now : ℕ) (t : Tracker) → IsGood t → Kept t (on_slots o now t)
unfolding on_slots
on_slots-Kept none now t g = on_unreachable-Kept now t g
on_slots-Kept (some ss) now t g =
    on_each-Kept ss now (record t { unreachable_since = none; unreachable_rekeyed = false }) g

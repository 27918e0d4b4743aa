-- ===== src/Dashboard/Held.antt =====
-- Under scripts/files/live_dashboard/history.py.
-- What History of scripts/files/live_dashboard/history.py holds of a row it was given.
use local_gpu_cluster.Prelude.{
  if_either, ℕ, ◌≡◌, refl, Bool, true, false, List, [], ◌∷◌, ◌++◌, length, ◌==◌, if◌then◌else◌, ◌⊎◌,
  inl, inr, Any, Bool-cases,
}
use local_gpu_cluster.Dashboard.Row.{Entry}
use local_gpu_cluster.Dashboard.History.{
  Attempt, Ran, written, dropped, raised, Transaction, insert, delete_before, History, retries, run,
  keep, commit, after_add, after_prune, handle_add, handle_prune,
}

abbrev pub InLog : Entry → List Transaction → Type 0
InLog row log = Any (λ t. t ≡ insert row) log

abbrev pub InBacklog : Entry → List Entry → Type 0
InBacklog row rows = Any (λ r. r ≡ row) rows

-- A row is written or waits, unless a loss is noted.
abbrev pub Held : Entry → History → Type 0
Held row h = (h.lost ≡ true) ⊎ (InLog row h.log ⊎ InBacklog row h.backlog)

pub Any-left : (P : Entry → Type 0) (xs ys : List Entry) → Any P xs → Any P (xs ++ ys)
Any-left P (x ∷ xs) ys (inl p) = inl p
Any-left P (x ∷ xs) ys (inr r) = inr (Any-left P xs ys r)
Any-left P [] ys h = absurd h

pub Any-last : (P : Entry → Type 0) (xs : List Entry) (y : Entry) → P y → Any P (xs ++ y ∷ [])
Any-last P [] y p = inl p
Any-last P (x ∷ xs) y p = inr (Any-last P xs y p)

pub InLog-left : (row : Entry) (xs ys : List Transaction) → InLog row xs → InLog row (xs ++ ys)
InLog-left row (x ∷ xs) ys (inl p) = inl p
InLog-left row (x ∷ xs) ys (inr r) = inr (InLog-left row xs ys r)
InLog-left row [] ys h = absurd h

pub InLog-last : (row : Entry) (xs : List Transaction) → InLog row (xs ++ insert row ∷ [])
InLog-last row [] = inl refl
InLog-last row (x ∷ xs) = inr (InLog-last row xs)

-- One step of the writer forgets no row that is held.
pub keep-Held :
    (backlog_max : ℕ) (new row : Entry) (h : History)
    → Held row h
    → Held row (keep backlog_max new h)
unfolding keep
keep-Held m new row h held = elim (Bool-cases (length h.backlog == m)) [
  | inl y ↦ rw y (inl refl)
  | inr n ↦ rw n (elim held [
    | inl l ↦ inl l
    | inr (inl w) ↦ inr (inl w)
    | inr (inr b) ↦ inr (inr (Any-left (λ r. r ≡ row) h.backlog (new ∷ []) b))
  ])
]

pub keep-new : (backlog_max : ℕ) (new : Entry) (h : History) → Held new (keep backlog_max new h)
unfolding keep
keep-new m new h = elim (Bool-cases (length h.backlog == m)) [
  | inl y ↦ rw y (inl refl)
  | inr n ↦ rw n (inr (inr (Any-last (λ r. r ≡ new) h.backlog new refl)))
]

pub commit-Held : (t : Transaction) (row : Entry) (h : History) → Held row h → Held row (commit t h)
commit-Held t row h (inl l) = inl l
commit-Held t row h (inr (inl w)) = inr (inl (InLog-left row h.log (t ∷ []) w))
commit-Held t row h (inr (inr b)) = inr (inr b)

pub if_both : (P : History → Type 0) (b : Bool) (x y : History) → P x → P y → P (if b then x else y)
if_both P true x y p q = p
if_both P false x y p q = q

pub after_add-Held :
    (m : ℕ) (new row : Entry) (ran : Ran) (h : History)
    → Held row h
    → Held row (after_add m new ran h)
after_add-Held m new row written h held = commit-Held (insert new) row h held
after_add-Held m new row dropped h held = inl refl
after_add-Held m new row raised h held = keep-Held m new row (record h { ok = false }) held

pub handle_add-Held :
    (m : ℕ) (new row : Entry) (attempts : ℕ → Attempt) (h : History)
    → Held row h
    → Held row (handle_add m new attempts h)
unfolding handle_add
handle_add-Held m new row attempts h held =
    if_both (Held row) h.ok (after_add m new (run retries attempts) h) (keep m new h)
      (after_add-Held m new row (run retries attempts) h held) (keep-Held m new row h held)

pub after_add-new :
    (m : ℕ) (new : Entry) (ran : Ran) (h : History) → Held new (after_add m new ran h)
after_add-new m new written h = inr (inl (InLog-last new h.log))
after_add-new m new dropped h = inl refl
after_add-new m new raised h = keep-new m new (record h { ok = false })

pub handle_add-new :
    (m : ℕ) (new : Entry) (attempts : ℕ → Attempt) (h : History)
    → Held new (handle_add m new attempts h)
unfolding handle_add
handle_add-new m new attempts h =
    if_both (Held new) h.ok (after_add m new (run retries attempts) h) (keep m new h)
      (after_add-new m new (run retries attempts) h) (keep-new m new h)

pub handle_prune-Held :
    (cutoff : ℕ) (row : Entry) (attempts : ℕ → Attempt) (h : History)
    → Held row h
    → Held row (handle_prune cutoff attempts h)
unfolding handle_prune
handle_prune-Held cutoff row attempts h held =
    if_both (Held row) h.ok (after_prune cutoff (run retries attempts) h) h
      (ended (run retries attempts)) held
  where
    ended : (ran : Ran) → Held row (after_prune cutoff ran h)
    ended written = commit-Held (delete_before cutoff) row h held
    ended dropped = inl refl
    ended raised = held

-- A writer that is still ok has left the backlog alone, and was ok before.
pub keep-ok : (m : ℕ) (new : Entry) (h : History) → (keep m new h).ok ≡ h.ok
unfolding keep
keep-ok m new h = elim (Bool-cases (length h.backlog == m)) [ inl y ↦ rw y | inr n ↦ rw n ]

-- If the second is ok, the first was, with the same backlog.
abbrev pub StillOk : History → History → Type 0
StillOk h u = u.ok ≡ true → (h.ok ≡ true) × (u.backlog ≡ h.backlog)

pub handle_add-StillOk :
    (m : ℕ) (new : Entry) (attempts : ℕ → Attempt) (h : History)
    → StillOk h (handle_add m new attempts h)
unfolding handle_add
handle_add-StillOk m new attempts h =
    if_either (StillOk h) h.ok (after_add m new (run retries attempts) h) (keep m new h)
      (ended (run retries attempts)) (λ n e. absurd (cc (e, keep-ok m new h, n)))
  where
    ended : (ran : Ran) → h.ok ≡ true → StillOk h (after_add m new ran h)
    ended written y e = (y, refl)
    ended dropped y e = (y, refl)
    ended raised y e = absurd (cc (e, keep-ok m new (record h { ok = false })))

pub handle_prune-StillOk :
    (cutoff : ℕ) (attempts : ℕ → Attempt) (h : History) → StillOk h (handle_prune cutoff attempts h)
unfolding handle_prune
handle_prune-StillOk cutoff attempts h =
    if_either (StillOk h) h.ok (after_prune cutoff (run retries attempts) h) h
      (ended (run retries attempts)) (λ n e. (e, refl))
  where
    ended : (ran : Ran) → h.ok ≡ true → StillOk h (after_prune cutoff ran h)
    ended written y e = (y, refl)
    ended dropped y e = (y, refl)
    ended raised y e = cc

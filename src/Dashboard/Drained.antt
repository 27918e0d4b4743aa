-- ===== src/Dashboard/Drained.antt =====
-- What the writer of scripts/files/live_dashboard/history.py does with its backlog when the database is
-- back.
use mathlib.Core.List.{append_assoc, append-nil}
use local_gpu_cluster.Prelude.{
  ℕ, suc, ◌≡◌, refl, sym, ap, ◌∙◌, Bool, true, false, List, [], ◌∷◌, ◌++◌, if◌then◌else◌,
}
use local_gpu_cluster.Dashboard.Row.{Entry}
use local_gpu_cluster.Dashboard.History.{
  Attempt, written, Transaction, insert, History, retries, run, keep, commit, after_add, handle_add,
  drain,
}

abbrev pub inserts : List Entry → List Transaction
inserts [] = []
inserts (row ∷ rows) = insert row ∷ inserts rows

pub if_true : {b : Bool} (x y : History) → b ≡ true → (if b then x else y) ≡ x
if_true {b = true} x y h = refl
if_true {b = false} x y h = cc

pub if_false : {b : Bool} (x y : History) → b ≡ false → (if b then x else y) ≡ y
if_false {b = true} x y h = cc
if_false {b = false} x y h = refl

handle_written :
    (m : ℕ) (row : Entry) (attempts : ℕ → Attempt) (h : History)
    → h.ok ≡ true
    → run retries attempts ≡ written
    → handle_add m row attempts h ≡ commit (insert row) h
unfolding handle_add
handle_written m row attempts h o e =
    if_true (after_add m row (run retries attempts) h) (keep m row h) o
    ∙ ap (λ r. after_add m row r h) e

drain_nil : (m : ℕ) (attempts : ℕ → ℕ → Attempt) (i : ℕ) (h : History) → drain m attempts i [] h ≡ h
unfolding drain
drain_nil m attempts i h = refl

drain_next :
    (m : ℕ) (attempts : ℕ → ℕ → Attempt) (i : ℕ) (row : Entry) (rows : List Entry) (h : History)
    → h.ok ≡ true
    → run retries (attempts i) ≡ written
    → drain m attempts i (row ∷ rows) h
      ≡ drain m attempts (suc i) rows (commit (insert row) (record h { backlog = rows }))
unfolding drain
drain_next m attempts i row rows h o e =
    let next = commit (insert row) (record h { backlog = rows }) in
    ap (λ u. if u.ok then drain m attempts (suc i) rows u else u)
      (handle_written m row (attempts i) (record h { backlog = rows }) o e)
    ∙ if_true (drain m attempts (suc i) rows next) next o

-- Where every write succeeds, the loop over the backlog commits it in its order.
pub drain_writes :
    (m : ℕ) (attempts : ℕ → ℕ → Attempt) (i : ℕ) (rows : List Entry) (h : History)
    → ((j : ℕ) → run retries (attempts j) ≡ written)
    → h.ok ≡ true
    → h.backlog ≡ rows
    → ((drain m attempts i rows h).ok ≡ true)
      × ((drain m attempts i rows h).backlog ≡ [])
      × ((drain m attempts i rows h).lost ≡ h.lost)
      × ((drain m attempts i rows h).log ≡ h.log ++ inserts rows)
drain_writes m attempts i [] h written_all o e =
    rw (drain_nil m attempts i h) (o, e, refl, sym (append-nil h.log))
drain_writes m attempts i (row ∷ rows) h written_all o e =
    let next = commit (insert row) (record h { backlog = rows }) in
    let (ok, empty, lost, log) = drain_writes m attempts (suc i) rows next written_all o refl in
    rw (drain_next m attempts i row rows h o (written_all i))
      (ok, empty, lost, log ∙ append_assoc h.log (insert row ∷ []) (inserts rows))

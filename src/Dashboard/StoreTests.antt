-- ===== src/Dashboard/StoreTests.antt =====
-- Rows that are written, raised, kept and lost, under scripts/files/live_dashboard/history.py.
use local_gpu_cluster.Prelude.{
  ℕ, ◌≡◌, refl, true, ◌||◌, some, List, [], ◌∷◌, ◌++◌, length, ltb, All,
}
use local_gpu_cluster.Dashboard.Row.{Entry, new_entry}
use local_gpu_cluster.Dashboard.History.{
  raised, Attempt, committed, persistent, History, new_history, retries, run, written, keep,
  handle_add, handle_noop, drain, try_recover, Step, add, recover, step, steps,
}
use local_gpu_cluster.Dashboard.Flush.{added, flushes, flush_sound}
use local_gpu_cluster.Dashboard.Held.{InLog}
use local_gpu_cluster.Dashboard.Drained.{inserts}
use local_gpu_cluster.Dashboard.Outage.{adds, last_n, outage_writes}

abbrev row : ℕ → Entry
row task = record (new_entry 100 0 task 100) { finished = some 120 }

abbrev always : Attempt → ℕ → Attempt
always a i = a

-- The first row meets an error of the disk, and waits for the recovery.
abbrev with_outage : List Step
with_outage =
    add (row 7) (always persistent)
    ∷ recover true (λ i. always committed)
    ∷ add (row 8) (always committed)
    ∷ []

abbrev after_outage : History
after_outage = steps 2 with_outage (flushes 2 [] (new_history true []))

flush_sound_example : All (λ r. InLog r after_outage.log) (added with_outage)
unfolding handle_noop steps flushes new_history handle_add run keep try_recover drain new_entry
flush_sound_example = flush_sound 2 true [] [] with_outage refl

abbrev in_order : History
in_order = new_history true []

fails_first : run retries (always persistent) ≡ raised
unfolding run
fails_first = refl

commits : (j : ℕ) → run retries (always committed) ≡ written
unfolding run
commits j = refl

outage_writes_example :
    let u =
      step 1
        (recover true (λ i. always committed))
        (steps 1 (adds (λ r. always persistent) (row 7 ∷ row 8 ∷ [])) in_order) in
    (u.ok ≡ true)
    × (u.backlog ≡ [])
    × (u.log ≡ in_order.log ++ inserts (last_n 1 (row 7 ∷ row 8 ∷ [])))
    × (u.lost ≡ (in_order.lost || ltb 1 (length (row 7 ∷ row 8 ∷ []))))
unfolding new_history
outage_writes_example =
    outage_writes 1 (row 7) (row 8 ∷ []) (λ r. always persistent) (λ i. always committed) in_order
      (λ o. fails_first) refl commits

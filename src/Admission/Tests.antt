-- ===== src/Admission/Tests.antt =====
-- Runs of the admission model of scripts/files/stream_admission.py and scripts/files/workforce_lane.py.
use local_gpu_cluster.Prelude.{ℕ, ◌≡◌, refl, some, [], ◌∷◌, total, ◌≤◌, ◌+◌, arith}
use local_gpu_cluster.Prelude.Int.{pos}
use local_gpu_cluster.Admission.Gate.{has_room}
use local_gpu_cluster.Admission.System.{
  owner, scoped, idle, lane_held, holding, recheck, System, Effect, start, finish, give_chat, enter,
  act, enter_chat, commit, Turn, turn, Step, moved, Reach, here, next,
}
use local_gpu_cluster.Admission.Reserve.{
  scoped_in_chat, scoped_admission_leaves_reserve, owner_never_waits,
}
use local_gpu_cluster.Admission.HoldSlot.{
  Waiting, timed_out, acquired, closed_at, hold_slot, hold_slot_balance,
}
use local_gpu_cluster.Admission.Safety.{fresh_system, no_lost_wakeup, no_leaked_slot}
use local_gpu_cluster.Admission.Invariant.{asleep}

abbrev two_owners : System
two_owners = fresh_system (pos 1) (pos 0) (owner ∷ owner ∷ [])

-- One owner holds the only slot while another waits; the first ends and gives it back.
abbrev waited : (t : System) × Reach Step two_owners t
unfolding fresh_system act commit
waited = (
  _,
  next
      (next
        (next (next here (moved (turn _ 0 start _ _ refl refl)))
          (moved (turn _ 1 start _ _ refl refl)))
        (moved (turn _ 0 finish _ _ refl refl)))
      (moved (turn _ 0 give_chat _ _ refl refl)),
)

-- Then the other looks again, is served and gives it back too.
abbrev emptied : (t : System) × Reach Step two_owners t
unfolding fresh_system act commit
emptied = (
  _,
  next
      (next (next waited.1 (moved (turn _ 1 recheck _ _ refl refl)))
        (moved (turn _ 1 finish _ _ refl refl)))
      (moved (turn _ 1 give_chat _ _ refl refl)),
)

no_lost_wakeup_example : total asleep (waited.0).requests ≡ 0
unfolding has_room fresh_system act commit
no_lost_wakeup_example = no_lost_wakeup (pos 1) (pos 0) (owner ∷ owner ∷ []) waited.1 refl

no_leaked_slot_example : ((emptied.0).chat.in_use ≡ pos 0) × ((emptied.0).lane.in_use ≡ pos 0)
unfolding fresh_system act commit
no_leaked_slot_example =
    no_leaked_slot (pos 1) (pos 0) (owner ∷ owner ∷ []) emptied.1 (refl, (refl, tt))

-- A scoped request that has its lane slot, with three chat slots of which one is reserved.
abbrev in_lane_first : (t : System) × Reach Step (fresh_system (pos 3) (pos 1) (scoped ∷ [])) t
unfolding fresh_system act commit
in_lane_first = (_, next here (moved (turn _ 0 start _ _ refl refl)))

abbrev admitted : Effect
unfolding fresh_system act commit
admitted = enter_chat scoped (in_lane_first.0).chat (in_lane_first.0).lane

scoped_admission_leaves_reserve_example :
    total scoped_in_chat
        (commit in_lane_first.0 0 (record { kind = scoped; pc = lane_held }) admitted).requests
      + admitted.lane.reserve
    ≤ admitted.chat.cap
unfolding fresh_system act commit
scoped_admission_leaves_reserve_example =
    scoped_admission_leaves_reserve (pos 3) (pos 1) (scoped ∷ []) in_lane_first.1 0 enter
      (record { kind = scoped; pc = lane_held }) admitted refl refl refl refl

-- The same at a capacity that does not change.
abbrev first_turn : (t : System) × Reach Turn (fresh_system (pos 3) (pos 1) (scoped ∷ [])) t
unfolding fresh_system act commit
first_turn = (_, next here (turn _ 0 start _ _ refl refl))

owner_never_waits_example :
    (e : Effect) × (act start owner idle (first_turn.0).chat (first_turn.0).lane ≡ some e)
    × (e.pc ≡ holding)
unfolding fresh_system act commit total
owner_never_waits_example =
    owner_never_waits (pos 3) (pos 1) (scoped ∷ []) first_turn.1 (omega arith)

-- A response that waits through a ping, then streams one chunk, at which the client closes it.
abbrev closed_early : Waiting ℕ
closed_early = timed_out (acquired (closed_at 7))

hold_slot_balance_example :
    ((hold_slot closed_early).releases ≡ 1)
    × ((hold_slot closed_early).releases + (hold_slot closed_early).cancels ≡ 1)
    × ((hold_slot closed_early).body_closes ≡ 1)
hold_slot_balance_example = hold_slot_balance closed_early

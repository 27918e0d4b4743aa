-- ===== src/Admission/Safety.antt =====
-- What the gate and the lane promise: no lost wake-up, no lost slot, and the owner's reserve.
use local_gpu_cluster.Prelude.{
  ℕ, ◌≡◌, ◌↔◌, refl, Bool, true, false, List, [], ◌∷◌, map, arith, All, total,
}
use local_gpu_cluster.Prelude.Int.{ℤ, pos}
use local_gpu_cluster.Admission.Gate.{new_gate, has_room}
use local_gpu_cluster.Admission.Lane.{lane_capacity, new_lane}
use local_gpu_cluster.Admission.System.{
  refused, enter_lane, Kind, Pc, idle, ended, Request, System, Step, Reach,
}
use local_gpu_cluster.Admission.Invariant.{in_chat, in_lane, asleep, Inv, Reach-Inv}

abbrev pub idle_requests : List Kind → List Request
idle_requests = map (λ k. record { kind = k; pc = idle })

-- The router at its start: nothing admitted, and requests of these kinds still to come.
unfoldable pub fresh_system : ℤ → ℤ → List Kind → System
unfolding new_gate new_lane
fresh_system capacity reserve kinds = record {
  chat = new_gate capacity;
  lane = new_lane reserve;
  requests = idle_requests kinds;
}

module _ (w : Request → ℕ) (idle_weight : (k : Kind) → w (record { kind = k; pc = idle }) ≡ 0) where
  total-idle_requests : (kinds : List Kind) → total w (idle_requests kinds) ≡ 0
  unfolding total
  total-idle_requests [] = refl
  total-idle_requests (k ∷ ks) = omega (arith, idle_weight k, total-idle_requests ks)

pub fresh-Inv :
    (capacity reserve : ℤ) (kinds : List Kind) → Inv (fresh_system capacity reserve kinds)
unfolding fresh_system
fresh-Inv capacity reserve kinds =
    let chat = total-idle_requests in_chat (λ k. refl) kinds in
    let lane = total-idle_requests in_lane (λ k. ground arith) kinds in
    let sleep = total-idle_requests asleep (λ k. refl) kinds in
    record {
      chat_count = ground arith;
      lane_count = ground arith;
      awake = λ h. absurd (omega arith);
    }

-- A request that has not begun or has left.
abbrev pub is_quiet : Pc → Bool
is_quiet idle = true
is_quiet (ended _) = true
is_quiet _ = false

module _ (w : Request → ℕ) (quiet_weight : (r : Request) → is_quiet r.pc ≡ true → w r ≡ 0) where
  total-quiet : (rs : List Request) → All (λ r. is_quiet r.pc ≡ true) rs → total w rs ≡ 0
  unfolding total
  total-quiet [] h = refl
  total-quiet (r ∷ rs) h = omega (arith, quiet_weight r h.0, total-quiet rs h.1)

in_chat-quiet : (r : Request) → is_quiet r.pc ≡ true → in_chat r ≡ 0
in_chat-quiet r h = ground arith

in_lane-quiet : (r : Request) → is_quiet r.pc ≡ true → in_lane r ≡ 0
in_lane-quiet r h = ground arith

module _ (capacity reserve : ℤ) (kinds : List Kind) {s : System}
    (run : Reach Step (fresh_system capacity reserve kinds) s) where
  pub reached : Inv s
  reached = Reach-Inv run (fresh-Inv capacity reserve kinds)

  -- Whatever the requests, cancellations and capacity changes: while the chat gate has room, no
  -- waiter is left asleep, so a free slot is always offered to every waiter.
  pub no_lost_wakeup : has_room s.chat ≡ true → total asleep s.requests ≡ 0
  unfolding has_room
  no_lost_wakeup h = ground (arith, reached.awake, reached.chat_count)

  -- Whatever happened on the way: once no request is under way, both counters are back at zero,
  -- so no slot is leaked or given back twice.
  pub no_leaked_slot :
      All (λ r. is_quiet r.pc ≡ true) s.requests → (s.chat.in_use ≡ pos 0) × (s.lane.in_use ≡ pos 0)
  no_leaked_slot h =
      let chat = total-quiet in_chat in_chat-quiet s.requests h in
      let lane = total-quiet in_lane in_lane-quiet s.requests h in
      (ground (arith, reached.chat_count), ground (arith, reached.lane_count))

  -- A scoped request is refused on arrival exactly when the present layout leaves its lane no
  -- capacity; otherwise it gets a lane slot or waits for one.
  pub scoped_refused_iff :
      ((enter_lane s.chat s.lane).pc ≡ ended refused) ↔ (lane_capacity s.chat s.lane ≡ 0)
  unfolding enter_lane
  scoped_refused_iff = (λ h. ground arith, λ h. ground (arith, reached.lane_count))

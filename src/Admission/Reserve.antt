-- ===== src/Admission/Reserve.antt =====
-- The owner's reserve: scoped requests are never admitted to the last `reserve` chat slots.
use local_gpu_cluster.Prelude.{
  ℕ, ◌+◌, ◌-◌, ◌≤◌, ◌<◌, ◌≡◌, refl, some, List, arith, get_elem?, total, total-get-le, total_mono,
  total_add, min,
}
use local_gpu_cluster.Prelude.Int.{ℤ, pos, ◌≤ℤ◌}
use local_gpu_cluster.Admission.Gate.{AdmissionGate}
use local_gpu_cluster.Admission.Lane.{ReservedLane, lane_capacity}
use local_gpu_cluster.Admission.System.{
  Kind, owner, scoped, Pc, idle, holding, Request, System, Effect, Move, start, enter_chat, act,
  commit, Turn, turn, Step, Reach, here, next,
}
use local_gpu_cluster.Admission.Invariant.{
  chat_weight, lane_weight, in_chat, in_lane, Inv, act-Counts, Turn-Inv,
}
use local_gpu_cluster.Admission.Safety.{fresh_system, fresh-Inv, reached}

abbrev pub scoped_weight : Kind → Pc → ℕ
scoped_weight owner pc = 0
scoped_weight scoped pc = chat_weight pc

abbrev pub owner_weight : Kind → Pc → ℕ
owner_weight owner pc = chat_weight pc
owner_weight scoped pc = 0

abbrev pub scoped_in_chat : Request → ℕ
scoped_in_chat r = scoped_weight r.kind r.pc

abbrev pub owner_in_chat : Request → ℕ
owner_in_chat r = owner_weight r.kind r.pc

scoped-le-lane : (r : Request) → scoped_in_chat r ≤ in_lane r
scoped-le-lane r = ground arith

chat-eq-owner-add-scoped : (r : Request) → in_chat r ≡ owner_in_chat r + scoped_in_chat r
chat-eq-owner-add-scoped r = ground arith

-- The check that `_LaneThenChat.acquire` makes last.
act-admits :
    (m : Move) (pc : Pc) (chat : AdmissionGate) (lane : ReservedLane) (e : Effect)
    → act m scoped pc chat lane ≡ some e
    → e.pc ≡ holding
    → (e.lane.in_use ≤ℤ pos (lane_capacity e.chat e.lane))
unfolding act
act-admits start idle chat lane e h a = ground arith
act-admits m pc chat lane e h a = ground arith

module _ (capacity reserve : ℤ) (kinds : List Kind) {s : System}
    (run : Reach Step (fresh_system capacity reserve kinds) s) where
  -- At the move that admits a scoped request, whatever the layout did meanwhile, the scoped
  -- requests with a chat slot leave the reserve of the present capacity free.
  pub scoped_admission_leaves_reserve :
      (i : ℕ) (m : Move) (r : Request) (e : Effect)
      → get_elem? s.requests i ≡ some r
      → r.kind ≡ scoped
      → act m r.kind r.pc s.chat s.lane ≡ some e
      → e.pc ≡ holding
      → total scoped_in_chat (commit s i r e).requests + e.lane.reserve ≤ e.chat.cap
  scoped_admission_leaves_reserve i m r e at k did a =
      let before = reached capacity reserve kinds run in
      let after = Turn-Inv (turn s i m r e at did) before in
      let counts =
        act-Counts m r.kind r.pc s.chat s.lane e (total in_chat s.requests)
          (total in_lane s.requests) did before.chat_count before.lane_count
          (total-get-le in_chat s.requests i r at) (total-get-le in_lane s.requests i r at) in
      let lane_left = total_mono scoped_in_chat in_lane (commit s i r e).requests scoped-le-lane in
      unfold commit in
      ground (
        arith,
        act-admits m r.pc s.chat s.lane e (rw (← k) did) a,
        after.lane_count,
        lane_left,
        counts.lane_after,
        total-get-le in_lane s.requests i r at,
      )

-- While the capacity does not change, neither counter passes its capacity.
pub record IsBounded (s : System) : Type 0 where
  pub inv : Inv s
  pub room : 0 < s.chat.cap
  pub chat_bound : total in_chat s.requests ≤ s.chat.cap
  pub lane_bound : total in_lane s.requests ≤ lane_capacity s.chat s.lane

act-bound :
    (m : Move) (kind : Kind) (pc : Pc) (chat : AdmissionGate) (lane : ReservedLane) (e : Effect)
    (c l : ℕ)
    → act m kind pc chat lane ≡ some e
    → chat.in_use ≡ pos c
    → lane.in_use ≡ pos l
    → (chat_weight pc < chat_weight e.pc → c < chat.cap)
      × (lane_weight kind pc < lane_weight kind e.pc → l < lane_capacity chat lane)
unfolding act
act-bound start owner idle chat lane e c l h hc hl = ground arith
act-bound m kind pc chat lane e c l h hc hl = ground arith

fresh-IsBounded :
    (capacity reserve : ℤ) (kinds : List Kind) → IsBounded (fresh_system capacity reserve kinds)
unfolding fresh_system
fresh-IsBounded capacity reserve kinds =
    let inv = fresh-Inv capacity reserve kinds in
    record {
      inv = inv;
      room = ground arith;
      chat_bound = ground (arith, inv.chat_count);
      lane_bound = ground (arith, inv.lane_count);
    }

Turn-IsBounded : {s t : System} → Turn s t → IsBounded s → IsBounded t
Turn-IsBounded (turn s i m r e at did) b =
    let inv = b.inv in
    let after = Turn-Inv (turn s i m r e at did) inv in
    let counts =
      act-Counts m r.kind r.pc s.chat s.lane e (total in_chat s.requests) (total in_lane s.requests)
        did inv.chat_count inv.lane_count (total-get-le in_chat s.requests i r at)
        (total-get-le in_lane s.requests i r at) in
    let bound =
      act-bound m r.kind r.pc s.chat s.lane e (total in_chat s.requests) (total in_lane s.requests)
        did inv.chat_count inv.lane_count in
    unfold commit in
    record {
      inv = after;
      room = ground (arith, b.room, counts.cap_after);
      chat_bound =
          ground
            (arith, after.chat_count, counts.chat_after, counts.cap_after, b.chat_bound, bound.0);
      lane_bound = ground (
        arith, after.lane_count, counts.lane_after, counts.cap_after, counts.reserve_after,
        b.lane_bound, bound.1,
      );
    }

Reach-IsBounded : {s t : System} → Reach Turn s t → IsBounded s → IsBounded t
Reach-IsBounded here b = b
Reach-IsBounded (next r st) b = Turn-IsBounded st (Reach-IsBounded r b)

owner_enters :
    (chat : AdmissionGate) (lane : ReservedLane) (c : ℕ)
    → chat.in_use ≡ pos c
    → c < chat.cap
    → (e : Effect) × (act start owner idle chat lane ≡ some e) × (e.pc ≡ holding)
unfolding act
owner_enters chat lane c h lt = (enter_chat owner chat lane, refl, ground arith)

module _ (capacity reserve : ℤ) (kinds : List Kind) {s : System}
    (run : Reach Turn (fresh_system capacity reserve kinds) s) where
  bounded : IsBounded s
  bounded = Reach-IsBounded run (fresh-IsBounded capacity reserve kinds)

  -- At a constant capacity, the gate never admits more requests than its capacity, and never
  -- more scoped ones than the capacity less the reserve.
  pub constant_capacity_bounds :
      (total in_chat s.requests ≤ s.chat.cap)
      × (total scoped_in_chat s.requests ≤ s.chat.cap - s.lane.reserve)
  constant_capacity_bounds =
      let scoped_le = total_mono scoped_in_chat in_lane s.requests scoped-le-lane in
      (bounded.chat_bound, omega (arith, bounded.lane_bound))

  -- At a constant capacity, an owner's request that arrives while the owner's other requests
  -- hold fewer slots than the reserve (and than the capacity) is admitted without waiting.
  pub owner_never_waits :
      total owner_in_chat s.requests < min s.lane.reserve s.chat.cap
      → (e : Effect) × (act start owner idle s.chat s.lane ≡ some e) × (e.pc ≡ holding)
  owner_never_waits few =
      let scoped_le = total_mono scoped_in_chat in_lane s.requests scoped-le-lane in
      let split =
        total_add owner_in_chat scoped_in_chat in_chat s.requests chat-eq-owner-add-scoped in
      owner_enters s.chat s.lane (total in_chat s.requests) bounded.inv.chat_count
        (omega (arith, bounded.lane_bound, bounded.room))

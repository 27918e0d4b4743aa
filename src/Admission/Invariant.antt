-- ===== src/Admission/Invariant.antt =====
-- The counters count: what holds of the gate, the lane and the waiters in every reachable state.
use local_gpu_cluster.Prelude.{
  ℕ, ◌+◌, ◌-◌, ◌≤◌, ◌<◌, ◌≡◌, refl, Bool, true, false, some, List, [], ◌∷◌, Bool-cases, inl, inr,
  arith, get_elem?, set, total, total-set, total-map, total-get-le,
}
use local_gpu_cluster.Prelude.Int.{ℤ, pos}
use local_gpu_cluster.Admission.Gate.{AdmissionGate}
use local_gpu_cluster.Admission.Lane.{ReservedLane}
use local_gpu_cluster.Admission.System.{
  Kind, owner, scoped, Pc, idle, lane_wait, chat_asleep, holding, chat_back, ended, Request, System,
  Effect, Move, start, act, wake_request, notify_all, commit, resize, Turn, turn, Step, moved,
  resized, Reach, here, next,
}

-- A request that has a chat slot.
abbrev pub chat_weight : Pc → ℕ
chat_weight holding = 1
chat_weight (chat_back _) = 1
chat_weight _ = 0

-- A scoped request that has a lane slot.
abbrev pub lane_weight : Kind → Pc → ℕ
lane_weight owner _ = 0
lane_weight scoped idle = 0
lane_weight scoped lane_wait = 0
lane_weight scoped (ended _) = 0
lane_weight scoped _ = 1

-- A waiter of the chat gate that nobody has notified.
abbrev pub asleep_weight : Pc → ℕ
asleep_weight chat_asleep = 1
asleep_weight _ = 0

abbrev pub in_chat : Request → ℕ
in_chat r = chat_weight r.pc

abbrev pub in_lane : Request → ℕ
in_lane r = lane_weight r.kind r.pc

abbrev pub asleep : Request → ℕ
asleep r = asleep_weight r.pc

pub record Inv (s : System) : Type 0 where
  pub chat_count : s.chat.in_use ≡ pos (total in_chat s.requests)
  pub lane_count : s.lane.in_use ≡ pos (total in_lane s.requests)
  pub awake : 0 < total asleep s.requests → s.chat.cap ≤ total in_chat s.requests

-- What one move does to the counters, in terms of the request's old and new place.
pub record Counts (chat : AdmissionGate) (lane : ReservedLane) (kind : Kind) (pc : Pc) (e : Effect)
    (c l : ℕ) : Type 0 where
  pub chat_after : e.chat.in_use ≡ pos (c + chat_weight e.pc - chat_weight pc)
  pub lane_after : e.lane.in_use ≡ pos (l + lane_weight kind e.pc - lane_weight kind pc)
  pub cap_after : e.chat.cap ≡ chat.cap
  pub reserve_after : e.lane.reserve ≡ lane.reserve
  pub slept : 0 < asleep_weight e.pc → chat.cap ≤ c
  pub kept : e.notify ≡ false → chat_weight pc ≤ chat_weight e.pc

pub act-Counts :
    (m : Move) (kind : Kind) (pc : Pc) (chat : AdmissionGate) (lane : ReservedLane) (e : Effect)
    (c l : ℕ)
    → act m kind pc chat lane ≡ some e
    → chat.in_use ≡ pos c
    → lane.in_use ≡ pos l
    → chat_weight pc ≤ c
    → lane_weight kind pc ≤ l
    → Counts chat lane kind pc e c l
unfolding act
act-Counts start owner idle chat lane e c l h hc hl pc_le pl_le = ground arith
act-Counts m kind pc chat lane e c l h hc hl pc_le pl_le = ground arith

-- Waking changes neither counter, and leaves nobody asleep.
asleep-notify_all : (requests : List Request) → total asleep (notify_all true requests) ≡ 0
unfolding total
asleep-notify_all [] = refl
asleep-notify_all (r ∷ rs) = ground (arith, asleep-notify_all rs)

in_chat-wake : (r : Request) → in_chat (wake_request r) ≡ in_chat r
in_chat-wake r = ground arith

in_lane-wake : (r : Request) → in_lane (wake_request r) ≡ in_lane r
in_lane-wake r = ground arith

in_chat-notify_all :
    (b : Bool) (requests : List Request)
    → total in_chat (notify_all b requests) ≡ total in_chat requests
in_chat-notify_all true requests = total-map in_chat wake_request requests in_chat-wake
in_chat-notify_all false requests = refl

in_lane-notify_all :
    (b : Bool) (requests : List Request)
    → total in_lane (notify_all b requests) ≡ total in_lane requests
in_lane-notify_all true requests = total-map in_lane wake_request requests in_lane-wake
in_lane-notify_all false requests = refl

commit-Inv :
    (s : System) (i : ℕ) (m : Move) (r : Request) (e : Effect)
    → get_elem? s.requests i ≡ some r
    → act m r.kind r.pc s.chat s.lane ≡ some e
    → Inv s
    → Inv (commit s i r e)
unfolding commit
commit-Inv s i m r e at did inv = record {
  chat_count = rw (in_chat-notify_all e.notify after) (ground (arith, chat_moved, f.chat_after));
  lane_count = rw (in_lane-notify_all e.notify after) (ground (arith, lane_moved, f.lane_after));
  awake = rw (in_chat-notify_all e.notify after) (elim (Bool-cases e.notify) [
    | inl loud ↦ rw loud (λ h. absurd (omega (arith, asleep-notify_all after)))
    | inr quiet ↦ rw quiet (λ h.
        ground (arith, chat_moved, asleep_moved, f.cap_after, f.slept, f.kept quiet, inv.awake))
  ]);
}
  where
    new : Request
    new = record r { pc = e.pc }

    after : List Request
    after = set s.requests i new

    chat_moved : total in_chat after + in_chat r ≡ total in_chat s.requests + in_chat new
    chat_moved = total-set in_chat s.requests i r new at

    lane_moved : total in_lane after + in_lane r ≡ total in_lane s.requests + in_lane new
    lane_moved = total-set in_lane s.requests i r new at

    asleep_moved : total asleep after + asleep r ≡ total asleep s.requests + asleep new
    asleep_moved = total-set asleep s.requests i r new at

    f : Counts s.chat s.lane r.kind r.pc e (total in_chat s.requests) (total in_lane s.requests)
    f =
        act-Counts m r.kind r.pc s.chat s.lane e (total in_chat s.requests)
          (total in_lane s.requests) did inv.chat_count inv.lane_count
          (total-get-le in_chat s.requests i r at) (total-get-le in_lane s.requests i r at)

resize-Inv : (s : System) (capacity : ℤ) → Inv s → Inv (resize s capacity)
unfolding resize
resize-Inv s capacity inv = record {
  chat_count = rw (in_chat-notify_all true s.requests) inv.chat_count;
  lane_count = rw (in_lane-notify_all true s.requests) inv.lane_count;
  awake = λ h. absurd (omega (arith, asleep-notify_all s.requests));
}

pub Turn-Inv : {s t : System} → Turn s t → Inv s → Inv t
Turn-Inv (turn s i m r e at did) inv = commit-Inv s i m r e at did inv

pub Step-Inv : {s t : System} → Step s t → Inv s → Inv t
Step-Inv (moved mv) inv = Turn-Inv mv inv
Step-Inv (resized s capacity) inv = resize-Inv s capacity inv

-- In every reachable state the counters are the numbers of slots that requests have, and
-- nobody sleeps at the chat gate while it has room.
pub Reach-Inv : {s t : System} → Reach Step s t → Inv s → Inv t
Reach-Inv here inv = inv
Reach-Inv (next r st) inv = Step-Inv st (Reach-Inv r inv)

-- ===== src/Admission/System.antt =====
-- The requests that compete for the chat gate and the workforce lane, as a step relation.
-- One move is the code that a request runs between two suspension points of `gate_for`'s object
-- (scripts/files/workforce_lane.py) and of `AdmissionGate` (scripts/files/stream_admission.py).
use local_gpu_cluster.Prelude.{
  ℕ, ◌≡◌, Bool, true, false, Option, none, some, List, map, get_elem?, set, ◌==◌, if◌then◌else◌,
}
use local_gpu_cluster.Prelude.Int.{ℤ}
use local_gpu_cluster.Admission.Gate.{AdmissionGate, has_room, take_slot, release, set_capacity}
use local_gpu_cluster.Admission.Lane.{
  ReservedLane, lane_capacity, lane_full, lane_exceeded, take_lane, release_lane,
}

-- The owner's requests use the chat gate alone, the scoped ones `_LaneThenChat`.
pub data Kind : Type 0 where
  owner scoped : Kind

-- How a request left: served to its end, `LaneClosed`, or cancelled while it waited.
pub data Outcome : Type 0 where
  served refused gone : Outcome

-- Where a request stands. `chat_asleep` is a waiter of the condition, `chat_woken` one that
-- was notified and has not looked at the predicate again.
pub data Pc : Type 0 where
  idle lane_wait lane_held chat_asleep chat_woken holding : Pc
  chat_back lane_back ended : Outcome → Pc

pub record Request : Type 0 where
  pub kind : Kind
  pub pc : Pc

pub record System : Type 0 where
  pub chat : AdmissionGate
  pub lane : ReservedLane
  pub requests : List Request

-- What a move leaves: both counters, the request's new place, and whether it notified all
-- waiters of the chat gate.
pub record Effect : Type 0 where
  pub chat : AdmissionGate
  pub lane : ReservedLane
  pub pc : Pc
  pub notify : Bool

-- The chat slot is granted: a scoped request that finds the layout shrunk gives both slots back.
abbrev granted : Kind → AdmissionGate → ReservedLane → Pc
granted owner chat lane = holding
granted scoped chat lane = if lane_exceeded chat lane then chat_back refused else holding

-- `AdmissionGate.acquire`, from one look at the predicate to the next suspension.
unfoldable pub enter_chat : Kind → AdmissionGate → ReservedLane → Effect
unfolding has_room take_slot lane_exceeded
enter_chat kind chat lane =
    if has_room chat
    then record {
      chat = take_slot chat;
      lane = lane;
      pc = granted kind (take_slot chat) lane;
      notify = false;
    }
    else record { chat = chat; lane = lane; pc = chat_asleep; notify = false }

-- `ReservedLane.acquire`, from one look at the loop's test to the next.
unfoldable pub enter_lane : AdmissionGate → ReservedLane → Effect
unfolding lane_full take_lane
enter_lane chat lane =
    if lane_full chat lane
    then if lane_capacity chat lane == 0
      then record { chat = chat; lane = lane; pc = ended refused; notify = false }
      else record { chat = chat; lane = lane; pc = lane_wait; notify = false }
    else record { chat = chat; lane = take_lane lane; pc = lane_held; notify = false }

abbrev goes : AdmissionGate → ReservedLane → Pc → Option Effect
goes chat lane pc = some (record { chat = chat; lane = lane; pc = pc; notify = false })

-- After the chat slot: a scoped request still has its lane slot to give back.
abbrev after_chat : Kind → Outcome → Pc
after_chat owner o = ended o
after_chat scoped o = lane_back o

pub data Move : Type 0 where
  start poll enter recheck cancel finish give_chat give_lane : Move

-- The move of one request, or `none` where its place does not have that move.
unfoldable pub act : Move → Kind → Pc → AdmissionGate → ReservedLane → Option Effect
unfolding enter_chat enter_lane release release_lane
act start owner idle chat lane = some (enter_chat owner chat lane)
act start scoped idle chat lane = some (enter_lane chat lane)
act poll scoped lane_wait chat lane = some (enter_lane chat lane)
act enter scoped lane_held chat lane = some (enter_chat scoped chat lane)
act recheck kind chat_woken chat lane = some (enter_chat kind chat lane)
act cancel scoped lane_wait chat lane = goes chat lane (ended gone)
act cancel scoped lane_held chat lane = goes chat lane (lane_back gone)
act cancel kind chat_asleep chat lane = goes chat lane (after_chat kind gone)
act cancel kind chat_woken chat lane = goes chat lane (after_chat kind gone)
act finish kind holding chat lane = goes chat lane (chat_back served)
act give_chat kind (chat_back o) chat lane =
    some (record { chat = release chat; lane = lane; pc = after_chat kind o; notify = true })
act give_lane scoped (lane_back o) chat lane = goes chat (release_lane lane) (ended o)
act _ _ _ chat lane = none

-- `notify_all`
abbrev pub wake : Pc → Pc
wake chat_asleep = chat_woken
wake pc = pc

abbrev pub wake_request : Request → Request
wake_request r = record r { pc = wake r.pc }

abbrev pub notify_all : Bool → List Request → List Request
notify_all b requests = if b then map wake_request requests else requests

-- The system after the move of request `i`.
unfoldable pub commit : System → ℕ → Request → Effect → System
commit s i r e = record {
  chat = e.chat;
  lane = e.lane;
  requests = notify_all e.notify (set s.requests i (record r { pc = e.pc }));
}

-- `AdmissionGate.set_capacity`: the chat server's slot count has changed.
unfoldable pub resize : System → ℤ → System
unfolding set_capacity
resize s capacity = record s {
  chat = set_capacity s.chat capacity;
  requests = notify_all true s.requests;
}

-- A move of any one request.
pub data Turn : System → System → Type 0 where
  turn :
      (s : System) (i : ℕ) (m : Move) (r : Request) (e : Effect)
      → get_elem? s.requests i ≡ some r
      → act m r.kind r.pc s.chat s.lane ≡ some e
      → Turn s (commit s i r e)

pub data Step : System → System → Type 0 where
  moved : {s t : System} → Turn s t → Step s t
  resized : (s : System) (capacity : ℤ) → Step s (resize s capacity)

pub data Reach (R : System → System → Type 0) (s : System) : System → Type 0 where
  here : Reach R s s
  next : {t u : System} → Reach R s t → R t u → Reach R s u

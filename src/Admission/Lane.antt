-- ===== src/Admission/Lane.antt =====
-- `ReservedLane` of scripts/files/workforce_lane.py.
use local_gpu_cluster.Prelude.{ℕ, ◌-◌, Bool}
use local_gpu_cluster.Prelude.Int.{ℤ, pos, negsuc, ◌+ℤ◌, ◌-ℤ◌, ltb_ℤ, leb_ℤ}
use local_gpu_cluster.Admission.Gate.{AdmissionGate}

pub record ReservedLane : Type 0 where
  pub reserve : ℕ
  pub in_use : ℤ

-- max(0, int(reserve))
abbrev pub at_least_zero : ℤ → ℕ
at_least_zero (pos n) = n
at_least_zero (negsuc n) = 0

unfoldable pub new_lane : ℤ → ReservedLane
new_lane reserve = record { reserve = at_least_zero reserve; in_use = pos 0 }

-- max(0, chat.capacity - reserve): `-` on the natural numbers stops at 0.
abbrev pub lane_capacity : AdmissionGate → ReservedLane → ℕ
lane_capacity chat lane = chat.cap - lane.reserve

-- The loop's test in `acquire`.
unfoldable pub lane_full : AdmissionGate → ReservedLane → Bool
lane_full chat lane = leb_ℤ (pos (lane_capacity chat lane)) lane.in_use

-- The test that `_LaneThenChat.acquire` makes once it holds both.
unfoldable pub lane_exceeded : AdmissionGate → ReservedLane → Bool
lane_exceeded chat lane = ltb_ℤ (pos (lane_capacity chat lane)) lane.in_use

unfoldable pub take_lane : ReservedLane → ReservedLane
take_lane lane = record lane { in_use = lane.in_use +ℤ pos 1 }

unfoldable pub release_lane : ReservedLane → ReservedLane
release_lane lane = record lane { in_use = lane.in_use -ℤ pos 1 }

-- ===== src/Admission/Gate.antt =====
-- `AdmissionGate` of scripts/files/stream_admission.py. What an `asyncio.Condition` adds, the
-- queue of waiters, is part of `Admission.System`.
use local_gpu_cluster.Prelude.{ℕ, Bool, max}
use local_gpu_cluster.Prelude.Int.{ℤ, pos, negsuc, ◌+ℤ◌, ◌-ℤ◌, ltb_ℤ, leb_ℤ}

pub record AdmissionGate : Type 0 where
  pub cap : ℕ
  pub in_use : ℤ

-- max(1, int(capacity))
abbrev pub at_least_one : ℤ → ℕ
at_least_one (pos n) = max 1 n
at_least_one (negsuc n) = 1

unfoldable pub new_gate : ℤ → AdmissionGate
new_gate capacity = record { cap = at_least_one capacity; in_use = pos 0 }

unfoldable pub locked : AdmissionGate → Bool
locked g = leb_ℤ (pos g.cap) g.in_use

-- The predicate that `acquire` waits for.
unfoldable pub has_room : AdmissionGate → Bool
has_room g = ltb_ℤ g.in_use (pos g.cap)

-- `self._in_use += 1`
unfoldable pub take_slot : AdmissionGate → AdmissionGate
take_slot g = record g { in_use = g.in_use +ℤ pos 1 }

-- `self._in_use -= 1`; the waiters are notified by the caller's effect.
unfoldable pub release : AdmissionGate → AdmissionGate
release g = record g { in_use = g.in_use -ℤ pos 1 }

unfoldable pub set_capacity : AdmissionGate → ℤ → AdmissionGate
set_capacity g capacity = record g { cap = at_least_one capacity }

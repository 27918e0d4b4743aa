-- ===== src/Admission/Refresh.antt =====
-- `refresh_capacity_once` of scripts/files/stream_admission.py: the gate follows the chat
-- server's slot count.
use local_gpu_cluster.Prelude.{
  zero, suc, ◌≡◌, refl, Bool, false, not, Option, none, some, arith, if◌then◌else◌,
}
use local_gpu_cluster.Prelude.Int.{ℤ, pos, negsuc, ltb_ℤ, leb_ℤ}
use local_gpu_cluster.Admission.Gate.{AdmissionGate, set_capacity}

-- What `fetch_slots` gives: it raises, or returns a value that is no integer, or an integer.
pub data Fetched : Type 0 where
  raised not_an_int : Fetched
  slots : ℤ → Fetched

abbrev eq_ℤ : ℤ → ℤ → Bool
eq_ℤ a b = if leb_ℤ a b then leb_ℤ b a else false

abbrev apply_slots : AdmissionGate → ℤ → AdmissionGate × Option ℤ
apply_slots gate n =
    if ltb_ℤ n (pos 1)
    then (gate, none)
    else (if not (eq_ℤ n (pos gate.cap)) then set_capacity gate n else gate, some n)

pub refresh_capacity_once : AdmissionGate → Fetched → AdmissionGate × Option ℤ
unfolding set_capacity
refresh_capacity_once gate raised = (gate, none)
refresh_capacity_once gate not_an_int = (gate, none)
refresh_capacity_once gate (slots n) = apply_slots gate n

-- The slot count that a reading offers: an integer of at least one.
abbrev pub offered : Fetched → Option ℤ
offered raised = none
offered not_an_int = none
offered (slots (pos zero)) = none
offered (slots (pos (suc n))) = some (pos (suc n))
offered (slots (negsuc n)) = none

-- What a refresh leaves, for a slot count that was offered or not.
abbrev pub Follows : AdmissionGate → Option ℤ → AdmissionGate → Type 0
Follows gate none after = after ≡ gate
Follows gate (some n) after = (pos after.cap ≡ n) × (after.in_use ≡ gate.in_use)

-- A reading that offers a count sets the capacity to exactly that and touches no admitted
-- request; any other reading leaves the gate as it is. The result is the offered count.
pub refresh-Follows :
    (gate : AdmissionGate) (f : Fetched)
    → ((refresh_capacity_once gate f).1 ≡ offered f)
      × Follows gate (offered f) (refresh_capacity_once gate f).0
unfolding refresh_capacity_once
refresh-Follows gate raised = (refl, refl)
refresh-Follows gate not_an_int = (refl, refl)
refresh-Follows gate (slots (pos zero)) = (refl, refl)
refresh-Follows gate (slots (pos (suc n))) = (ground arith, (ground arith, ground arith))
refresh-Follows gate (slots (negsuc n)) = (ground arith, ground arith)

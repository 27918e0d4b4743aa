-- ===== src/ChatRoute/Outcome.antt =====
-- The answers of the chat handler in scripts/files/router-app.py.
use local_gpu_cluster.Prelude.{ℕ, String, Bool, true, false, Option}
use local_gpu_cluster.Prelude.Json.{Fields}
use local_gpu_cluster.AccessKeys.Principal.{Violation}
use local_gpu_cluster.VisionGuard.Check.{Refusal}

-- Why a request is refused.
pub data Reason : Type 0 where
  unauthenticated body_too_large malformed_body lane_closed : Reason
  profile_mismatch swap_failed too_many_tokens : Reason
  violation : (v : Violation) → Reason
  media : (r : Refusal) → Reason

-- How a request is sent on: by the loop over tools or as it is, streamed or not, or streamed once
-- a swap has brought its model in.
pub data Way : Type 0 where
  tool_loop_stream stream tool_loop post swap_then_stream : Way

-- `raised` is an exception that the handler does not catch.
pub data Verdict : Type 0 where
  refused : (status : ℕ) (why : Reason) → Verdict
  raised : Verdict
  escalated : (body : Fields) → Verdict
  forwarded : (way : Way) (body : Fields) → Verdict

-- What the handler came to, and the backend that it asked the swap webhook for, if it did.
pub record Outcome : Type 0 where
  pub swapped : Option String
  pub verdict : Verdict

-- A stage of the handler.
pub data Stage (A : Type 0) : Type 0 where
  go : A → Stage A
  stop : Verdict → Stage A

infixl 5 ◌>>=◌
abbrev pub ◌>>=◌ : {A B : Type 0} → Stage A → (A → Stage B) → Stage B
go a >>= f = f a
stop v >>= f = stop v

abbrev pub guard : Bool → Verdict → Stage (Unit {0})
guard true v = go tt
guard false v = stop v

infixl 5 ◌>>◌
abbrev pub ◌>>◌ : {B : Type 0} → Stage (Unit {0}) → Stage B → Stage B
m >> k = m >>= λ _. k

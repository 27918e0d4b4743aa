-- ===== src/Admission/HoldSlot.antt =====
-- `hold_slot` of scripts/files/stream_admission.py: the slot is held for the whole life of a
-- streaming response. The event loop and the client enter as the run of one generator.
use local_gpu_cluster.Prelude.{
  ℕ, ◌+◌, ◌≡◌, refl, Bool, true, false, List, [], ◌∷◌, ◌++◌, ◌||◌, map, ap, arith, if◌then◌else◌,
}

-- The acquire task, as the generator finds it.
pub data AcquireTask : Type 0 where
  pending granted failed cancelled : AcquireTask

-- How the body goes on: it ends, raises, is cancelled, or yields a chunk at which the client
-- closes the generator or resumes it.
pub data Streaming {ℓ} (B : Type ℓ) : Type ℓ where
  body_ended body_raised body_cancelled : Streaming B
  closed_at : B → Streaming B
  chunk : B → Streaming B → Streaming B

-- How the wait goes on. `timed_out` is a ping after which the generator is resumed, and
-- `closed_at_ping` one at which it is closed; the task's state is the one found in `finally`.
pub data Waiting {ℓ} (B : Type ℓ) : Type ℓ where
  acquired : Streaming B → Waiting B
  acquire_failed : Waiting B
  timed_out : Waiting B → Waiting B
  closed_at_ping : AcquireTask → Waiting B
  wait_cancelled : AcquireTask → Waiting B

pub data Sent {ℓ} (B : Type ℓ) : Type ℓ where
  ping : Sent B
  data_chunk : B → Sent B

pub record Held {ℓ} (B : Type ℓ) : Type ℓ where
  pub sent : List (Sent B)
  pub releases : ℕ
  pub cancels : ℕ
  pub body_closes : ℕ

-- Whether the task was done with a grant.
abbrev pub was_granted : AcquireTask → Bool
was_granted granted = true
was_granted _ = false

abbrev pub slots_granted : AcquireTask → ℕ
slots_granted granted = 1
slots_granted _ = 0

module _ {ℓ} {B : Type ℓ} where
  abbrev pub push_sent : Sent B → Held B → Held B
  push_sent x h = record h { sent = x ∷ h.sent }

  -- The `finally` block: `acquired` is the flag, the task the one that was started.
  unfoldable pub finally : Bool → AcquireTask → Held B
  finally flag task =
      let acquired = flag || was_granted task in
      record {
        sent = [];
        releases = if acquired then 1 else 0;
        cancels = if acquired then 0 else 1;
        body_closes = 1;
      }

  -- `async for chunk in body: yield chunk`
  unfoldable pub stream_body : Streaming B → Held B
  unfolding finally
  stream_body body_ended = finally true granted
  stream_body body_raised = finally true granted
  stream_body body_cancelled = finally true granted
  stream_body (closed_at b) = push_sent (data_chunk b) (finally true granted)
  stream_body (chunk b rest) = push_sent (data_chunk b) (stream_body rest)

  unfoldable pub hold_slot : Waiting B → Held B
  unfolding stream_body
  hold_slot (acquired body) = stream_body body
  hold_slot acquire_failed = finally false failed
  hold_slot (timed_out rest) = push_sent ping (hold_slot rest)
  hold_slot (closed_at_ping task) = push_sent ping (finally false task)
  hold_slot (wait_cancelled task) = finally false task

  -- The state of the acquire task when the generator is left.
  abbrev pub task_at_exit : Waiting B → AcquireTask
  task_at_exit (acquired body) = granted
  task_at_exit acquire_failed = failed
  task_at_exit (timed_out rest) = task_at_exit rest
  task_at_exit (closed_at_ping task) = task
  task_at_exit (wait_cancelled task) = task

  stream_body-releases :
      (s : Streaming B)
      → ((stream_body s).releases ≡ 1)
        × ((stream_body s).cancels ≡ 0)
        × ((stream_body s).body_closes ≡ 1)
  unfolding stream_body
  stream_body-releases body_ended = (refl, refl, refl)
  stream_body-releases (chunk b rest) = stream_body-releases rest
  stream_body-releases s = (refl, refl, refl)

  -- However the response ends (finished, failed, cancelled, or closed by the client, also in
  -- the instant in which the slot is granted): a slot is given back exactly once if it was
  -- granted and never otherwise, a task that got none is cancelled, and the body is closed.
  pub hold_slot_balance :
      (w : Waiting B)
      → ((hold_slot w).releases ≡ slots_granted (task_at_exit w))
        × ((hold_slot w).releases + (hold_slot w).cancels ≡ 1)
        × ((hold_slot w).body_closes ≡ 1)
  unfolding hold_slot
  hold_slot_balance (acquired body) = ground (arith, stream_body-releases body)
  hold_slot_balance (timed_out rest) = hold_slot_balance rest
  hold_slot_balance w = ground arith

  -- The pings of the wait, and the chunks that the body yields once the slot is held.
  abbrev pub pings : Waiting B → List (Sent B)
  pings (timed_out rest) = ping ∷ pings rest
  pings (closed_at_ping task) = ping ∷ []
  pings _ = []

  abbrev pub chunks : Streaming B → List B
  chunks (closed_at b) = b ∷ []
  chunks (chunk b rest) = b ∷ chunks rest
  chunks _ = []

  abbrev pub body_chunks : Waiting B → List B
  body_chunks (acquired body) = chunks body
  body_chunks (timed_out rest) = body_chunks rest
  body_chunks _ = []

  stream_body-sent : (s : Streaming B) → (stream_body s).sent ≡ map data_chunk (chunks s)
  unfolding stream_body
  stream_body-sent body_ended = refl
  stream_body-sent (chunk b rest) = ap (◌∷◌ (data_chunk b)) (stream_body-sent rest)
  stream_body-sent s = refl

  -- The client gets keepalives while it waits, then every chunk of the body in order, and no
  -- chunk without the slot.
  pub hold_slot_sends :
      (w : Waiting B) → (hold_slot w).sent ≡ pings w ++ map data_chunk (body_chunks w)
  unfolding hold_slot
  hold_slot_sends (acquired body) = stream_body-sent body
  hold_slot_sends (timed_out rest) = ap (◌∷◌ ping) (hold_slot_sends rest)
  hold_slot_sends w = refl

-- ===== src/Dashboard/Slots.antt =====
-- What scripts/files/live_dashboard/tracker.py uses of dicts with the slots as keys, and of a set
-- of tasks.
use local_gpu_cluster.Prelude.{
  ℕ, Bool, false, ◌||◌, Option, none, some, List, [], ◌∷◌, ◌++◌, ◌==◌, if◌then◌else◌,
}

module _ {ℓ} {A : Type ℓ} where
  -- d.get(k)
  unfoldable pub find : ℕ → List (ℕ × A) → Option A
  find k [] = none
  find k ((j, a) ∷ d) = if j == k then some a else find k d

  -- d[k] = a
  unfoldable pub assign : ℕ → A → List (ℕ × A) → List (ℕ × A)
  assign k a [] = (k, a) ∷ []
  assign k a ((j, b) ∷ d) = if j == k then (j, a) ∷ d else (j, b) ∷ assign k a d

  -- d.pop(k, None)
  unfoldable pub drop : ℕ → List (ℕ × A) → List (ℕ × A)
  drop k [] = []
  drop k ((j, b) ∷ d) = if j == k then d else (j, b) ∷ drop k d

  -- d.setdefault(k, a), and its value.
  abbrev pub or_default : A → Option A → A
  or_default a none = a
  or_default a (some b) = b

abbrev pub member : ℕ → List ℕ → Bool
member k [] = false
member k (j ∷ js) = (j == k) || member k js

abbrev pub include : ℕ → List ℕ → List ℕ
include k s = if member k s then s else s ++ k ∷ []

unfoldable pub discard : ℕ → List ℕ → List ℕ
discard k [] = []
discard k (j ∷ js) = if j == k then js else j ∷ discard k js

-- ===== src/Runner/Relabel.antt =====
-- `relabel` of scripts/files/agent_runner_dispatch.py. What GitHub does to the labels of the issue
-- is an argument: an edit may fail after a part of it.
use local_gpu_cluster.Prelude.{
  ℕ, zero, suc, String, Bool, true, false, not, ◌&&◌, List, [], ◌∷◌, if◌then◌else◌,
}
use local_gpu_cluster.Runner.Names.{has, keep}

-- What became of an edit, and the labels after it.
pub record Edited : Type 0 where
  pub landed : Bool
  pub labels : List String

-- The issue at the end, and whether the edit returned or raised.
pub record Relabelled : Type 0 where
  pub returned : Bool
  pub labels : List String

abbrev pub is_empty : List String → Bool
is_empty [] = true
is_empty (l ∷ ls) = false

abbrev pub is_last : ℕ → Bool
is_last zero = true
is_last (suc left) = false

-- `edit` is the call at an index, with what it is to remove and to add, on the labels there are;
-- `readable` says whether the labels can be read back after it.
module _ (edit : ℕ → List String → List String → List String → Edited) (readable : ℕ → Bool) where
  -- The tries that are left, and the index of the next.
  unfoldable pub tries : ℕ → ℕ → List String → List String → List String → Relabelled
  tries zero i remove add labels = record { returned = true; labels = labels }
  tries (suc left) i remove add labels =
      let done = edit i remove add labels in
      let have = done.labels in
      let missing = keep (λ l. has l have) remove in
      let wanted = keep (λ l. not (has l have)) add in
      let again = tries left (suc i) remove add have in
      let rest = tries left (suc i) missing wanted have in
      if done.landed
      then record { returned = true; labels = have }
      else if is_last left
      then record { returned = false; labels = have }
      else if not (readable i)
      then again
      else if is_empty missing && is_empty wanted
      then record { returned = true; labels = have }
      else rest

  unfoldable pub relabel : List String → List String → List String → Relabelled
  relabel remove add labels = tries 4 1 remove add labels

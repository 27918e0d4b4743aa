-- ===== src/Runner/Pick.antt =====
-- `tier_of` and `pick` of scripts/files/agent_runner_dispatch.py. GitHub's answers and the
-- preflight of a repository are arguments.
use local_gpu_cluster.Prelude.{
  ℕ, String, Bool, true, false, ◌||◌, Option, none, some, List, [], ◌∷◌, ◌++◌, str_eq,
  if◌then◌else◌,
}
use local_gpu_cluster.Runner.Names.{keep}

pub record Task : Type 0 where
  pub repo : String
  pub number : ℕ
  pub labels : List String

-- The comments and label edits on the way: refuse_tier and note_halted.
pub data Note : Type 0 where
  refuse_tier note_halted : (task : Task) → Note

abbrev pub is_tier : String → Bool
is_tier n = str_eq n "tier:a" || (str_eq n "tier:b" || str_eq n "tier:c")

abbrev pub only_one : List String → Option String
only_one (t ∷ []) = some t
only_one _ = none

unfoldable pub tier_of : Task → Option String
tier_of task = only_one (keep is_tier task.labels)

-- The tasks that may never run.
abbrev pub is_refused : Option String → Bool
is_refused none = true
is_refused (some t) = str_eq t "tier:c"

abbrev pub is_tier_b : Option String → Bool
is_tier_b none = false
is_tier_b (some t) = str_eq t "tier:b"

-- What `pick` asks: the halt of a repository on GitHub, and the preflight of its runner.
pub data Question : Type 0 where
  halted_of ready_of : (repo : String) → Question

-- The notes, the questions asked, both in order, and the choice.
pub record Picked : Type 0 where
  pub notes : List Note
  pub asked : List Question
  pub chosen : Option Task

-- The dicts `halt` and `ok`.
abbrev pub Known : Type 0
Known = List (String × Bool)

abbrev pub known : String → Known → Option Bool
known repo [] = none
known repo ((r, b) ∷ ks) = let rest = known repo ks in if str_eq repo r then some b else rest

-- The answer, what was asked for it, and the dict afterwards.
abbrev pub learn :
    (String → Bool) → Question → String → Known → Option Bool → Bool × (List Question × Known)
learn ask q repo ks (some b) = (b, ([], ks))
learn ask q repo ks none = (ask repo, (q ∷ [], (repo, ask repo) ∷ ks))

-- What is asked once for each repository.
unfoldable pub once : (String → Bool) → Question → String → Known → Bool × (List Question × Known)
once ask q repo ks = learn ask q repo ks (known repo ks)

abbrev pub noting : Note → Picked → Picked
noting n p = record p { notes = n ∷ p.notes }

abbrev pub asking : List Question → Picked → Picked
asking qs p = record p { asked = qs ++ p.asked }

abbrev pub picked : Option Task → Picked
picked chosen = record { notes = []; asked = []; chosen = chosen }

module _ (halted ready : String → Bool) where
  unfoldable pub pick_from : Known → Known → List Task → Picked
  pick_from halt ok [] = picked none
  pick_from halt ok (t ∷ ts) =
      let refused = noting (refuse_tier t) (pick_from halt ok ts) in
      let (is_halted, (qs, halt')) = once halted (halted_of t.repo) t.repo halt in
      let held = noting (note_halted t) (pick_from halt' ok ts) in
      let (is_ready, (rs, ok')) = once ready (ready_of t.repo) t.repo ok in
      let runs_b = asking rs (if is_ready then picked (some t) else pick_from halt' ok' ts) in
      let runs_a = asking rs (if is_ready then picked (some t) else pick_from halt ok' ts) in
      if is_refused (tier_of t)
      then refused
      else if is_tier_b (tier_of t)
      then asking qs (if is_halted then held else runs_b)
      else runs_a

  unfoldable pub pick : List Task → Picked
  pick queue = pick_from [] [] queue

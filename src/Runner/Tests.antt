-- ===== src/Runner/Tests.antt =====
-- A queue, an edit that fails half way, and a run, for scripts/files/agent_runner_dispatch.py.
use local_gpu_cluster.Prelude.{
  ◌≡◌, ◌↔◌, refl, ap, eq_iff, ℕ, String, Bool, true, false, not, ◌||◌, ◌==◌, some, List, [], ◌∷◌,
  ◌++◌, inl, inr, str_eq, if◌then◌else◌, if_either, Bool-cases, arith,
}
use local_gpu_cluster.Prelude.Int.{pos}
use local_gpu_cluster.Prelude.Text.{strip, codes_eq}
use local_gpu_cluster.Runner.Names.{has, keep, has-keep}
use local_gpu_cluster.Runner.Pick.{
  Task, halted_of, ready_of, refuse_tier, note_halted, tier_of, once, pick_from, pick,
}
use local_gpu_cluster.Runner.AskedOnce.{AreDistinct}
use local_gpu_cluster.Runner.Chosen.{seen, first_runnable, pick-IsFirst}
use local_gpu_cluster.Runner.Relabel.{Edited, tries, relabel}
use local_gpu_cluster.Runner.Reached.{IsPartial, IsReached, AreDisjoint, relabel-IsReached}
use local_gpu_cluster.Runner.Dispatch.{pass, Run, needs_claude, is_clean, finish, dispatch}
use local_gpu_cluster.Runner.Endings.{is_done, IsClean, dispatch-IsClean}

abbrev task : String → ℕ → String → Task
task repo n tier = record { repo = repo; number = n; labels = "runner:ready" ∷ tier ∷ [] }

-- The first is refused, the second is held, the third's runner is not ready.
abbrev queue : List Task
queue =
    task "x/a" 1 "tier:c"
    ∷ task "x/a" 2 "tier:b"
    ∷ task "x/b" 3 "tier:a"
    ∷ task "x/a" 4 "tier:a"
    ∷ []

abbrev halted : String → Bool
halted repo = str_eq repo "x/a"

picks : pick halted halted queue ≡ record {
  notes = refuse_tier (task "x/a" 1 "tier:c") ∷ note_halted (task "x/a" 2 "tier:b") ∷ [];
  asked = halted_of "x/a" ∷ ready_of "x/b" ∷ ready_of "x/a" ∷ [];
  chosen = some (task "x/a" 4 "tier:a");
}
unfolding pick pick_from once tier_of
picks = refl

pick-IsFirst_example :
    (seen (pick halted halted queue) ≡ first_runnable halted halted queue)
    × AreDistinct (pick halted halted queue).asked
pick-IsFirst_example = pick-IsFirst halted halted queue

-- The first try fails once it has removed the labels.
abbrev edit : ℕ → List String → List String → List String → Edited
edit i remove add labels =
    let left = keep (λ l. not (has l remove)) labels in
    if i == 1
    then record { landed = false; labels = left }
    else record { landed = true; labels = add ++ left }

abbrev readable : ℕ → Bool
readable i = true

has-append : (l : String) (xs ys : List String) → has l (xs ++ ys) ≡ (has l xs || has l ys)
has-append l [] ys = refl
has-append l (x ∷ xs) ys = ground (arith, has-append l xs ys)

parts :
    (i : ℕ) (remove add labels : List String)
    → IsPartial remove add labels (edit i remove add labels).labels
parts i remove add labels =
    let left = keep (λ l. not (has l remove)) labels in
    if_either (λ (e : Edited). IsPartial remove add labels e.labels) (i == 1)
      (record { landed = false; labels = left }) (record { landed = true; labels = add ++ left })
      (λ e. record {
        added = λ l h. inl (ground (arith, has-keep l (λ m. not (has m remove)) labels));
        kept = λ l h n. ground (arith, has-keep l (λ m. not (has m remove)) labels);
      })
      (λ e. record {
        added = λ l h. elim (Bool-cases (has l add)) [
          | inl y ↦ inr y
          | inr n ↦
              inl
                (ground (arith, has-append l add left, has-keep l (λ m. not (has m remove)) labels))
        ];
        kept = λ l h n.
            ground (arith, has-append l add left, has-keep l (λ m. not (has m remove)) labels);
      })

lands :
    (i : ℕ) (remove add labels : List String)
    → AreDisjoint remove add
    → (edit i remove add labels).landed ≡ true
    → IsReached remove add (edit i remove add labels).labels
lands i remove add labels d =
    let left = keep (λ l. not (has l remove)) labels in
    if_either (λ (e : Edited). e.landed ≡ true → IsReached remove add e.labels) (i == 1)
      (record { landed = false; labels = left }) (record { landed = true; labels = add ++ left })
      (λ e h. absurd cc)
      (λ e h. record {
        gone = λ l r. elim (Bool-cases (has l add)) [
          | inl y ↦ let n = d l y in absurd (ground arith)
          | inr n ↦
              ground (arith, has-append l add left, has-keep l (λ m. not (has m remove)) labels)
        ];
        there = λ l a. ground (arith, has-append l add left);
      })

apart : AreDisjoint ("runner:running" ∷ []) ("runner:done" ∷ [])
apart l h = let same : l ≡ "runner:done" = ground (arith, eq_iff l "runner:done") in rw same refl

relabels :
    relabel edit readable
      ("runner:running" ∷ [])
      ("runner:done" ∷ [])
      ("tier:a" ∷ "runner:running" ∷ [])
    ≡ record { returned = true; labels = "runner:done" ∷ "tier:a" ∷ [] }
unfolding relabel tries
relabels = refl

relabel-IsReached_example :
    IsReached
      ("runner:running" ∷ [])
      ("runner:done" ∷ [])
      (relabel edit readable
        ("runner:running" ∷ [])
        ("runner:done" ∷ [])
        ("tier:a" ∷ "runner:running" ∷ [])).labels
relabel-IsReached_example =
    relabel-IsReached edit readable parts lands ("runner:running" ∷ []) ("runner:done" ∷ []) apart
      ("tier:a" ∷ "runner:running" ∷ []) (ap (λ r. r.returned) relabels)

abbrev good : Run
good = record {
  ref_ok = true;
  checked_out = true;
  code = some (pos 0);
  report = some (record { verdict = some pass; deviations = " 'None'" });
  model_swapped = false;
}

ends : (dispatch good).add ≡ "runner:done" ∷ []
unfolding dispatch finish needs_claude is_clean strip codes_eq
ends = refl

dispatch-IsClean_example : (is_done (dispatch good).add ≡ true) ↔ IsClean good
dispatch-IsClean_example = dispatch-IsClean good

-- ===== src/Runner/Chosen.antt =====
-- Which task `pick` of scripts/files/agent_runner_dispatch.py chooses.
use local_gpu_cluster.Prelude.{
  ◌≡◌, refl, ap, ◌∙◌, String, Bool, true, false, not, ◌&&◌, ◌||◌, Option, none, some, List, [], ◌∷◌,
  ◌++◌, str_eq, if◌then◌else◌, Bool-cases, inl, inr, arith, eq_iff,
}
use local_gpu_cluster.Runner.Pick.{
  Task, Note, Question, halted_of, ready_of, Picked, picked, asking, refuse_tier, note_halted,
  tier_of, is_refused, is_tier_b, Known, known, learn, once, noting, pick_from, pick,
}
use local_gpu_cluster.Runner.AskedOnce.{AreDistinct, pick_from-Once}

-- What is to be seen of a choice from outside.
abbrev pub seen : Picked → List Note × Option Task
seen p = (p.notes, p.chosen)

-- One round of the loop as it is seen, on what the conditions come to.
abbrev seen_round :
    Bool → Bool → Bool → Bool → Task → List Note × Option Task → List Note × Option Task
seen_round refused b halted ready t rest =
    if not refused && (not b || not halted) && ready then ([], some t) else (
      (if refused then refuse_tier t ∷ [] else if b && halted then note_halted t ∷ [] else [])
          ++ rest.0,
      rest.1,
    )

step-agrees :
    (refused b halted ready : Bool) (t : Task) (qs rs : List Question) (r h rb ra : Picked)
    (rest : List Note × Option Task)
    → seen r ≡ rest
    → seen h ≡ rest
    → seen rb ≡ rest
    → seen ra ≡ rest
    → seen (
        if refused
        then noting (refuse_tier t) r
        else if b
        then asking qs (
            if halted
            then noting (note_halted t) h
            else asking rs (if ready then picked (some t) else rb))
        else asking rs (if ready then picked (some t) else ra))
      ≡ seen_round refused b halted ready t rest
step-agrees true b halted ready t qs rs r h rb ra rest e f g k =
    ap (λ o. (refuse_tier t ∷ o.0, o.1)) e
step-agrees false true true ready t qs rs r h rb ra rest e f g k =
    ap (λ o. (note_halted t ∷ o.0, o.1)) f
step-agrees false true false true t qs rs r h rb ra rest e f g k = refl
step-agrees false true false false t qs rs r h rb ra rest e f g k = g
step-agrees false false halted true t qs rs r h rb ra rest e f g k = refl
step-agrees false false halted false t qs rs r h rb ra rest e f g k = k

module _ (halted ready : String → Bool) where
  -- A task that may run now: its tier is a, or b in a repository that is not halted, and the
  -- repository's runner is ready.
  abbrev pub can_run : Task → Bool
  can_run t =
      not (is_refused (tier_of t))
      && (not (is_tier_b (tier_of t)) || not (halted t.repo))
      && ready t.repo

  -- What is noted about a task that is passed over.
  abbrev pub notes : Task → List Note
  notes t =
      if is_refused (tier_of t)
      then refuse_tier t ∷ []
      else if is_tier_b (tier_of t) && halted t.repo
      then note_halted t ∷ []
      else []

  -- The first task that may run, and the notes on those before it.
  abbrev pub first_runnable : List Task → List Note × Option Task
  first_runnable [] = ([], none)
  first_runnable (t ∷ ts) =
      let (ns, chosen) = first_runnable ts in
      if can_run t then ([], some t) else (notes t ++ ns, chosen)

  -- A dict that holds only what was answered.
  abbrev Holds : (String → Bool) → Known → Type 0
  Holds ask ks = (repo : String) (b : Bool) → known repo ks ≡ some b → b ≡ ask repo

  learn-Holds :
      (ask : String → Bool) (q : Question) (repo : String) (ks : Known) (o : Option Bool)
      → known repo ks ≡ o
      → Holds ask ks
      → ((learn ask q repo ks o).0 ≡ ask repo) × Holds ask (learn ask q repo ks o).1.1
  learn-Holds ask q repo ks (some b) e h = (h repo b e, h)
  learn-Holds ask q repo ks none e h = (
    refl,
    λ r b k. elim (Bool-cases (str_eq r repo)) [
      | inl y ↦ let same : ask repo ≡ ask r = ap ask (ground (arith, eq_iff r repo)) in ground arith
      | inr n ↦ h r b (ground arith)
    ],
  )

  once-Holds :
      (ask : String → Bool) (q : Question) (repo : String) (ks : Known)
      → Holds ask ks
      → ((once ask q repo ks).0 ≡ ask repo) × Holds ask (once ask q repo ks).1.1
  unfolding once
  once-Holds ask q repo ks h = learn-Holds ask q repo ks (known repo ks) refl h

  pick_from-first :
      (halt ok : Known) (ts : List Task)
      → Holds halted halt
      → Holds ready ok
      → seen (pick_from halted ready halt ok ts) ≡ first_runnable ts
  unfolding pick_from
  pick_from-first halt ok [] h k = refl
  pick_from-first halt ok (t ∷ ts) h k =
      let (is_halted, h') = once-Holds halted (halted_of t.repo) t.repo halt h in
      let (is_ready, k') = once-Holds ready (ready_of t.repo) t.repo ok k in
      let (b, (qs, halt')) = once halted (halted_of t.repo) t.repo halt in
      let (r, (rs, ok')) = once ready (ready_of t.repo) t.repo ok in
      let refused = is_refused (tier_of t) in
      let tier_b = is_tier_b (tier_of t) in
      step-agrees refused tier_b b r t qs rs (pick_from halted ready halt ok ts)
        (pick_from halted ready halt' ok ts) (pick_from halted ready halt' ok' ts)
        (pick_from halted ready halt ok' ts) (first_runnable ts) (pick_from-first halt ok ts h k)
        (pick_from-first halt' ok ts h' k) (pick_from-first halt' ok' ts h' k')
        (pick_from-first halt ok' ts h k')
      ∙ ap (λ x. seen_round refused tier_b x r t (first_runnable ts)) is_halted
      ∙ ap (λ x. seen_round refused tier_b (halted t.repo) x t (first_runnable ts)) is_ready

  -- `pick` chooses the first task of the queue that may run, and notes exactly the tasks before it
  -- that may never run or are held by a halted repository, in order: one whose repository's runner
  -- is not ready is passed over without a note. It asks at most once whether a repository is
  -- halted, and at most once whether its runner is ready.
  pub pick-IsFirst :
      (queue : List Task)
      → (seen (pick halted ready queue) ≡ first_runnable queue)
        × AreDistinct (pick halted ready queue).asked
  unfolding pick
  pick-IsFirst queue = (
    pick_from-first [] [] queue (λ repo b e. absurd cc) (λ repo b e. absurd cc),
    (pick_from-Once halted ready [] [] queue).0,
  )

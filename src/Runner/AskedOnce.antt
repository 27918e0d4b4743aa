-- ===== src/Runner/AskedOnce.antt =====
-- That `pick` of scripts/files/agent_runner_dispatch.py asks nothing twice: its dicts have what was
-- asked before.
use mathlib.Core.Path.{subst}
use local_gpu_cluster.Prelude.{
  ◌≡◌, ◌≢◌, refl, ap, String, Bool, true, false, Option, none, some, List, [], ◌∷◌, ◌++◌, All,
  if◌then◌else◌, arith, eq_iff,
}
use local_gpu_cluster.Runner.Pick.{
  Task, Question, halted_of, ready_of, Picked, picked, asking, noting, refuse_tier, note_halted,
  tier_of, is_refused, is_tier_b, Known, known, learn, once, pick_from,
}

-- No question is there twice.
abbrev pub AreDistinct : List Question → Type 0
AreDistinct [] = Unit
AreDistinct (q ∷ qs) = All (λ r. r ≢ q) qs × AreDistinct qs

-- A question whose answer is in no dict yet.
abbrev IsOpen : Known → Known → Question → Type 0
IsOpen halt ok (halted_of repo) = known repo halt ≡ none
IsOpen halt ok (ready_of repo) = known repo ok ≡ none

abbrev pub Once : Known → Known → List Question → Type 0
Once halt ok qs = AreDistinct qs × All (IsOpen halt ok) qs

known_before :
    (repo r : String) (b : Bool) (ks : Known)
    → known repo ((r, b) ∷ ks) ≡ none
    → known repo ks ≡ none
known_before repo r b ks e = ground arith

known_here : (repo : String) (b : Bool) (ks : Known) → known repo ((repo, b) ∷ ks) ≢ none
known_here repo b ks e = ground (arith, eq_iff repo repo)

known_elsewhere :
    (repo r : String) (b : Bool) (ks : Known) → known repo ((r, b) ∷ ks) ≡ none → repo ≢ r
known_elsewhere repo r b ks k e = known_here r b ks (subst (λ x. known x ((r, b) ∷ ks) ≡ none) e k)

abbrev repo_of : Question → String
repo_of (halted_of repo) = repo
repo_of (ready_of repo) = repo

after_halted :
    (r : String) (b : Bool) (halt ok : Known) (qs : List Question)
    → All (IsOpen ((r, b) ∷ halt) ok) qs
    → All (λ q. q ≢ halted_of r) qs × All (IsOpen halt ok) qs
after_halted r b halt ok [] p = (tt, tt)
after_halted r b halt ok (halted_of s ∷ qs) p =
    let (others, opens) = after_halted r b halt ok qs p.1 in
    (
      (λ e. known_elsewhere s r b halt p.0 (ap repo_of e), others),
      (known_before s r b halt p.0, opens),
    )
after_halted r b halt ok (ready_of s ∷ qs) p =
    let (others, opens) = after_halted r b halt ok qs p.1 in ((λ e. cc, others), (p.0, opens))

after_ready :
    (r : String) (b : Bool) (halt ok : Known) (qs : List Question)
    → All (IsOpen halt ((r, b) ∷ ok)) qs
    → All (λ q. q ≢ ready_of r) qs × All (IsOpen halt ok) qs
after_ready r b halt ok [] p = (tt, tt)
after_ready r b halt ok (ready_of s ∷ qs) p =
    let (others, opens) = after_ready r b halt ok qs p.1 in
    ((λ e. known_elsewhere s r b ok p.0 (ap repo_of e), others), (known_before s r b ok p.0, opens))
after_ready r b halt ok (halted_of s ∷ qs) p =
    let (others, opens) = after_ready r b halt ok qs p.1 in ((λ e. cc, others), (p.0, opens))

-- What is asked before the rest, when the rest asks nothing that is then known.
ask_halted :
    (ask : String → Bool) (repo : String) (halt ok : Known) (qs : List Question) (o : Option Bool)
    → known repo halt ≡ o
    → Once (learn ask (halted_of repo) repo halt o).1.1 ok qs
    → Once halt ok ((learn ask (halted_of repo) repo halt o).1.0 ++ qs)
ask_halted ask repo halt ok qs (some b) e p = p
ask_halted ask repo halt ok qs none e (distinct, opens) =
    let (others, before) = after_halted repo (ask repo) halt ok qs opens in
    ((others, distinct), (e, before))

ask_ready :
    (ask : String → Bool) (repo : String) (halt ok : Known) (qs : List Question) (o : Option Bool)
    → known repo ok ≡ o
    → Once halt (learn ask (ready_of repo) repo ok o).1.1 qs
    → Once halt ok ((learn ask (ready_of repo) repo ok o).1.0 ++ qs)
ask_ready ask repo halt ok qs (some b) e p = p
ask_ready ask repo halt ok qs none e (distinct, opens) =
    let (others, before) = after_ready repo (ask repo) halt ok qs opens in
    ((others, distinct), (e, before))

if_asked :
    (P : List Question → Type 0) (b : Bool) (x y : Picked)
    → P x.asked
    → P y.asked
    → P (if b then x else y).asked
if_asked P true x y p q = p
if_asked P false x y p q = q

module _ (halted ready : String → Bool) where
  pub pick_from-Once :
      (halt ok : Known) (ts : List Task) → Once halt ok (pick_from halted ready halt ok ts).asked
  unfolding pick_from once
  pick_from-Once halt ok [] = (tt, tt)
  pick_from-Once halt ok (t ∷ ts) =
      let (b, (qs, halt')) = once halted (halted_of t.repo) t.repo halt in
      let (r, (rs, ok')) = once ready (ready_of t.repo) t.repo ok in
      let rest_a = pick_from halted ready halt ok' ts in
      let rest_b = pick_from halted ready halt' ok' ts in
      let held = noting (note_halted t) (pick_from halted ready halt' ok ts) in
      let runs_a = asking rs (if r then picked (some t) else rest_a) in
      let runs_b = asking rs (if r then picked (some t) else rest_b) in
      let a_once : Once halt ok runs_a.asked =
        ask_ready ready t.repo halt ok (if r then picked (some t) else rest_a).asked
          (known t.repo ok) refl
          (if_asked (Once halt ok') r (picked (some t)) rest_a (tt, tt)
            (pick_from-Once halt ok' ts)) in
      let b_once : Once halt' ok runs_b.asked =
        ask_ready ready t.repo halt' ok (if r then picked (some t) else rest_b).asked
          (known t.repo ok) refl
          (if_asked (Once halt' ok') r (picked (some t)) rest_b (tt, tt)
            (pick_from-Once halt' ok' ts)) in
      let tier_b = if b then held else runs_b in
      if_asked (Once halt ok) (is_refused (tier_of t))
        (noting (refuse_tier t) (pick_from halted ready halt ok ts))
        (if is_tier_b (tier_of t) then asking qs tier_b else runs_a) (pick_from-Once halt ok ts)
        (if_asked (Once halt ok) (is_tier_b (tier_of t)) (asking qs tier_b) runs_a
          (ask_halted halted t.repo halt ok tier_b.asked (known t.repo halt) refl
            (if_asked (Once halt' ok) b held runs_b (pick_from-Once halt' ok ts) b_once))
          a_once)

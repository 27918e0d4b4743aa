-- ===== src/Runner/Endings.antt =====
-- How a task ends in scripts/files/agent_runner_dispatch.py.
use local_gpu_cluster.Prelude.{
  ◌≡◌, ◌↔◌, refl, ap, ◌∙◌, str_eq, String, Bool, true, false, not, ◌||◌, Option, none, some, List,
  [], ◌∷◌, if◌then◌else◌, if_either, arith,
}
use local_gpu_cluster.Prelude.Int.{ℤ, pos, negsuc}
use local_gpu_cluster.Runner.Dispatch.{
  Verdict, pass, fail, indeterminate, blocked, Report, Run, LabelEdit, is_clean, is_exit,
  needs_claude, finish_blocked, finish, requeued, on_verdict, on_report, on_code, dispatch,
}

-- A run in which the agent exits with 0 and reports a pass without deviations.
pub record IsClean (r : Run) : Type 0 where
  pub ref_ok : r.ref_ok ≡ true
  pub checked_out : r.checked_out ≡ true
  pub code : r.code ≡ some (pos 0)
  pub report : Report
  pub reports : r.report ≡ some report
  pub verdict : report.verdict ≡ some pass
  pub deviations : is_clean report.deviations ≡ true

exit-zero : (code : ℤ) → is_exit code (pos 0) ≡ true → code ≡ pos 0
exit-zero (pos n) h = ground arith
exit-zero (negsuc n) h = absurd cc

abbrev pub is_done : List String → Bool
is_done (l ∷ []) = str_eq l "runner:done"
is_done _ = false

-- The labels are runner:done, and no needs-claude.
abbrev IsDone : LabelEdit → Type 0
IsDone e = is_done e.add ≡ true

claimed :
    (claude : Bool)
    → is_done ("runner:done" ∷ (if claude then "needs-claude" ∷ [] else [])) ≡ true
    → claude ≡ false
claimed true h = cc
claimed false h = refl

blocked-done :
    (claude : Bool) {X : Type 0}
    → is_done ("runner:blocked" ∷ (if claude then "needs-claude" ∷ [] else [])) ≡ true
    → X
blocked-done true h = absurd cc
blocked-done false h = absurd cc

finish-done :
    (v : Verdict) (d : String) (code : ℤ)
    → IsDone (finish v d code)
    → (v ≡ pass) × (is_clean d ≡ true) × (code ≡ pos 0)
unfolding finish needs_claude
finish-done pass d code h =
    let n = claimed (needs_claude pass d code) h in
    (refl, ground arith, exit-zero code (ground arith))
finish-done fail d code h = absurd cc
finish-done indeterminate d code h = absurd cc
finish-done blocked d code h = blocked-done (needs_claude blocked d code) h

requeue-done :
    (swapped : Bool) {X : Type 0} → IsDone (if swapped then requeued else finish_blocked) → X
requeue-done true h = absurd cc
requeue-done false h = absurd cc

-- What was reported by a run that is done.
abbrev IsGood : ℤ → Option Report → Type 0
IsGood code report =
    (code ≡ pos 0)
    × (r : Report) × (report ≡ some r)
    × (r.verdict ≡ some pass)
    × (is_clean r.deviations ≡ true)

on_verdict-IsGood :
    (code : ℤ) (swapped : Bool) (r : Report) (v : Option Verdict)
    → r.verdict ≡ v
    → IsDone (on_verdict code swapped r.deviations v)
    → IsGood code (some r)
on_verdict-IsGood code swapped r none e h = requeue-done swapped h
on_verdict-IsGood code swapped r (some v) e h =
    let (p, c, z) = finish-done v r.deviations code h in (z, r, refl, e ∙ ap some p, c)

on_report-IsGood :
    (code : ℤ) (swapped : Bool) (o : Option Report)
    → IsDone (on_report code swapped o)
    → IsGood code o
on_report-IsGood code swapped none h = requeue-done swapped h
on_report-IsGood code swapped (some r) h = on_verdict-IsGood code swapped r r.verdict refl h

on_code-IsGood :
    (code : Option ℤ) (swapped : Bool) (o : Option Report)
    → IsDone (on_code code swapped o)
    → (n : ℤ) × (code ≡ some n) × IsGood n o
on_code-IsGood none swapped o h = absurd cc
on_code-IsGood (some n) swapped o h =
    if_either (λ e. IsDone e → (m : ℤ) × (some n ≡ some m) × IsGood m o)
      (is_exit n (pos 75) || is_exit n (pos 76)) requeued (on_report n swapped o) (λ e k. absurd cc)
      (λ e k. (n, refl, on_report-IsGood n swapped o k)) h

done-IsClean : (r : Run) → IsDone (dispatch r) → IsClean r
unfolding dispatch
done-IsClean r =
    let ran = on_code r.code r.model_swapped r.report in
    if_either (λ e. IsDone e → IsClean r) (not r.ref_ok) finish_blocked
      (if not r.checked_out then finish_blocked else ran) (λ e k. absurd cc)
      (λ e.
        if_either (λ f. IsDone f → IsClean r) (not r.checked_out) finish_blocked ran
          (λ e' k. absurd cc)
          (λ e' k.
            let (n, c, (z, rep, s, v, d)) = on_code-IsGood r.code r.model_swapped r.report k in
            record {
              ref_ok = ground arith;
              checked_out = ground arith;
              code = c ∙ ap some z;
              report = rep;
              reports = s;
              verdict = v;
              deviations = d;
            }))

clean-IsDone : (r : Run) → IsClean r → IsDone (dispatch r)
unfolding dispatch finish needs_claude
clean-IsDone r c = ground arith

-- A task ends as done, and needs nobody to look at it, exactly when its branch was read and checked
-- out, the agent exited with 0 within its time, and its report says PASS and no deviations.
pub dispatch-IsClean : (r : Run) → (is_done (dispatch r).add ≡ true) ↔ IsClean r
dispatch-IsClean r = (done-IsClean r, clean-IsDone r)

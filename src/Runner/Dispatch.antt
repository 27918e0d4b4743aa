-- ===== src/Runner/Dispatch.antt =====
-- `needs_claude`, `finish` and the endings of `dispatch` in
-- scripts/files/agent_runner_dispatch.py. The parsing of the issue and of the event log, the
-- checkout and the agent are arguments: what they found out is a record.
use local_gpu_cluster.Prelude.{
  String, Bool, true, false, not, ◌&&◌, ◌||◌, Option, none, some, List, [], ◌∷◌, ◌==◌, map,
  if◌then◌else◌,
}
use local_gpu_cluster.Prelude.Int.{ℤ, pos, negsuc}
use local_gpu_cluster.Prelude.Text.{codes, codes_eq, lower_ascii, strip, unquoted}

pub data Verdict : Type 0 where
  pass fail indeterminate blocked : Verdict

-- The report block, whose verdict may be none of those.
pub record Report : Type 0 where
  pub verdict : Option Verdict
  pub deviations : String

-- What a run has come to: the branch could be read and checked out, the exit code of agent-run
-- (none after a time-out), the agent's report, and whether the event log shows a swapped model.
pub record Run : Type 0 where
  pub ref_ok : Bool
  pub checked_out : Bool
  pub code : Option ℤ
  pub report : Option Report
  pub model_swapped : Bool

-- The last edit of the labels.
pub record LabelEdit : Type 0 where
  pub remove : List String
  pub add : List String

abbrev pub says : String → String → Bool
says word s = codes_eq (map lower_ascii (codes s)) (codes word)

unfoldable pub is_clean : String → Bool
is_clean deviations =
    let word = unquoted (strip deviations) in says "none" word || (says "no" word || says "[]" word)

abbrev pub is_pass : Verdict → Bool
is_pass pass = true
is_pass _ = false

abbrev pub is_blocked : Verdict → Bool
is_blocked blocked = true
is_blocked _ = false

abbrev pub is_exit : ℤ → ℤ → Bool
is_exit (pos m) (pos n) = m == n
is_exit (negsuc m) (negsuc n) = m == n
is_exit _ _ = false

unfoldable pub needs_claude : Verdict → String → ℤ → Bool
needs_claude verdict deviations exit_code =
    not (is_pass verdict && is_clean deviations && is_exit exit_code (pos 0))

abbrev pub ended : Verdict → Bool → LabelEdit
ended verdict claude = record {
  remove = "runner:running" ∷ [];
  add =
      (if is_blocked verdict then "runner:blocked" else "runner:done")
      ∷ (if claude then "needs-claude" ∷ [] else []);
}

-- finish, with the dispatcher's own report
abbrev pub finish_blocked : LabelEdit
finish_blocked = ended blocked true

-- finish, with the agent's report
unfoldable pub finish : Verdict → String → ℤ → LabelEdit
finish verdict deviations exit_code = ended verdict (needs_claude verdict deviations exit_code)

abbrev pub requeued : LabelEdit
requeued = record { remove = "runner:running" ∷ []; add = "runner:ready" ∷ [] }

-- By the verdict of the report, if it has one.
abbrev pub on_verdict : ℤ → Bool → String → Option Verdict → LabelEdit
on_verdict code swapped deviations none = if swapped then requeued else finish_blocked
on_verdict code swapped deviations (some v) = finish v deviations code

abbrev pub on_report : ℤ → Bool → Option Report → LabelEdit
on_report code swapped none = if swapped then requeued else finish_blocked
on_report code swapped (some r) = on_verdict code swapped r.deviations r.verdict

-- EXIT_LANE_CLOSED and EXIT_NOT_READY requeue.
abbrev pub on_code : Option ℤ → Bool → Option Report → LabelEdit
on_code none swapped report = finish_blocked
on_code (some code) swapped report =
    if is_exit code (pos 75) || is_exit code (pos 76)
    then requeued
    else on_report code swapped report

unfoldable pub dispatch : Run → LabelEdit
dispatch r =
    if not r.ref_ok
    then finish_blocked
    else if not r.checked_out
    then finish_blocked
    else on_code r.code r.model_swapped r.report

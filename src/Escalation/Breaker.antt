-- ===== src/Escalation/Breaker.antt =====
-- `rejection_streak` and `_duplicate_age` of scripts/files/escalation.py, on the ledger's rows. Times are ticks, and a
-- second is a million of them.
use local_gpu_cluster.Prelude.{
  ℕ, ◌*◌, ◌+◌, String, Bool, true, false, not, ◌||◌, Option, none, some, List, [], ◌∷◌, ◌++◌, leb,
  str_eq, if◌then◌else◌, min,
}
use local_gpu_cluster.Prelude.Int.{ℤ, pos, ◌-ℤ◌, pos_part, leb_ℤ, ltb_ℤ}
use local_gpu_cluster.Escalation.Ledger.{
  Code, brief_missing, brief_section, brief_too_large, duplicate, brief_loop, budget, Result,
  answered_ok, failed_call, unknown, refused_with, Row,
}

-- BREAKER_WINDOW_S and BREAKER_COUNT
abbrev pub breaker_window : ℤ
breaker_window = pos (600 * 1000000)

abbrev pub breaker_count : ℕ
breaker_count = 3

-- code in BRIEF_REFUSALS
abbrev pub is_brief_code : Code → Bool
is_brief_code brief_missing = true
is_brief_code brief_section = true
is_brief_code brief_too_large = true
is_brief_code duplicate = true
is_brief_code brief_loop = true
is_brief_code _ = false

abbrev pub is_brief_refusal : Result → Bool
is_brief_refusal (refused_with code) = is_brief_code code
is_brief_refusal _ = false

-- Whether the loop passes over a row: its ts is unreadable or in the future.
abbrev pub passed_over : ℤ → Option ℤ → Bool
passed_over now none = true
passed_over now (some t) = ltb_ℤ now t

-- now - t > BREAKER_WINDOW_S
abbrev pub too_old : ℤ → Option ℤ → Bool
too_old now none = false
too_old now (some t) = ltb_ℤ breaker_window (now -ℤ t)

-- The loop of `rejection_streak`, on the rows from the newest on.
unfoldable pub streak : ℤ → List Row → ℕ
streak now [] = 0
streak now (r ∷ rs) =
    let rest = streak now rs in
    if passed_over now r.ts
    then rest
    else if too_old now r.ts || not (is_brief_refusal r.outcome)
    then 0
    else rest + 1

abbrev pub reversed : List Row → List Row
reversed [] = []
reversed (r ∷ rs) = reversed rs ++ r ∷ []

unfoldable pub rejection_streak : ℤ → List Row → ℕ
rejection_streak now rows = streak now (reversed rows)

-- outcome == "ok" or "refused:budget", or an error with a cost above zero
abbrev pub is_positive : Option ℤ → Bool
is_positive none = false
is_positive (some c) = ltb_ℤ (pos 0) c

unfoldable pub spent_or_budget_refused : Row → Bool
spent_or_budget_refused r = elim r.outcome [
  | answered_ok ↦ true
  | refused_with code ↦ elim code [ budget ↦ true | _ ↦ false ]
  | failed_call ↦ is_positive r.cost_usd
  | unknown ↦ false
]

abbrev pub same_brief : String → Option String → Bool
same_brief sha none = false
same_brief sha (some s) = str_eq s sha

-- max(ts, done) if done is not None else ts
abbrev pub reference : ℤ → Option ℤ → ℤ
reference ts none = ts
reference ts (some finished) = if leb_ℤ ts finished then finished else ts

-- The age that a row adds to `ages`, if it adds one.
abbrev pub age_at : ℤ → ℕ → ℤ → Option ℕ
age_at now dedupe ref = if leb_ℤ (now -ℤ pos dedupe) ref then some (pos_part (now -ℤ ref)) else none

abbrev pub age_of : ℤ → ℕ → Option ℤ → Option ℤ → Option ℕ
age_of now dedupe none finished = none
age_of now dedupe (some ts) finished =
    if ltb_ℤ now ts then none else age_at now dedupe (reference ts finished)

unfoldable pub row_age : ℤ → ℕ → String → Row → Option ℕ
row_age now dedupe sha r =
    if not (same_brief sha r.brief_sha256) || not (spent_or_budget_refused r)
    then none
    else age_of now dedupe r.ts r.done_ts

-- min(ages) if ages else None
abbrev pub least : Option ℕ → Option ℕ → Option ℕ
least none b = b
least (some a) none = some a
least (some a) (some b) = some (min a b)

unfoldable pub ages : ℤ → ℕ → String → List Row → Option ℕ
ages now dedupe sha [] = none
ages now dedupe sha (r ∷ rs) = least (row_age now dedupe sha r) (ages now dedupe sha rs)

unfoldable pub duplicate_age : ℤ → ℕ → String → List Row → Option ℕ
duplicate_age now dedupe sha rows = if leb dedupe 0 then none else ages now dedupe sha rows

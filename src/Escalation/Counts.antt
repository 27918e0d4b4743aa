-- ===== src/Escalation/Counts.antt =====
-- The daily call counts of scripts/files/escalation.py hold through any interleaving of one day's calls.
use local_gpu_cluster.Prelude.{
  ℕ, ◌+◌, ◌≤◌, ◌≡◌, refl, Bool, true, false, Option, none, some, List, [], ◌∷◌, total, max, arith,
  inl, inr, Option-cases,
}
use local_gpu_cluster.Escalation.Budget.{
  Alias, claude_ask, claude_auto, claude_hard, same_alias, Caps, Usage, check_budget,
}
use local_gpu_cluster.Escalation.Ledger.{
  Row, is_refused, Reservation, Ledger, row_calls, pending_calls, calls_since, usage, hold, reserve,
  append, settle,
}
use local_gpu_cluster.Escalation.Caps.{
  total-append, total-drop_token, find_token, Day, opened, reserving, settling, refusing,
  in_period-now,
}

rows-now :
    (a : Alias) (day0 now : ℕ) (rs : List Row)
    → day0 ≤ now
    → total (row_calls a day0 now) rs ≡ total (row_calls a day0 day0) rs
unfolding total
rows-now a day0 now [] le = refl
rows-now a day0 now (r ∷ rs) le =
    rw (in_period-now day0 now r.ts le) (omega (arith, rows-now a day0 now rs le))

calls_since-now :
    (a : Alias) (day0 now : ℕ) (l : Ledger)
    → day0 ≤ now
    → calls_since a day0 now l ≡ calls_since a day0 day0 l
unfolding calls_since
calls_since-now a day0 now l le = omega (arith, rows-now a day0 now l.rows le)

abbrev one_if : Bool → ℕ
one_if true = 1
one_if false = 0

calls_since-hold :
    (a alias : Alias) (day0 worst : ℕ) (l : Ledger)
    → calls_since a day0 day0 (hold alias worst l)
      ≡ calls_since a day0 day0 l + one_if (same_alias alias a)
unfolding calls_since total
calls_since-hold a alias day0 worst l = ground (
  arith,
  total-append (pending_calls a) l.pending
      (record { token = l.next_token; alias = alias; worst = worst } ∷ []),
)

-- A settlement of a call of an alias counts it at most once.
calls_since-settle :
    (a : Alias) (day0 : ℕ) (written : Bool) (row : Row) (p : Reservation) (l : Ledger)
    → find_token p.token l.pending ≡ some p
    → row.alias ≡ some p.alias
    → calls_since a day0 day0 (settle written p.token row l) ≤ calls_since a day0 day0 l
unfolding calls_since total
calls_since-settle a day0 false row p l f e = omega arith
calls_since-settle a day0 true row p l f e =
    let moved = total-drop_token (pending_calls a) p.token l.pending p f in
    let added = total-append (row_calls a day0 day0) l.rows (row ∷ []) in
    let small : row_calls a day0 day0 row ≤ pending_calls a p = rw e (ground arith) in
    omega (arith, moved, added, small)

calls_since-refuse :
    (a : Alias) (day0 : ℕ) (row : Row) (l : Ledger)
    → is_refused row.outcome ≡ true
    → calls_since a day0 day0 (append row l) ≡ calls_since a day0 day0 l
unfolding calls_since total
calls_since-refuse a day0 row l c =
    let none_of : row_calls a day0 day0 row ≤ 0 = rw c (ground arith) in
    omega (arith, total-append (row_calls a day0 day0) l.rows (row ∷ []), none_of)

-- A count at most its limit, or at most what it was before, where that is more.
abbrev pub AtMost : Option ℕ → ℕ → ℕ → Type 0
AtMost limit before used = (n : ℕ) → limit ≡ some n → used ≤ max n before

-- What the check lets through leaves each count within its limit.
check_budget-counts :
    (cfg : Caps) (u : Usage) (alias : Alias) (worst : ℕ)
    → check_budget cfg u alias worst ≡ none
    → AtMost cfg.auto_daily_calls
        (u.calls claude_auto)
        (u.calls claude_auto + one_if (same_alias alias claude_auto))
      × AtMost cfg.hard_daily_calls
          (u.calls claude_hard)
          (u.calls claude_hard + one_if (same_alias alias claude_hard))
      × AtMost cfg.shared_daily_calls (u.calls claude_ask + u.calls claude_auto) (
          u.calls claude_ask
          + u.calls claude_auto
          + one_if (same_alias alias claude_ask)
          + one_if (same_alias alias claude_auto))
unfolding check_budget
check_budget-counts cfg u claude_ask worst h =
    (λ n a. ground arith, λ n a. ground arith, λ n a. ground arith)
check_budget-counts cfg u claude_auto worst h =
    (λ n a. ground arith, λ n a. ground arith, λ n a. ground arith)
check_budget-counts cfg u claude_hard worst h =
    (λ n a. ground arith, λ n a. ground arith, λ n a. ground arith)

module _ (cfg : Caps) (day0 month0 : ℕ) (first : Ledger) where
  -- The three counts of a day, against their limits and where they were at first.
  abbrev pub Counted : Ledger → Type 0
  Counted l =
      AtMost cfg.auto_daily_calls (calls_since claude_auto day0 day0 first)
        (calls_since claude_auto day0 day0 l)
      × AtMost cfg.hard_daily_calls (calls_since claude_hard day0 day0 first)
          (calls_since claude_hard day0 day0 l)
      × AtMost cfg.shared_daily_calls
          (calls_since claude_ask day0 day0 first + calls_since claude_auto day0 day0 first)
          (calls_since claude_ask day0 day0 l + calls_since claude_auto day0 day0 l)

  reserve-Counted :
      (alias : Alias) (worst now : ℕ) (l : Ledger)
      → day0 ≤ now
      → Counted l
      → Counted (reserve cfg day0 month0 now alias worst l).1
  unfolding reserve
  reserve-Counted alias worst now l le (ha, hh, hs) =
      elim (Option-cases (check_budget cfg (usage cfg day0 month0 now l) alias worst)) [
        | inr (r, refusal) ↦ rw refusal (ha, hh, hs)
        | inl ok ↦
            let (ca, ch, cs) =
              check_budget-counts cfg (usage cfg day0 month0 now l) alias worst ok in
            let auto = calls_since-hold claude_auto alias day0 worst l in
            let hard = calls_since-hold claude_hard alias day0 worst l in
            let ask = calls_since-hold claude_ask alias day0 worst l in
            let auto' = calls_since-now claude_auto day0 now l le in
            let hard' = calls_since-now claude_hard day0 now l le in
            let ask' = calls_since-now claude_ask day0 now l le in
            rw ok (
              λ n e. omega (arith, ca n e, ha n e, auto, auto'),
              λ n e. omega (arith, ch n e, hh n e, hard, hard'),
              λ n e. omega (arith, cs n e, hs n e, ask, ask', auto, auto'),
            )
      ]

  -- However the calls of a day interleave, the automatic calls, the Opus calls and the calls of the two
  -- Sonnet aliases together, recorded or in flight, each stay within their limit, where there is one, or
  -- within what the day had at the start if that was more.
  pub calls_limited : {l : Ledger} {excess : ℕ} → Day cfg day0 month0 first l excess → Counted l
  calls_limited opened = (λ n e. ground arith, λ n e. ground arith, λ n e. ground arith)
  calls_limited (reserving {l} alias worst now d m r) =
      reserve-Counted alias worst now l d (calls_limited r)
  calls_limited (settling {l} written row p cost f a c r) =
      let (ha, hh, hs) = calls_limited r in
      let auto = calls_since-settle claude_auto day0 written row p l f a in
      let hard = calls_since-settle claude_hard day0 written row p l f a in
      let ask = calls_since-settle claude_ask day0 written row p l f a in
      (
        λ n e. omega (arith, ha n e, auto),
        λ n e. omega (arith, hh n e, hard),
        λ n e. omega (arith, hs n e, auto, ask),
      )
  calls_limited (refusing {l} row refused c r) =
      let (ha, hh, hs) = calls_limited r in
      let auto = calls_since-refuse claude_auto day0 row l refused in
      let hard = calls_since-refuse claude_hard day0 row l refused in
      let ask = calls_since-refuse claude_ask day0 row l refused in
      (
        λ n e. omega (arith, ha n e, auto),
        λ n e. omega (arith, hh n e, hard),
        λ n e. omega (arith, hs n e, auto, ask),
      )

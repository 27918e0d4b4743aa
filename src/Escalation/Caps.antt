-- ===== src/Escalation/Caps.antt =====
-- The caps and the call counts of scripts/files/escalation.py hold through any interleaving of reservations,
-- settlements and refusals of one day.
use mathlib.Core.Option.{some-injective}
use local_gpu_cluster.Prelude.{
  ℕ, ◌+◌, ◌-◌, ◌≤◌, ◌≡◌, refl, ap, inl, inr, Bool, true, false, Option, none, some, List, [], ◌∷◌,
  ◌++◌, ◌==◌, if◌then◌else◌, total, max, arith, Bool-cases, Option-cases,
}
use local_gpu_cluster.Prelude.Int.{ℤ, pos}
use local_gpu_cluster.Escalation.Budget.{Alias, Caps, Usage, check_budget}
use local_gpu_cluster.Escalation.Ledger.{
  Row, is_refused, Reservation, Ledger, in_period, row_cost, worst_of, cost_since, usage, hold,
  reserve, drop_token, append, settle,
}

pub total-append {ℓ} :
    {A : Type ℓ} (w : A → ℕ) (xs ys : List A) → total w (xs ++ ys) ≡ total w xs + total w ys
unfolding total
total-append w [] ys = omega arith
total-append w (x ∷ xs) ys = omega (arith, total-append w xs ys)

-- The reservation of a token.
unfoldable pub find_token : ℕ → List Reservation → Option Reservation
find_token token [] = none
find_token token (p ∷ ps) = if p.token == token then some p else find_token token ps

pub total-drop_token :
    (w : Reservation → ℕ) (token : ℕ) (ps : List Reservation) (p : Reservation)
    → find_token token ps ≡ some p
    → total w ps ≡ w p + total w (drop_token token ps)
unfolding total find_token drop_token
total-drop_token w token [] p h = ground arith
total-drop_token w token (q ∷ ps) p h = elim (Bool-cases (q.token == token)) [
  | inl y ↦ let e : q ≡ p = some-injective _ _ (rw y at h) in rw y (ap (λ x. w x + total w ps) e)
  | inr n ↦ rw n (omega (arith, total-drop_token w token ps p (rw n at h)))
]

module _ (cfg : Caps) (day0 month0 : ℕ) (first : Ledger) where
  -- What one day's calls do to the ledger, in any order, each check at a time of that day and month. The
  -- number is the sum, over the calls that were recorded, of what each cost beyond its reservation.
  pub data Day : Ledger → ℕ → Type 0 where
    opened : Day first 0
    reserving :
        {l : Ledger} {excess : ℕ} (alias : Alias) (worst now : ℕ)
        → day0 ≤ now
        → month0 ≤ now
        → Day l excess
        → Day (reserve cfg day0 month0 now alias worst l).1 excess
    settling :
        {l : Ledger} {excess : ℕ} (written : Bool) (row : Row) (p : Reservation) (cost : ℕ)
        → find_token p.token l.pending ≡ some p
        → row.alias ≡ some p.alias
        → row.cost_usd ≡ some (pos cost)
        → Day l excess
        → Day (settle written p.token row l) (excess + (cost - p.worst))
    refusing :
        {l : Ledger} {excess : ℕ} (row : Row)
        → is_refused row.outcome ≡ true
        → row.cost_usd ≡ some (pos 0)
        → Day l excess
        → Day (append row l) excess

-- Within a period the time of the reading makes no difference.
pub in_period-now :
    (start now : ℕ) (t : Option ℤ) → start ≤ now → in_period start now t ≡ in_period start start t
in_period-now start now none le = ground arith
in_period-now start now (some t) le = refl

rows-now :
    (cfg : Caps) (start now : ℕ) (rs : List Row)
    → start ≤ now
    → total (row_cost cfg start now) rs ≡ total (row_cost cfg start start) rs
unfolding total
rows-now cfg start now [] le = refl
rows-now cfg start now (r ∷ rs) le =
    rw (in_period-now start now r.ts le) (omega (arith, rows-now cfg start now rs le))

pub cost_since-now :
    (cfg : Caps) (start now : ℕ) (l : Ledger)
    → start ≤ now
    → cost_since cfg start now l ≡ cost_since cfg start start l
unfolding cost_since
cost_since-now cfg start now l le = omega (arith, rows-now cfg start now l.rows le)

-- What the check lets through fits both caps.
check_budget-fits :
    (cfg : Caps) (u : Usage) (alias : Alias) (worst : ℕ)
    → check_budget cfg u alias worst ≡ none
    → (u.month_cost + worst ≤ cfg.month_cap) × (u.day_cost + worst ≤ cfg.day_cap)
unfolding check_budget
check_budget-fits cfg u alias worst h = ground arith

cost_since-hold :
    (cfg : Caps) (start : ℕ) (alias : Alias) (worst : ℕ) (l : Ledger)
    → cost_since cfg start start (hold alias worst l) ≡ cost_since cfg start start l + worst
unfolding cost_since total
cost_since-hold cfg start alias worst l = omega (
  arith,
  total-append worst_of l.pending
      (record { token = l.next_token; alias = alias; worst = worst } ∷ []),
)

row_cost-le :
    (cfg : Caps) (start : ℕ) (row : Row) (cost : ℕ)
    → row.cost_usd ≡ some (pos cost)
    → row_cost cfg start start row ≤ cost
row_cost-le cfg start row cost c = rw c (ground arith)

-- A settlement moves the cost from the reservation to a row, if the row is in the period.
cost_since-settle :
    (cfg : Caps) (start : ℕ) (written : Bool) (row : Row) (p : Reservation) (cost : ℕ) (l : Ledger)
    → find_token p.token l.pending ≡ some p
    → row.cost_usd ≡ some (pos cost)
    → cost_since cfg start start (settle written p.token row l)
      ≤ cost_since cfg start start l + (cost - p.worst)
unfolding cost_since total
cost_since-settle cfg start false row p cost l f c = omega arith
cost_since-settle cfg start true row p cost l f c =
    let moved = total-drop_token worst_of p.token l.pending p f in
    let added = total-append (row_cost cfg start start) l.rows (row ∷ []) in
    let small : row_cost cfg start start row ≤ cost = row_cost-le cfg start row cost c in
    omega (arith, moved, added, small)

cost_since-refuse :
    (cfg : Caps) (start : ℕ) (row : Row) (l : Ledger)
    → row.cost_usd ≡ some (pos 0)
    → cost_since cfg start start (append row l) ≡ cost_since cfg start start l
unfolding cost_since total
cost_since-refuse cfg start row l c =
    let small : row_cost cfg start start row ≤ 0 = row_cost-le cfg start row 0 c in
    omega (arith, total-append (row_cost cfg start start) l.rows (row ∷ []), small)

module _ (cfg : Caps) (day0 month0 : ℕ) (first : Ledger) where
  reserve-day :
      (alias : Alias) (worst now : ℕ) (l : Ledger) (bound : ℕ)
      → day0 ≤ now
      → cfg.day_cap ≤ bound
      → cost_since cfg day0 day0 l ≤ bound
      → cost_since cfg day0 day0 (reserve cfg day0 month0 now alias worst l).1 ≤ bound
  unfolding reserve
  reserve-day alias worst now l bound le above h =
      elim (Option-cases (check_budget cfg (usage cfg day0 month0 now l) alias worst)) [
        | inl ok ↦
            let (m, d) = check_budget-fits cfg (usage cfg day0 month0 now l) alias worst ok in
            rw ok (
              omega (
                arith,
                cost_since-hold cfg day0 alias worst l,
                cost_since-now cfg day0 now l le,
                d,
              ))
        | inr (r, refusal) ↦ rw refusal h
      ]

  reserve-month :
      (alias : Alias) (worst now : ℕ) (l : Ledger) (bound : ℕ)
      → month0 ≤ now
      → cfg.month_cap ≤ bound
      → cost_since cfg month0 month0 l ≤ bound
      → cost_since cfg month0 month0 (reserve cfg day0 month0 now alias worst l).1 ≤ bound
  unfolding reserve
  reserve-month alias worst now l bound le above h =
      elim (Option-cases (check_budget cfg (usage cfg day0 month0 now l) alias worst)) [
        | inl ok ↦
            let (m, d) = check_budget-fits cfg (usage cfg day0 month0 now l) alias worst ok in
            rw ok (
              omega (
                arith,
                cost_since-hold cfg month0 alias worst l,
                cost_since-now cfg month0 now l le,
                m,
              ))
        | inr (r, refusal) ↦ rw refusal h
      ]

  -- However the calls of a day interleave, what is spent and reserved in the day and in the month stays
  -- within the cap, or what it was at the start if that was more, plus what the recorded
  -- calls cost beyond their reservations.
  pub spending_capped :
      {l : Ledger} {excess : ℕ}
      → Day cfg day0 month0 first l excess
      → (cost_since cfg day0 day0 l ≤ max cfg.day_cap (cost_since cfg day0 day0 first) + excess)
        × (cost_since cfg month0 month0 l
            ≤ max cfg.month_cap (cost_since cfg month0 month0 first) + excess)
  spending_capped opened = ground arith
  spending_capped (reserving {l} {excess} alias worst now d m r) =
      let (hd, hm) = spending_capped r in
      (
        reserve-day alias worst now l _ d (ground arith) hd,
        reserve-month alias worst now l _ m (ground arith) hm,
      )
  spending_capped (settling {l} {excess} written row p cost f a c r) =
      let (hd, hm) = spending_capped r in
      (
        omega (arith, cost_since-settle cfg day0 written row p cost l f c, hd),
        omega (arith, cost_since-settle cfg month0 written row p cost l f c, hm),
      )
  spending_capped (refusing {l} row refused c r) =
      let (hd, hm) = spending_capped r in
      (
        omega (arith, cost_since-refuse cfg day0 row l c, hd),
        omega (arith, cost_since-refuse cfg month0 row l c, hm),
      )

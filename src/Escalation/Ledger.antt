-- ===== src/Escalation/Ledger.antt =====
-- `Ledger` of scripts/files/escalation.py: the rows of the file, what `_finite` reads in them, and the
-- reservations of the calls in flight. The bounds of the day and the month are arguments.
use local_gpu_cluster.Prelude.{
  String, ℕ, ◌+◌, Bool, true, false, not, ◌&&◌, Option, none, some, List, [], ◌∷◌, ◌++◌, leb, ◌==◌,
  if◌then◌else◌, total,
}
use local_gpu_cluster.Prelude.Int.{ℤ, pos, leb_ℤ}
use local_gpu_cluster.Escalation.Budget.{Alias, same_alias, Caps, Usage, Reason, check_budget}

-- The codes of a refusal; `other_code` is any other text after "refused:".
pub data Code : Type 0 where
  brief_missing brief_section brief_too_large duplicate brief_loop budget unpriced no_key : Code
  other_code : Code

-- An outcome: "ok", "refused:" and a code, "error:" and a class, or any other value.
pub data Result : Type 0 where
  answered_ok failed_call unknown : Result
  refused_with : Code → Result

-- One ledger line. `ts`, `cost_usd` and `done_ts` are `none` where `_finite` is, `alias` where it is none of
-- ALIASES.
pub record Row : Type 0 where
  pub ts : Option ℤ
  pub cost_usd : Option ℤ
  pub alias : Option Alias
  pub outcome : Result
  pub brief_sha256 : Option String
  pub done_ts : Option ℤ

-- str(r.get("outcome", "")).startswith("refused")
abbrev pub is_refused : Result → Bool
is_refused (refused_with code) = true
is_refused _ = false

-- One entry of `_pending`: the token, the alias and the worst-case cost.
pub record Reservation : Type 0 where
  pub token : ℕ
  pub alias : Alias
  pub worst : ℕ

-- The file and the reservations. `uuid4` gives a token that was not given before: here, the next number.
pub record Ledger : Type 0 where
  pub rows : List Row
  pub pending : List Reservation
  pub next_token : ℕ

-- t >= start, where an unreadable ts counts as now
abbrev pub in_period : ℕ → ℕ → Option ℤ → Bool
in_period start now none = leb start now
in_period start now (some t) = leb_ℤ (pos start) t

-- An unreadable or negative cost counts as the day's cap.
abbrev pub cost_of : Caps → Option ℤ → ℕ
cost_of cfg (some (pos n)) = n
cost_of cfg _ = cfg.day_cap

abbrev pub row_cost : Caps → ℕ → ℕ → Row → ℕ
row_cost cfg start now r = if in_period start now r.ts then cost_of cfg r.cost_usd else 0

abbrev pub is_call_of : Alias → Option Alias → Bool
is_call_of a none = false
is_call_of a (some b) = same_alias b a

abbrev pub row_calls : Alias → ℕ → ℕ → Row → ℕ
row_calls a day0 now r =
    if in_period day0 now r.ts && (is_call_of a r.alias && not (is_refused r.outcome)) then 1 else 0

abbrev pub pending_calls : Alias → Reservation → ℕ
pending_calls a p = if same_alias p.alias a then 1 else 0

abbrev pub worst_of : Reservation → ℕ
worst_of p = p.worst

-- What is spent or reserved since `start`.
unfoldable pub cost_since : Caps → ℕ → ℕ → Ledger → ℕ
cost_since cfg start now l = total (row_cost cfg start now) l.rows + total worst_of l.pending

unfoldable pub calls_since : Alias → ℕ → ℕ → Ledger → ℕ
calls_since a day0 now l = total (row_calls a day0 now) l.rows + total (pending_calls a) l.pending

abbrev pub usage : Caps → ℕ → ℕ → ℕ → Ledger → Usage
usage cfg day0 month0 now l = record {
  day_cost = cost_since cfg day0 now l;
  month_cost = cost_since cfg month0 now l;
  calls = λ a. calls_since a day0 now l;
}

abbrev pub hold : Alias → ℕ → Ledger → Ledger
hold alias worst l = record l {
  pending = l.pending ++ record { token = l.next_token; alias = alias; worst = worst } ∷ [];
  next_token = l.next_token + 1;
}

abbrev pub reserve_on : Option Reason → Alias → ℕ → Ledger → Option ℕ × Ledger
reserve_on (some reason) alias worst l = (none, l)
reserve_on none alias worst l = (some l.next_token, hold alias worst l)

-- `reserve`, on a known alias and a worst case that is a finite number: the token, and the ledger after it.
unfoldable pub reserve : Caps → ℕ → ℕ → ℕ → Alias → ℕ → Ledger → Option ℕ × Ledger
reserve cfg day0 month0 now alias worst l =
    reserve_on (check_budget cfg (usage cfg day0 month0 now l) alias worst) alias worst l

-- self._pending.pop(token, None)
unfoldable pub drop_token : ℕ → List Reservation → List Reservation
drop_token token [] = []
drop_token token (p ∷ ps) = if p.token == token then ps else p ∷ drop_token token ps

abbrev pub append : Row → Ledger → Ledger
append row l = record l { rows = l.rows ++ row ∷ [] }

abbrev pub release : ℕ → Ledger → Ledger
release token l = record l { pending = drop_token token l.pending }

-- `settle`, where the write succeeds or raises.
abbrev pub settle : Bool → ℕ → Row → Ledger → Ledger
settle true token row l = release token (append row l)
settle false token row l = l

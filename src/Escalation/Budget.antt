-- ===== src/Escalation/Budget.antt =====
-- `check_budget` and `_calls_left` of scripts/files/escalation.py. Amounts of money are natural numbers of one
-- small unit, added exactly, where the program adds floats.
use local_gpu_cluster.Prelude.{
  ℕ, ◌+◌, ◌-◌, Bool, true, false, not, Option, none, some, leb, if◌then◌else◌, min,
}

-- ALIASES
pub data Alias : Type 0 where
  claude_ask claude_auto claude_hard : Alias

abbrev pub same_alias : Alias → Alias → Bool
same_alias claude_ask claude_ask = true
same_alias claude_auto claude_auto = true
same_alias claude_hard claude_hard = true
same_alias _ _ = false

-- The caps and limits of `Config`; a call count of `none` is no limit.
pub record Caps : Type 0 where
  pub month_cap : ℕ
  pub day_cap : ℕ
  pub shared_daily_calls : Option ℕ
  pub auto_daily_calls : Option ℕ
  pub hard_daily_calls : Option ℕ

pub record Usage : Type 0 where
  pub day_cost : ℕ
  pub month_cost : ℕ
  pub calls : Alias → ℕ

pub data Reason : Type 0 where
  month_cap_reached day_cap_reached hard_used shared_used auto_used : Reason

-- limit is not None and used >= limit
abbrev pub used_up : Option ℕ → ℕ → Bool
used_up none used = false
used_up (some limit) used = leb limit used

abbrev pub check_auto : Caps → Usage → Alias → Option Reason
check_auto cfg u claude_auto =
    if used_up cfg.auto_daily_calls (u.calls claude_auto) then some auto_used else none
check_auto cfg u _ = none

abbrev pub check_calls : Caps → Usage → Alias → Option Reason
check_calls cfg u claude_hard =
    if used_up cfg.hard_daily_calls (u.calls claude_hard) then some hard_used else none
check_calls cfg u alias =
    if used_up cfg.shared_daily_calls (u.calls claude_ask + u.calls claude_auto)
    then some shared_used
    else check_auto cfg u alias

unfoldable pub check_budget : Caps → Usage → Alias → ℕ → Option Reason
check_budget cfg u alias worst =
    if not (leb (u.month_cost + worst) cfg.month_cap)
    then some month_cap_reached
    else if not (leb (u.day_cost + worst) cfg.day_cap)
    then some day_cap_reached
    else check_calls cfg u alias

-- left(limit, used)
abbrev pub left : Option ℕ → ℕ → Option ℕ
left none used = none
left (some limit) used = some (limit - used)

abbrev pub at_most : Option ℕ → Option ℕ → Option ℕ
at_most none shared = shared
at_most (some a) none = some a
at_most (some a) (some s) = some (min a s)

unfoldable pub calls_left : Caps → Usage → Alias → Option ℕ
calls_left cfg u claude_ask = left cfg.shared_daily_calls (u.calls claude_ask + u.calls claude_auto)
calls_left cfg u claude_auto =
    at_most (left cfg.auto_daily_calls (u.calls claude_auto))
      (left cfg.shared_daily_calls (u.calls claude_ask + u.calls claude_auto))
calls_left cfg u claude_hard = left cfg.hard_daily_calls (u.calls claude_hard)

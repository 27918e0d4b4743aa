-- ===== src/Escalation/Tests.antt =====
-- Calls under scripts/files/escalation.py.
use local_gpu_cluster.Prelude.{
  ◌≡◌, ◌≤◌, ◌+◌, refl, true, false, none, some, [], ◌∷◌, ◌++◌, arith, ◌⊎◌, max, total,
}
use local_gpu_cluster.Prelude.Int.{pos}
use local_gpu_cluster.Escalation.Budget.{claude_auto, claude_hard, Caps, check_budget}
use local_gpu_cluster.Escalation.Ledger.{
  Row, answered_ok, Reservation, Ledger, cost_since, calls_since, reserve, drop_token,
}
use local_gpu_cluster.Escalation.Caps.{
  Day, opened, reserving, settling, find_token, spending_capped,
}
use local_gpu_cluster.Escalation.Counts.{Counted, calls_limited}
use local_gpu_cluster.Escalation.Breaker.{duplicate_age, ages, row_age}
use local_gpu_cluster.Escalation.Handle.{Call, completed, send, handle}
use local_gpu_cluster.Escalation.Accounts.{IsAccounted, handle-IsAccounted}
use local_gpu_cluster.Escalation.Once.{answered_once}
use local_gpu_cluster.Escalation.Post.{
  total_timeout, response, transport, attempt, post, failure_cost, SomeBilled, failure_cost_exact,
}

abbrev caps : Caps
caps = record {
  month_cap = 150;
  day_cap = 7;
  shared_daily_calls = none;
  auto_daily_calls = some 1;
  hard_daily_calls = none;
}

abbrev no_calls : Ledger
no_calls = record { rows = []; pending = []; next_token = 0 }

abbrev auto_call : Reservation
auto_call = record { token = 0; alias = claude_auto; worst = 3 }

abbrev auto_row : Row
auto_row = record {
  ts = some (pos 20);
  cost_usd = some (pos 5);
  alias = some claude_auto;
  outcome = answered_ok;
  brief_sha256 = none;
  done_ts = none;
}

-- An automatic call is reserved at 3, another is refused, and the first is settled at 5.
abbrev one_call : (l : Ledger) × Day caps 10 0 no_calls l 2
unfolding reserve check_budget cost_since calls_since total find_token drop_token
one_call = (
  _,
  settling true auto_row auto_call 5 refl refl refl (
      reserving claude_auto 3 21 (omega arith) (omega arith)
        (reserving claude_auto 3 20 (omega arith) (omega arith) opened)),
)

spending_capped_example :
    (cost_since caps 10 10 one_call.0 ≤ max 7 (cost_since caps 10 10 no_calls) + 2)
    × (cost_since caps 0 0 one_call.0 ≤ max 150 (cost_since caps 0 0 no_calls) + 2)
spending_capped_example = spending_capped caps 10 0 no_calls one_call.1

calls_limited_example : Counted caps 10 0 no_calls one_call.0
calls_limited_example = calls_limited caps 10 0 no_calls one_call.1

failure_cost_exact_example :
    (SomeBilled (response 429 true) total_timeout × (failure_cost 3 (transport false) ≡ 3))
    ⊎ ((¬ SomeBilled (response 429 true) total_timeout) × (failure_cost 3 (transport false) ≡ 0))
unfolding post attempt
failure_cost_exact_example =
    failure_cost_exact (response 429 true) total_timeout 502 3 (transport false) refl

-- A brief that Anthropic answers at a cost of 2, and the same brief again a little later.
abbrev first_call : Call
first_call = record {
  alias = claude_auto;
  now = 20;
  brief = some "d1";
  invalid = none;
  priced = true;
  has_key = true;
  worst = 3;
  cancelled = none;
  first = response 200 true;
  second = total_timeout;
  usage_cost = some 2;
  written = true;
  done_ts = 25;
}

abbrev second_call : Call
second_call = record first_call { now = 30 }

handle-IsAccounted_example :
    IsAccounted first_call no_calls (handle caps 10 0 120 first_call no_calls)
handle-IsAccounted_example = handle-IsAccounted first_call no_calls tt caps 10 0 120

answers : (handle caps 10 0 120 first_call no_calls).reply ≡ completed
unfolding handle send reserve check_budget cost_since calls_since total duplicate_age ages post
    attempt
answers = refl

-- What another call, with another brief, leaves in between.
abbrev other_call : Call
other_call = record first_call { alias = claude_hard; now = 26; brief = some "d2"; done_ts = 28 }

abbrev answered_ledger : Ledger
answered_ledger = (handle caps 10 0 120 first_call no_calls).ledger

abbrev other_row : Row
other_row = record {
  ts = some (pos 26);
  cost_usd = some (pos 2);
  alias = some claude_hard;
  outcome = answered_ok;
  brief_sha256 = some "d2";
  done_ts = some (pos 28);
}

abbrev grown_ledger : Ledger
grown_ledger = (handle caps 10 0 120 other_call answered_ledger).ledger

grows : grown_ledger.rows ≡ answered_ledger.rows ++ other_row ∷ []
unfolding handle send reserve check_budget cost_since calls_since total duplicate_age ages row_age
    drop_token post attempt
grows = refl

answered_once_example : (handle caps 10 0 120 second_call grown_ledger).sends ≡ 0
answered_once_example =
    answered_once caps 10 0 120 first_call second_call no_calls grown_ledger (other_row ∷ []) "d1"
      refl refl answers (omega arith) (omega arith) (omega arith) grows

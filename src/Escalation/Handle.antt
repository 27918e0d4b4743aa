-- ===== src/Escalation/Handle.antt =====
-- `handle` of scripts/files/escalation.py, from the brief to the ledger. What the brief's checks said, whether the
-- model has a price and the key could be read, the worst case, and what the network and the file
-- did are fields of the call.
use local_gpu_cluster.Prelude.{
  ℕ, ◌+◌, String, Bool, true, false, Option, none, some, List, leb, if◌then◌else◌,
}
use local_gpu_cluster.Prelude.Int.{ℤ, pos}
use local_gpu_cluster.Escalation.Budget.{Alias, Caps}
use local_gpu_cluster.Escalation.Ledger.{
  Code, brief_missing, duplicate, brief_loop, budget, unpriced, no_key, Result, answered_ok,
  failed_call, refused_with, Row, Ledger, reserve, append, settle,
}
use local_gpu_cluster.Escalation.Breaker.{
  is_brief_code, breaker_count, rejection_streak, duplicate_age,
}
use local_gpu_cluster.Escalation.Post.{Attempt, Posted, answered, failed, post, failure_cost}

-- One call, with what happens to it.
pub record Call : Type 0 where
  pub alias : Alias
  pub now : ℕ
  -- The SHA-256 of the brief, if the body has one, and what `validate_brief` refuses it for.
  pub brief : Option String
  pub invalid : Option Code
  pub priced : Bool
  pub has_key : Bool
  pub worst : ℕ
  -- The attempts that were begun when the client cancelled, if it did.
  pub cancelled : Option ℕ
  pub first : Attempt
  pub second : Attempt
  -- The cost by the usage that the answer reports, unless that is unusable.
  pub usage_cost : Option ℕ
  pub written : Bool
  pub done_ts : ℕ

pub data Reply : Type 0 where
  refused : Code → Reply
  upstream ledger_failed completed raised : Reply

pub record Handled : Type 0 where
  pub reply : Reply
  pub ledger : Ledger
  pub sends : ℕ

-- The code that `refuse` writes.
unfoldable pub breaker_code : ℕ → Code → List Row → Code
breaker_code now code rows =
    if is_brief_code code
    then if leb breaker_count (rejection_streak (pos now) rows + 1) then brief_loop else code
    else code

-- dict(row, ...)
abbrev pub row_of : Call → ℕ → Result → Option ℤ → Row
row_of c cost outcome finished = record {
  ts = some (pos c.now);
  cost_usd = some (pos cost);
  alias = some c.alias;
  outcome = outcome;
  brief_sha256 = c.brief;
  done_ts = finished;
}

-- The append's exception is caught by nobody.
unfoldable pub refuse : Call → Code → Ledger → Handled
refuse c code l =
    let shown = breaker_code c.now code l.rows in
    if c.written
    then record {
      reply = refused shown;
      ledger = append (row_of c 0 (refused_with shown) none) l;
      sends = 0;
    }
    else record { reply = raised; ledger = l; sends = 0 }

-- The inner `settle`, and the reply if it succeeds.
abbrev pub settle_with : Call → ℕ → ℕ → ℕ → Result → Reply → Ledger → Handled
settle_with c token sends cost outcome reply l = record {
  reply = if c.written then reply else ledger_failed;
  ledger = settle c.written token (row_of c cost outcome (some (pos c.done_ts))) l;
  sends = sends;
}

abbrev pub on_usage : Call → ℕ → ℕ → Option ℕ → Ledger → Handled
on_usage c token sends none l = settle_with c token sends c.worst failed_call upstream l
on_usage c token sends (some cost) l = settle_with c token sends cost answered_ok completed l

abbrev pub on_posted : Call → ℕ → Posted × ℕ → Ledger → Handled
on_posted c token (answered, sends) l = on_usage c token sends c.usage_cost l
on_posted c token (failed status err, sends) l =
    settle_with c token sends (failure_cost c.worst err) failed_call upstream l

-- A cancellation is charged the worst case and raised again, whether it could be recorded or not.
abbrev pub on_cancelled : Call → ℕ → Option ℕ → Ledger → Handled
on_cancelled c token none l = on_posted c token (post c.first c.second) l
on_cancelled c token (some begun) l =
    record (settle_with c token begun c.worst failed_call raised l) { reply = raised }

unfoldable pub send : Call → ℕ → Ledger → Handled
send c token l = on_cancelled c token c.cancelled l

abbrev pub on_reserved : Call → Option ℕ × Ledger → Handled
on_reserved c (none, l) = refuse c budget l
on_reserved c (some token, l) = send c token l

module _ (cfg : Caps) (day0 month0 dedupe : ℕ) where
  abbrev pub on_duplicate : Call → Option ℕ → Ledger → Handled
  on_duplicate c (some age) l = refuse c duplicate l
  on_duplicate c none l = on_reserved c (reserve cfg day0 month0 c.now c.alias c.worst l)

  -- Whether the model has a price, and whether the key could be read.
  abbrev pub on_config : Bool → Bool → Call → String → Ledger → Handled
  on_config false has_key c sha l = refuse c unpriced l
  on_config true false c sha l = refuse c no_key l
  on_config true true c sha l = on_duplicate c (duplicate_age (pos c.now) dedupe sha l.rows) l

  abbrev pub on_valid : Call → String → Option Code → Ledger → Handled
  on_valid c sha (some code) l = refuse c code l
  on_valid c sha none l = on_config c.priced c.has_key c sha l

  abbrev pub on_brief : Call → Option String → Ledger → Handled
  on_brief c none l = refuse c brief_missing l
  on_brief c (some sha) l = on_valid c sha c.invalid l

  unfoldable pub handle : Call → Ledger → Handled
  handle c l = on_brief c c.brief l

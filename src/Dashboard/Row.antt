-- ===== src/Dashboard/Row.antt =====
-- The rows of scripts/files/live_dashboard/tracker.py and the computation of a finished one in
-- `_finish`. Times and durations are whole numbers of ticks, so `ms / 1e3` is the same number;
-- a quotient of floats is kept as its two numbers.
use local_gpu_cluster.Prelude.{
  ℕ, ◌-◌, max, Bool, true, false, ◌&&◌, Option, none, some, ltb, if◌then◌else◌,
}
use local_gpu_cluster.Prelude.Int.{ℤ, pos, sub_ℕ}

pub data Status : Type 0 where
  reading generating done approx cancelled interrupted : Status

pub record Rate : Type 0 where
  pub amount : ℕ
  pub per : ℕ

pub record Timing : Type 0 where
  pub ms : ℕ
  pub n : ℕ

-- The fields of a row that are stored and shown; the key is made of the next three.
pub record Entry : Type 0 where
  pub server_run : ℕ
  pub slot : ℕ
  pub task : ℕ
  pub started : ℕ
  pub finished : Option ℕ
  pub status : Status
  pub prompt_tokens : Option ℕ
  pub new_prompt_tokens : Option ℕ
  pub cached_tokens : Option ℕ
  pub output_tokens : Option ℕ
  pub prefill_tok_s : Option Rate
  pub gen_tok_s : Option Rate
  pub duration_s : Option ℤ
  pub draft_accept : Option Rate
  pub slow : Bool

-- The fields whose names begin with `_`.
pub record Live : Type 0 where
  pub progress : Option ℕ
  pub processed : Option ℕ
  pub live_tok_s : Option Rate
  pub ctx : Option ℕ
  pub dec : Option ℕ
  pub dec_t : Option ℕ
  pub eval : Option Timing
  pub pe : Option Timing
  pub total : Option Timing
  pub prompt_est : Option ℕ
  pub rel_n : Option ℕ
  pub cache : Option ℕ

pub record Row : Type 0 where
  pub entry : Entry
  pub live : Live

abbrev pub no_live : Live
no_live = record {
  progress = none;
  processed = none;
  live_tok_s = none;
  ctx = none;
  dec = none;
  dec_t = none;
  eval = none;
  pe = none;
  total = none;
  prompt_est = none;
  rel_n = none;
  cache = none;
}

unfoldable pub new_entry : ℕ → ℕ → ℕ → ℕ → Entry
new_entry server_run slot task now = record {
  server_run = server_run;
  slot = slot;
  task = task;
  started = now;
  finished = none;
  status = reading;
  prompt_tokens = none;
  new_prompt_tokens = none;
  cached_tokens = none;
  output_tokens = none;
  prefill_tok_s = none;
  gen_tok_s = none;
  duration_s = none;
  draft_accept = none;
  slow = false;
}

abbrev pub slow_new_prompt_tokens : ℕ
slow_new_prompt_tokens = 5000

-- n / (ms / 1e3) if ms > 0 else None
abbrev pub rate_of : Timing → Option Rate
rate_of t = if ltb 0 t.ms then some (record { amount = t.n; per = t.ms }) else none

abbrev pub add_prefill : Option Timing → Entry → Entry
add_prefill none e = e
add_prefill (some pe) e = record e { new_prompt_tokens = some pe.n; prefill_tok_s = rate_of pe }

abbrev pub add_eval : Option Timing → Entry → Entry
add_eval none e = e
add_eval (some ev) e = record e { output_tokens = some ev.n; gen_tok_s = rate_of ev }

abbrev pub duration_of : Option Timing → ℕ → ℕ → ℤ
duration_of none started now = sub_ℕ now started
duration_of (some tot) started now = pos tot.ms

-- status in ("approx", "cancelled")
abbrev pub is_estimated : Status → Bool
is_estimated approx = true
is_estimated cancelled = true
is_estimated _ = false

-- The output tokens, or else those that /slots showed.
abbrev pub or_decoded : Bool → Option ℕ → Option ℕ → Option ℕ
or_decoded estimated (some n) dec = some n
or_decoded estimated none dec = if estimated then dec else none

abbrev pub spent : Option Timing → Option ℕ → ℕ
spent (some ev) dec = ev.n
spent none (some d) = d
spent none none = 0

-- The prompt's size: from the release line, or else the estimate, or else what it was.
abbrev pub prompt_of : Live → Option ℕ → Option ℕ → Option ℕ → Option ℕ
prompt_of l (some n) est old = some (n - spent l.eval l.dec)
prompt_of l none (some est) old = some est
prompt_of l none none old = old

abbrev pub raise_prompt : Option ℕ → Option ℕ → Option ℕ
raise_prompt (some p) (some n) = some (max p n)
raise_prompt p n = p

abbrev pub cached_of : Option ℕ → Option ℕ → Option ℕ → Option ℕ
cached_of (some p) (some n) old = some (max p n - n)
cached_of p n old = old

-- bool(new and new > SLOW_NEW_PROMPT_TOKENS)
abbrev pub is_slow : Option ℕ → Bool
is_slow none = false
is_slow (some n) = ltb 0 n && ltb slow_new_prompt_tokens n

abbrev pub add_prompt : Option ℕ → Entry → Entry
add_prompt prompt e = record e {
  prompt_tokens = raise_prompt prompt e.new_prompt_tokens;
  cached_tokens = cached_of prompt e.new_prompt_tokens e.cached_tokens;
  slow = is_slow e.new_prompt_tokens;
}

abbrev pub add_outcome : Live → Status → ℕ → Entry → Entry
add_outcome l status now e = record e {
  status = status;
  finished = some now;
  duration_s = some (duration_of l.total e.started now);
  output_tokens = or_decoded (is_estimated status) e.output_tokens l.dec;
}

-- The row that `_finish` stores.
unfoldable pub finished_entry : Row → Status → ℕ → Entry
finished_entry r status now =
    add_prompt (prompt_of r.live r.live.rel_n r.live.prompt_est r.entry.prompt_tokens)
      (add_outcome r.live status now (add_eval r.live.eval (add_prefill r.live.pe r.entry)))

-- ===== src/ToolLoop/Accumulator.antt =====
-- `ToolCallAccumulator` and `_ensure_tool_call_ids` of scripts/files/router-app.py. A dict keeps
-- its insertion order, and a text that is missing or empty counts as absent, as in the source's
-- tests for truth.
use Prim.Native.String.{◌++◌ as ◌+s◌}
use local_gpu_cluster.Prelude.{
  ℕ, suc, String, Bool, true, false, Option, none, some, List, [], ◌∷◌, ◌==◌, str_eq, if◌then◌else◌,
}

-- One element of a delta's "tool_calls", with `index` 0 where it has none.
pub record Fragment : Type 0 where
  pub index : ℕ
  pub id : Option String
  pub name : Option String
  pub arguments : Option String

pub record Call : Type 0 where
  pub id : Option String
  pub name : Option String
  pub arguments : String

abbrev pub Calls : Type 0
Calls = List (ℕ × Call)

abbrev pub blank : Call
blank = record { id = none; name = none; arguments = "" }

-- The value, where it is true.
abbrev pub truthy : Option String → Option String
truthy none = none
truthy (some s) = if str_eq s "" then none else some s

-- if new: cur = new
abbrev pub replaced : Option String → Option String → Option String
replaced old none = old
replaced old (some s) = some s

-- if new: cur += new
abbrev pub extended : String → Option String → String
extended old none = old
extended old (some s) = old +s s

unfoldable pub merge : Fragment → Call → Call
merge f c = record {
  id = replaced c.id (truthy f.id);
  name = replaced c.name (truthy f.name);
  arguments = extended c.arguments (truthy f.arguments);
}

-- The body of the loop: `setdefault`, then the assignments.
unfoldable pub feed_one : Fragment → Calls → Calls
feed_one f [] = (f.index, merge f blank) ∷ []
feed_one f ((i, c) ∷ cs) = if i == f.index then (i, merge f c) ∷ cs else (i, c) ∷ feed_one f cs

unfoldable pub feed : List Fragment → Calls → Calls
feed [] calls = calls
feed (f ∷ fs) calls = feed fs (feed_one f calls)

abbrev pub has_any : Calls → Bool
has_any [] = false
has_any (c ∷ cs) = true

-- `finalize`: the values, in the order of the keys.
unfoldable pub finalize : Calls → List Call
finalize [] = []
finalize ((i, c) ∷ cs) = c ∷ finalize cs

-- A tool call with an identifier.
pub record ToolCall : Type 0 where
  pub id : String
  pub name : Option String
  pub arguments : String

-- `uuid4` is a stream of fresh identifiers; the number of the next one is passed on.
module _ (fresh : ℕ → String) where
  abbrev pub with_id : ℕ → Option String → Call → ToolCall × ℕ
  with_id n none c = (record { id = fresh n; name = c.name; arguments = c.arguments }, suc n)
  with_id n (some s) c = (record { id = s; name = c.name; arguments = c.arguments }, n)

  unfoldable pub ensure_tool_call_ids : ℕ → List Call → List ToolCall × ℕ
  ensure_tool_call_ids n [] = ([], n)
  ensure_tool_call_ids n (c ∷ cs) =
      let (t, m) = with_id n (truthy c.id) c in
      let (ts, k) = ensure_tool_call_ids m cs in (t ∷ ts, k)

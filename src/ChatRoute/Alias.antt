-- ===== src/ChatRoute/Alias.antt =====
-- `resolve_alias`, `is_swap_exempt` and `escalation.handles`: scripts/files/router-app.py and
-- scripts/files/escalation.py. The table of aliases and the regular expression are arguments.
use local_gpu_cluster.Prelude.{
  String, Bool, false, ◌||◌, Option, none, some, str_eq, starts_with, if◌then◌else◌,
}
use local_gpu_cluster.Prelude.Json.{Value, str, end}
use local_gpu_cluster.AliasDefaults.Fill.{AliasInfo}

-- What resolve_alias returns: the defaults, and whether thinking is stripped.
pub record Resolved : Type 0 where
  pub info : AliasInfo
  pub strip_thinking : Bool

module _ (alias_map : String → Option Resolved) (rag_model : String → Bool) where
  abbrev pub fallback : String → Resolved
  fallback model =
      let rag = rag_model model in
      record {
        info = record {
          backend = model;
          enable_thinking = if rag then some false else none;
          reasoning_effort = none;
          sampling = end;
        };
        strip_thinking = rag;
      }

  abbrev pub or_fallback : String → Option Resolved → Resolved
  or_fallback model none = fallback model
  or_fallback model (some r) = r

  unfoldable pub resolve_alias : String → Resolved
  resolve_alias model = or_fallback model (alias_map model)

unfoldable pub is_swap_exempt : String → Bool
is_swap_exempt model = starts_with model "rag-"

-- escalation.handles, with the keys of ALIASES.
unfoldable pub handles : Option Value → Bool
handles (some (str m)) = str_eq m "claude-ask" || str_eq m "claude-auto" || str_eq m "claude-hard"
handles _ = false

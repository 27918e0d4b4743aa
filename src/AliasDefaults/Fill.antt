-- ===== src/AliasDefaults/Fill.antt =====
-- `apply_alias_defaults` of scripts/files/alias_defaults.py. A body is a dict of parsed JSON, and
-- the AttributeError of `kwargs.setdefault` on a value that is not a dict is `none`.
use local_gpu_cluster.Prelude.{
  String, Bool, true, false, not, Option, none, some, str_eq, if◌then◌else◌,
}
use local_gpu_cluster.Prelude.Json.{Value, bool, str, obj, Fields, end, field, get, put}

-- The alias's entry; a sampling that is missing or null is the empty dict.
pub record AliasInfo : Type 0 where
  pub backend : String
  pub enable_thinking : Option Bool
  pub reasoning_effort : Option String
  pub sampling : Fields

-- key in d
abbrev pub present : Option Value → Bool
present none = false
present (some v) = true

-- d.setdefault(key, value)
unfoldable pub set_default : String → Value → Fields → Fields
set_default k v d = if present (get k d) then d else put k v d

-- for key, value in defaults.items(): d.setdefault(key, value)
unfoldable pub set_defaults : Fields → Fields → Fields
set_defaults end d = d
set_defaults (field k v ds) d = set_defaults ds (set_default k v d)

-- "model" in out and backend != out["model"]
abbrev pub other_model : String → Option Value → Bool
other_model b none = false
other_model b (some (str m)) = not (str_eq b m)
other_model b (some v) = true

unfoldable pub set_model : String → Fields → Fields
set_model b out = if other_model b (get "model" out) then put "model" (str b) out else out

abbrev pub thinking_default : Option Bool → Fields
thinking_default none = end
thinking_default (some b) = field "enable_thinking" (bool b) end

abbrev pub effort_default : Option String → Fields → Fields
effort_default none ds = ds
effort_default (some e) ds = if str_eq e "" then ds else put "reasoning_effort" (str e) ds

-- template_defaults
abbrev pub template_defaults : AliasInfo → Fields
template_defaults info =
    effort_default info.reasoning_effort (thinking_default info.enable_thinking)

-- out.setdefault("chat_template_kwargs", {}), where it is a dict.
abbrev pub kwargs_of : Option Value → Option Fields
kwargs_of none = some end
kwargs_of (some (obj kwargs)) = some kwargs
kwargs_of (some v) = none

abbrev pub store_kwargs : Fields → Fields → Option Fields → Option Fields
store_kwargs ds out none = none
store_kwargs ds out (some kwargs) =
    some (put "chat_template_kwargs" (obj (set_defaults ds kwargs)) out)

abbrev pub fill_template : Fields → Fields → Option Fields
fill_template end out = some out
fill_template ds out = store_kwargs ds out (kwargs_of (get "chat_template_kwargs" out))

abbrev pub fill_sampling : Fields → Option Fields → Option Fields
fill_sampling sampling none = none
fill_sampling sampling (some out) = some (set_defaults sampling out)

unfoldable pub apply_alias_defaults : Fields → AliasInfo → Option Fields
apply_alias_defaults body info =
    fill_sampling info.sampling
      (fill_template (template_defaults info) (set_model info.backend body))

-- ===== src/AliasDefaults/Tests.antt =====
-- A thinking alias and a client's body, under scripts/files/alias_defaults.py.
use local_gpu_cluster.Prelude.{◌≡◌, refl, true, none, some}
use local_gpu_cluster.Prelude.Int.{pos}
use local_gpu_cluster.Prelude.Json.{null, bool, int, str, obj, Fields, end, field, get, put}
use local_gpu_cluster.AliasDefaults.Fill.{
  AliasInfo, set_default, set_defaults, set_model, apply_alias_defaults,
}
use local_gpu_cluster.AliasDefaults.Filled.{IsFilled, apply_alias_defaults-IsFilled}

abbrev thinker : AliasInfo
thinker = record {
  backend = "qwen";
  enable_thinking = some true;
  reasoning_effort = some "high";
  sampling = field "top_k" (int (pos 20)) (field "min_p" (int (pos 0)) end);
}

-- The client sends a null of its own, and one of the two arguments of the template.
abbrev body : Fields
body = field "model" (str "think") (
    field "top_k" null
      (field "chat_template_kwargs" (obj (field "reasoning_effort" (str "low") end)) end))

abbrev filled : Fields
filled = field "model" (str "qwen") (
    field "top_k" null (
      field "chat_template_kwargs"
        (obj (field "reasoning_effort" (str "low") (field "enable_thinking" (bool true) end)))
        (field "min_p" (int (pos 0)) end)))

fills : apply_alias_defaults body thinker ≡ some filled
unfolding apply_alias_defaults set_model set_defaults set_default get put
fills = refl

abbrev null_kwargs : Fields
null_kwargs = field "model" (str "think") (field "chat_template_kwargs" null end)

apply_alias_defaults-IsFilled_example : IsFilled thinker body filled
apply_alias_defaults-IsFilled_example = apply_alias_defaults-IsFilled thinker body filled fills

null_raises : apply_alias_defaults null_kwargs thinker ≡ none
unfolding apply_alias_defaults set_model set_defaults set_default get put
null_raises = refl

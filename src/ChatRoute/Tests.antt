-- ===== src/ChatRoute/Tests.antt =====
-- Under scripts/files/router-app.py.
-- An owner's request that swaps the profile, and a scoped one that is answered by what is loaded.
use local_gpu_cluster.Prelude.{
  ◌≡◌, refl, ap, String, true, false, Option, none, some, if◌then◌else◌, [], ◌∷◌, str_eq,
}
use local_gpu_cluster.Prelude.Int.{pos}
use local_gpu_cluster.Prelude.Json.{
  Value, str, bool, arr, obj, Fields, end, field, nil, cons, get, put,
}
use local_gpu_cluster.AccessKeys.Principal.{
  Principal, scoped, owner_principal, chat_violation, apply_chat_policy,
}
use local_gpu_cluster.AliasDefaults.Fill.{
  set_default, set_defaults, set_model, apply_alias_defaults,
}
use local_gpu_cluster.VisionGuard.Body.{Bytes, body}
use local_gpu_cluster.ChatRoute.Alias.{Resolved, resolve_alias, is_swap_exempt, handles}
use local_gpu_cluster.ChatRoute.Text.{
  is_true, pieces, message_parts, approx_text, should_strip_thinking,
}
use local_gpu_cluster.VisionGuard.Completions.{image_token_estimate, part_texts, message_text}
use local_gpu_cluster.VisionGuard.Check.{walk, has_refused_key}
use local_gpu_cluster.VisionGuard.Chat.{check_media, check_message, check_chat_body}
use local_gpu_cluster.ChatRoute.Outcome.{
  tool_loop, stream, swap_then_stream, forwarded, refused, Outcome, too_many_tokens,
  profile_mismatch,
}
use local_gpu_cluster.ChatRoute.Route.{
  Setting, read_json_body, apply_policy, prepare, route, dispatch, mismatched, can_swap, chat,
}
use local_gpu_cluster.ChatRoute.Scoped.{IsConfined, scoped_request-IsConfined}
use local_gpu_cluster.ChatRoute.Cleared.{IsRead, IsCleared, chat-IsCleared}

abbrev qwen : Resolved
qwen = record {
  info = record {
    backend = "qwen-backend";
    enable_thinking = some true;
    reasoning_effort = none;
    sampling = field "top_k" (str "20") end;
  };
  strip_thinking = false;
}

abbrev aliases : String → Option Resolved
aliases m = if str_eq m "qwen" then some qwen else none

abbrev setting : String → Setting
setting active = record {
  alias_map = aliases;
  rag_model = λ m. false;
  nothink_hint = λ t. false;
  backend_to_profile = λ b. str_eq b "qwen-backend";
  swap_webhook = true;
  strict_profile_match = true;
  vision_enabled = false;
  image_token_estimate = pos 1000;
  max_chat_input_tokens = 50;
  tool_execution_default = str "client";
  lane_capacity = 1;
  active_backend = some active;
  swap_succeeds = true;
  count_tokens = λ t. some (if str_eq t "hello" then 7 else 60);
}

abbrev request : String → Fields → Fields
request content more = field "model" (str "qwen") (
    field "messages"
      (arr (cons (obj (field "role" (str "user") (field "content" (str content) end))) nil)) more)

abbrev loads : Fields → Bytes → Option Value
loads fields raw = some (obj fields)

abbrev server_tools : Fields
server_tools = field "tool_execution" (str "server") end

abbrev streamed : Fields
streamed = field "stream" (bool true) end

abbrev ann : Principal
ann = record { name = "ann"; kind = scoped; aliases = "qwen" ∷ []; expires = none }

abbrev owner_chat : String → Fields → Outcome
owner_chat active fields =
    chat (setting active) (loads fields) (some owner_principal) none (body [])

abbrev ann_chat : String → Fields → Outcome
ann_chat active fields = chat (setting active) (loads fields) (some ann) none (body [])

-- What the request becomes.
abbrev filled : String → Fields → Fields
filled content more = field "model" (str "qwen-backend") (
    field "messages"
      (arr (cons (obj (field "role" (str "user") (field "content" (str content) end))) nil)) more)

abbrev defaults : Fields
defaults =
    field "chat_template_kwargs" (obj (field "enable_thinking" (bool true) end))
      (field "top_k" (str "20") end)

-- The budget refuses, unless the request streams after a swap; the scoped principal may not swap.
answers :
    ((owner_chat "qwen-backend" (request "a longer text" end)).verdict
      ≡ refused 413 too_many_tokens)
    × ((ann_chat "other" (request "hello" end)).verdict ≡ refused 409 profile_mismatch)
    × (owner_chat "other" (request "a longer text" streamed) ≡ record {
      swapped = some "qwen-backend";
      verdict =
          forwarded swap_then_stream (filled "a longer text" (field "stream" (bool true) defaults));
    })
unfolding chat read_json_body apply_policy prepare route dispatch mismatched can_swap approx_text
    message_parts should_strip_thinking resolve_alias is_swap_exempt handles check_media
    check_message check_chat_body walk has_refused_key image_token_estimate chat_violation
    apply_chat_policy apply_alias_defaults set_model set_defaults set_default get put is_true pieces
    part_texts message_text
answers = (refl, refl, refl)

swaps_and_loops : owner_chat "other" (request "hello" server_tools) ≡ record {
  swapped = some "qwen-backend";
  verdict = forwarded tool_loop (filled "hello" (field "tool_execution" (str "server") defaults));
}
unfolding chat read_json_body apply_policy prepare route dispatch mismatched can_swap approx_text
    message_parts should_strip_thinking resolve_alias is_swap_exempt handles check_media
    check_message check_chat_body walk has_refused_key image_token_estimate chat_violation
    apply_chat_policy apply_alias_defaults set_model set_defaults set_default get put is_true pieces
    part_texts message_text
swaps_and_loops = refl

ann_streams :
    (ann_chat "qwen-backend" (request "hello" streamed)).verdict
    ≡ forwarded stream (
        filled "hello"
          (field "stream" (bool true) (field "tool_execution" (str "client") defaults)))
unfolding chat read_json_body apply_policy prepare route dispatch mismatched can_swap approx_text
    message_parts should_strip_thinking resolve_alias is_swap_exempt handles check_media
    check_message check_chat_body walk has_refused_key image_token_estimate chat_violation
    apply_chat_policy apply_alias_defaults set_model set_defaults set_default get put is_true pieces
    part_texts message_text
ann_streams = refl

chat-IsCleared_example :
    (p : Principal) × (b : Fields) × (some owner_principal ≡ some p)
    × IsRead (loads (request "hello" server_tools)) (body []) b
    × IsCleared
        (setting "other")
        p
        b
        tool_loop
        (filled "hello" (field "tool_execution" (str "server") defaults))
        (owner_chat "other" (request "hello" server_tools)).swapped
chat-IsCleared_example =
    chat-IsCleared (setting "other") (loads (request "hello" server_tools)) (some owner_principal)
      none (body []) tool_loop (filled "hello" (field "tool_execution" (str "server") defaults))
      (ap (λ o. o.verdict) swaps_and_loops)

scoped_request-IsConfined_example :
    (b : Fields) × IsRead (loads (request "hello" streamed)) (body []) b
    × IsConfined ann b stream
        (filled "hello"
          (field "stream" (bool true) (field "tool_execution" (str "client") defaults)))
        (ann_chat "qwen-backend" (request "hello" streamed)).swapped
scoped_request-IsConfined_example =
    scoped_request-IsConfined (setting "qwen-backend") (loads (request "hello" streamed)) ann none
      (body []) stream
      (filled "hello" (field "stream" (bool true) (field "tool_execution" (str "client") defaults)))
      refl ann_streams

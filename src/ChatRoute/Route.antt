-- ===== src/ChatRoute/Route.antt =====
-- `chat` of scripts/files/router-app.py, with `_read_json_body`. The layout, the upstream's answers
-- and the configuration are a record of arguments; logging and timing are left out, and so is
-- whether thinking is stripped from the answer, but not the exceptions of finding that out.
use local_gpu_cluster.Prelude.{
  ℕ, ◌+◌, String, Bool, true, false, not, ◌&&◌, ◌||◌, Option, none, some, ltb, ◌==◌, str_eq,
  if◌then◌else◌,
}
use local_gpu_cluster.Prelude.Int.{ℤ, pos}
use local_gpu_cluster.Prelude.Json.{Value, str, obj, Fields, get}
use local_gpu_cluster.AccessKeys.Principal.{
  Principal, Violation, is_owner, is_server, chat_violation, apply_chat_policy, may_swap,
}
use local_gpu_cluster.AliasDefaults.Fill.{AliasInfo, apply_alias_defaults}
use local_gpu_cluster.VisionGuard.Check.{MediaCheck, Refusal}
use local_gpu_cluster.VisionGuard.Chat.{check_media, check_chat_body}
use local_gpu_cluster.VisionGuard.Body.{Bytes, Reading, bad_request, too_large, body}
use local_gpu_cluster.VisionGuard.Completions.{image_token_estimate}
use local_gpu_cluster.ChatRoute.Alias.{Resolved, resolve_alias, is_swap_exempt, handles}
use local_gpu_cluster.ChatRoute.Text.{is_true?, approx_text, should_strip_thinking}
use local_gpu_cluster.ChatRoute.Outcome.{
  unauthenticated, body_too_large, malformed_body, lane_closed, profile_mismatch, swap_failed,
  too_many_tokens, violation, media, Way, tool_loop_stream, stream, tool_loop, post,
  swap_then_stream, Verdict, refused, raised, escalated, forwarded, Outcome, Stage, go, stop, ◌>>=◌,
  ◌>>◌, guard,
}

-- The configuration, the layout, and what the upstream and the webhook answer to this request.
pub record Setting : Type 0 where
  pub alias_map : String → Option Resolved
  pub rag_model : String → Bool
  pub nothink_hint : String → Bool
  pub backend_to_profile : String → Bool
  pub swap_webhook : Bool
  pub strict_profile_match : Bool
  pub vision_enabled : Bool
  pub image_token_estimate : ℤ
  pub max_chat_input_tokens : ℕ
  pub tool_execution_default : Value
  pub lane_capacity : ℕ
  pub active_backend : Option String
  pub swap_succeeds : Bool
  -- `none` is count_tokens' -1.
  pub count_tokens : String → Option ℕ

-- What the handler has found out before it looks at the loaded profile.
pub record Prepared : Type 0 where
  pub model : String
  pub info : AliasInfo
  pub streams : Bool
  pub images : ℕ
  pub text : String
  pub out : Fields

abbrev pub parsed_object : Option Value → Stage Fields
parsed_object (some (obj fields)) = go fields
parsed_object v = stop (refused 400 malformed_body)

-- `_read_json_body`
unfoldable pub read_json_body : (Bytes → Option Value) → Reading → Stage Fields
read_json_body json_loads too_large = stop (refused 413 body_too_large)
read_json_body json_loads bad_request = stop (refused 400 malformed_body)
read_json_body json_loads (body raw) = parsed_object (json_loads raw)

abbrev pub or_raise : {A : Type 0} → Option A → Stage A
or_raise none = stop raised
or_raise (some a) = go a

abbrev pub authenticated : Option Principal → Stage Principal
authenticated none = stop (refused 403 unauthenticated)
authenticated (some p) = go p

-- if check.error is not None: raise HTTPException(check.status, check.error)
abbrev pub checked : MediaCheck → Option Refusal → Stage ℕ
checked c none = go c.images
checked c (some r) = stop (refused c.status (media r))

abbrev pub without_violation : Option Violation → Stage (Unit {0})
without_violation none = go tt
without_violation (some v) = stop (refused 403 (violation v))

-- body.get("model", "?"), where it is a text.
abbrev pub model_name : Option Value → Option String
model_name none = some "?"
model_name (some (str m)) = some m
model_name (some v) = none

abbrev pub has_lane : Setting → Principal → Bool
has_lane s p = is_owner p || not (s.lane_capacity == 0)

-- The policy of the principal and of the layout, on a body with acceptable keys.
unfoldable pub apply_policy : Setting → Principal → Fields → Stage Fields
apply_policy s p b = do
  keys ← checked (check_chat_body (obj b)) (check_chat_body (obj b)).error
  without_violation (chat_violation p b)
  guard (has_lane s p) (refused 503 lane_closed)
  go (apply_chat_policy p b)

-- The alias's defaults, the media and the text that is counted.
unfoldable pub prepare : Setting → Option String → Fields → Stage Prepared
prepare s header b = do
  strip ← or_raise (should_strip_thinking s.alias_map s.rag_model s.nothink_hint b header)
  model ← or_raise (model_name (get "model" b))
  let info = (resolve_alias s.alias_map s.rag_model model).info
  out ← or_raise (apply_alias_defaults b info)
  let check = check_media (get "messages" out) s.vision_enabled
  images ← checked check check.error
  text ← or_raise (approx_text (get "messages" out))
  go (record {
    model = model;
    info = info;
    streams = is_true? (get "stream" b);
    images = images;
    text = text;
    out = out;
  })

abbrev pub is_known : Option Resolved → Bool
is_known none = false
is_known (some r) = true

abbrev pub differs : Option String → String → Bool
differs none wanted = false
differs (some active) wanted = not (str_eq wanted active)

-- The request is for another profile than the one that is loaded.
unfoldable pub mismatched : Setting → Prepared → Bool
mismatched s r =
    (s.strict_profile_match && is_known (s.alias_map r.model) && not (is_swap_exempt r.model))
    && differs s.active_backend r.info.backend

unfoldable pub can_swap : Setting → Principal → Prepared → Bool
can_swap s p r = s.swap_webhook && s.backend_to_profile r.info.backend && may_swap p

-- token_count != -1 and token_count + image_tokens > MAX_CHAT_INPUT_TOKENS
abbrev pub exceeds : Setting → ℕ → Option ℕ → Bool
exceeds s image_tokens none = false
exceeds s image_tokens (some n) = ltb s.max_chat_input_tokens (n + image_tokens)

abbrev pub tool_execution : Setting → Option Value → Option Value
tool_execution s none = some s.tool_execution_default
tool_execution s (some v) = some v

abbrev pub way_of : Bool → Bool → Way
way_of streams tools =
    if streams
    then (if tools then tool_loop_stream else stream)
    else (if tools then tool_loop else post)

-- The token budget, and the way on.
unfoldable pub dispatch : Setting → Prepared → Verdict
dispatch s r =
    if exceeds s (image_token_estimate (pos r.images) s.image_token_estimate)
      (s.count_tokens r.text)
    then refused 413 too_many_tokens
    else forwarded (way_of r.streams (is_server (tool_execution s (get "tool_execution" r.out))))
        r.out

abbrev pub answer : Option String → Verdict → Outcome
answer swapped v = record { swapped = swapped; verdict = v }

-- Once a swap is asked for: by whether the answer streams, and whether the swap succeeds.
abbrev pub on_swap : Setting → Prepared → Bool → Bool → Outcome
on_swap s r true succeeds = answer (some r.info.backend) (forwarded swap_then_stream r.out)
on_swap s r false true = answer (some r.info.backend) (dispatch s r)
on_swap s r false false = answer (some r.info.backend) (refused 503 swap_failed)

-- By whether another profile is loaded, and whether it may be swapped.
abbrev pub on_profile : Setting → Prepared → Bool → Bool → Outcome
on_profile s r false may = answer none (dispatch s r)
on_profile s r true false = answer none (refused 409 profile_mismatch)
on_profile s r true true = on_swap s r r.streams s.swap_succeeds

-- The profile guard.
unfoldable pub route : Setting → Principal → Prepared → Outcome
route s p r = on_profile s r (mismatched s r) (can_swap s p r)

abbrev pub settle : Setting → Principal → Stage Prepared → Outcome
settle s p (stop v) = answer none v
settle s p (go r) = route s p r

-- By whether the model is an alias of the escalation.
abbrev pub on_alias : Setting → Principal → Option String → Fields → Bool → Outcome
on_alias s p header b true = answer none (escalated b)
on_alias s p header b false = settle s p (apply_policy s p b >>= prepare s header)

abbrev pub with_body : Setting → Principal → Option String → Stage Fields → Outcome
with_body s p header (stop v) = answer none v
with_body s p header (go b) = on_alias s p header b (handles (get "model" b))

abbrev pub with_principal : Setting → Option String → Stage Fields → Stage Principal → Outcome
with_principal s header read (stop v) = answer none v
with_principal s header read (go p) = with_body s p header read

unfoldable pub chat :
    Setting → (Bytes → Option Value) → Option Principal → Option String → Reading → Outcome
chat s json_loads principal header reading =
    with_principal s header (read_json_body json_loads reading) (authenticated principal)

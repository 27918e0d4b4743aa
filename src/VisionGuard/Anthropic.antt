-- ===== src/VisionGuard/Anthropic.antt =====
-- The Anthropic checks of scripts/files/vision_guard.py. The code calls itself once, for the
-- blocks of a tool result, where `allow_tool_result` is false: here `inner_block`.
use local_gpu_cluster.Prelude.{
  String, Bool, true, false, not, ◌&&◌, ◌||◌, Option, none, some, all, str_eq, starts_with,
  if◌then◌else◌,
}
use local_gpu_cluster.Prelude.Json.{Value, null, str, arr, obj, Fields, to_list, get}
use local_gpu_cluster.VisionGuard.Check.{
  no_projector, not_an_object, bad_block, bad_block_type, bad_tool_result, bad_source, bad_system,
  MediaCheck, refuse, Round, skip, images, stop, walk, round_of, check_of, list_or_empty,
}
use local_gpu_cluster.VisionGuard.Chat.{content_of}

-- ANTHROPIC_PLAIN_BLOCKS
abbrev pub plain_block : String → Bool
plain_block k =
    str_eq k "text"
    || (str_eq k "thinking" || (str_eq k "redacted_thinking" || str_eq k "tool_use"))

abbrev pub text_is : String → Option Value → Bool
text_is s (some (str t)) = str_eq t s
text_is s _ = false

abbrev pub is_text : Option Value → Bool
is_text (some (str t)) = true
is_text _ = false

abbrev pub is_image_type : Option Value → Bool
is_image_type (some (str t)) = starts_with t "image/"
is_image_type _ = false

-- The test `ok` on an image block's source.
unfoldable pub source_ok : Option Value → Bool
source_ok (some (obj src)) =
    text_is "base64" (get "type" src)
    && (is_text (get "data" src) && is_image_type (get "media_type" src))
source_ok _ = false

abbrev pub block_kind : Bool → Fields → Round → Option Value → Round
block_kind vision b on_tool_result (some (str kind)) =
    if plain_block kind
    then skip
    else if str_eq kind "tool_result"
    then on_tool_result
    else if not (str_eq kind "image")
    then stop bad_block_type
    else if not vision
    then stop no_projector
    else if not (source_ok (get "source" b))
    then stop bad_source
    else images 1
block_kind vision b on_tool_result _ = stop bad_block_type

-- A block inside a tool result, where another tool result is refused.
unfoldable pub inner_block : Bool → Value → Round
inner_block vision (obj b) = block_kind vision b (stop bad_block_type) (get "type" b)
inner_block vision _ = stop bad_block

-- The content of a tool result: a list of blocks, a string, or nothing.
unfoldable pub tool_result : Bool → Option Value → Round
tool_result vision none = skip
tool_result vision (some null) = skip
tool_result vision (some (str s)) = skip
tool_result vision (some (arr blocks)) = round_of (walk (inner_block vision) 0 (to_list blocks))
tool_result vision (some _) = stop bad_tool_result

unfoldable pub outer_block : Bool → Value → Round
outer_block vision (obj b) =
    block_kind vision b (tool_result vision (get "content" b)) (get "type" b)
outer_block vision _ = stop bad_block

-- isinstance(b, dict) and b.get("type") == "text"
abbrev pub is_text_block : Value → Bool
is_text_block (obj b) = text_is "text" (get "type" b)
is_text_block _ = false

unfoldable pub system_ok : Option Value → Bool
system_ok none = true
system_ok (some null) = true
system_ok (some (str s)) = true
system_ok (some (arr blocks)) = all is_text_block (to_list blocks)
system_ok (some _) = false

-- The body of the loop over the messages.
unfoldable pub anthropic_message : Bool → Value → Round
anthropic_message vision m = round_of (walk (outer_block vision) 0 (list_or_empty (content_of m)))

unfoldable pub check_media_anthropic : Value → Bool → MediaCheck
check_media_anthropic (obj body) vision =
    if not (system_ok (get "system" body))
    then refuse bad_system
    else check_of (walk (anthropic_message vision) 0 (list_or_empty (get "messages" body)))
check_media_anthropic _ vision = refuse not_an_object

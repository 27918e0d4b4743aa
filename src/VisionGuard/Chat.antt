-- ===== src/VisionGuard/Chat.antt =====
-- The OpenAI checks of scripts/files/vision_guard.py.
use local_gpu_cluster.Prelude.{
  String, Bool, not, ◌||◌, Option, none, some, str_eq, starts_with, if◌then◌else◌,
}
use local_gpu_cluster.Prelude.Json.{Value, str, obj, Fields, get}
use local_gpu_cluster.VisionGuard.Check.{
  bad_part_type, no_projector, remote_image, not_an_object, refused_fields, MediaCheck, accept,
  refuse, Round, skip, images, stop, walk, round_of, check_of, list_or_empty, has_refused_key,
}

-- CHAT_PART_TYPES
abbrev pub chat_part_type : String → Bool
chat_part_type k = str_eq k "text" || (str_eq k "refusal" || str_eq k "image_url")

abbrev pub as_text : Option Value → String
as_text (some (str s)) = s
as_text _ = ""

abbrev pub image_url_of : Option Value → String
image_url_of (some (obj fs)) = as_text (get "url" fs)
image_url_of raw = as_text raw

-- `_image_url`
unfoldable pub image_url : Fields → String
image_url part = image_url_of (get "image_url" part)

abbrev pub check_kind : Bool → Fields → Option Value → Round
check_kind vision part (some (str kind)) =
    if not (chat_part_type kind)
    then stop bad_part_type
    else if not (str_eq kind "image_url")
    then skip
    else if not vision
    then stop no_projector
    else if not (starts_with (image_url part) "data:image/")
    then stop remote_image
    else images 1
check_kind vision part _ = stop bad_part_type

-- The body of the inner loop of `check_media`.
unfoldable pub check_part : Bool → Value → Round
check_part vision (obj part) = check_kind vision part (get "type" part)
check_part vision _ = skip

-- m.get("content") if isinstance(m, dict) else None
abbrev pub content_of : Value → Option Value
content_of (obj m) = get "content" m
content_of _ = none

-- The body of the outer loop: the parts of one message.
unfoldable pub check_message : Bool → Value → Round
check_message vision m = round_of (walk (check_part vision) 0 (list_or_empty (content_of m)))

unfoldable pub check_media : Option Value → Bool → MediaCheck
check_media messages vision = check_of (walk (check_message vision) 0 (list_or_empty messages))

unfoldable pub check_chat_body : Value → MediaCheck
check_chat_body (obj body) = if has_refused_key body then refuse refused_fields else accept 0
check_chat_body _ = refuse not_an_object

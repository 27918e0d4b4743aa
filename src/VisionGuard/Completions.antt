-- ===== src/VisionGuard/Completions.antt =====
-- `check_completions_body`, `image_token_estimate` and `message_text` of scripts/files/vision_guard.py.
use Prim.Native.String.{◌++◌ as ◌+s◌}
use local_gpu_cluster.Prelude.{
  ℕ, String, List, [], ◌∷◌, str_eq, ◌*◌, Bool, true, false, ◌||◌, Option, none, some, all,
  if◌then◌else◌,
}
use local_gpu_cluster.Prelude.Int.{ℤ, pos_part}
use local_gpu_cluster.Prelude.Json.{Value, int, str, arr, obj, to_list, get}
use local_gpu_cluster.VisionGuard.Check.{
  not_an_object, refused_fields, bad_prompt, MediaCheck, accept, refuse, has_refused_key,
}

-- isinstance(x, str)
abbrev pub is_str : Value → Bool
is_str (str s) = true
is_str _ = false

-- isinstance(x, int) and not isinstance(x, bool)
abbrev pub is_token : Value → Bool
is_token (int n) = true
is_token _ = false

-- isinstance(x, list) and all(... for y in x)
abbrev pub is_token_list : Value → Bool
is_token_list (arr ys) = all is_token (to_list ys)
is_token_list _ = false

-- `ok`, on the value under "prompt" or the default "".
abbrev pub prompt_ok : Option Value → Bool
prompt_ok none = true
prompt_ok (some (str s)) = true
prompt_ok (some (arr vs)) =
    all is_str (to_list vs) || (all is_token (to_list vs) || all is_token_list (to_list vs))
prompt_ok _ = false

unfoldable pub check_completions_body : Value → MediaCheck
check_completions_body (obj body) =
    if has_refused_key body
    then refuse refused_fields
    else if prompt_ok (get "prompt" body)
    then accept 0
    else refuse bad_prompt
check_completions_body _ = refuse not_an_object

-- max(0, images) * max(0, per_image)
unfoldable pub image_token_estimate : ℤ → ℤ → ℕ
image_token_estimate images per_image = pos_part images * pos_part per_image

-- "\n".join(texts)
abbrev pub join_lines : List String → String
join_lines [] = ""
join_lines (s ∷ []) = s
join_lines (s ∷ t ∷ ts) = s +s ("\n" +s join_lines (t ∷ ts))

-- p.get("type") == "text"
abbrev pub is_text_type : Option Value → Bool
is_text_type (some (str kind)) = str_eq kind "text"
is_text_type _ = false

abbrev pub onto : Option Value → List String → List String
onto (some (str s)) ts = s ∷ ts
onto _ ts = ts

-- The texts of the parts that are text.
unfoldable pub part_texts : List Value → List String
part_texts [] = []
part_texts (obj p ∷ ps) =
    let rest = part_texts ps in
    if is_text_type (get "type" p) then onto (get "text" p) rest else rest
part_texts (p ∷ ps) = part_texts ps

abbrev pub content_text : Option Value → String
content_text (some (str s)) = s
content_text (some (arr ps)) = join_lines (part_texts (to_list ps))
content_text _ = ""

unfoldable pub message_text : Value → String
message_text (obj m) = content_text (get "content" m)
message_text _ = ""

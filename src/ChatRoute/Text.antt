-- ===== src/ChatRoute/Text.antt =====
-- `_approx_text_from_messages` and `should_strip_thinking` of scripts/files/router-app.py; `none`
-- is the exception of a message or a part that has another shape than they expect.
use local_gpu_cluster.Prelude.{
  String, Bool, true, false, not, ◌||◌, Option, none, some, List, [], ◌∷◌, ◌++◌, map, str_eq, ◌==◌,
  if◌then◌else◌,
}
use local_gpu_cluster.Prelude.Int.{ℤ, pos}
use local_gpu_cluster.Prelude.Text.{codes, codes_eq, lower_ascii}
use local_gpu_cluster.Prelude.Json.{
  Value, null, bool, int, float, str, arr, obj, finite, not_finite, Fields, end, field, nil, cons,
  to_list, get,
}
use local_gpu_cluster.VisionGuard.Completions.{is_text_type, message_text, join_lines}
use local_gpu_cluster.ChatRoute.Alias.{Resolved, resolve_alias}

-- bool(v)
abbrev pub is_zero : ℤ → Bool
is_zero (pos n) = n == 0
is_zero _ = false

unfoldable pub is_true : Value → Bool
is_true null = false
is_true (bool b) = b
is_true (int n) = not (is_zero n)
is_true (float (finite n)) = not (is_zero n)
is_true (float not_finite) = true
is_true (str s) = not (str_eq s "")
is_true (arr nil) = false
is_true (arr (cons v vs)) = true
is_true (obj end) = false
is_true (obj (field k v fs)) = true

abbrev pub is_true? : Option Value → Bool
is_true? none = false
is_true? (some v) = is_true v

abbrev pub onto? : Option (List String) → Option (List String) → Option (List String)
onto? none rest = none
onto? (some s) none = none
onto? (some s) (some rest) = some (s ++ rest)

-- piece.get("text", ""), which the join takes only as a text.
abbrev pub piece_text : Option Value → Option (List String)
piece_text none = some ("" ∷ [])
piece_text (some (str s)) = some (s ∷ [])
piece_text (some v) = none

unfoldable pub pieces : List Value → Option (List String)
pieces [] = some []
pieces (obj p ∷ ps) =
    let rest = pieces ps in
    if is_text_type (get "type" p) then onto? (piece_text (get "text" p)) rest else rest
pieces (p ∷ ps) = pieces ps

abbrev pub content_parts : Option Value → Option (List String)
content_parts none = some ("" ∷ [])
content_parts (some (str s)) = some (s ∷ [])
content_parts (some (arr ps)) = pieces (to_list ps)
content_parts (some v) = some []

unfoldable pub message_parts : List Value → Option (List String)
message_parts [] = some []
message_parts (obj m ∷ ms) = onto? (content_parts (get "content" m)) (message_parts ms)
message_parts (m ∷ ms) = none

abbrev pub joined : Option (List String) → Option String
joined none = none
joined (some parts) = some (join_lines parts)

-- Over the messages, which are an empty list where the key is missing. A loop over a text or a
-- dict calls `get` on a text, unless it is empty.
unfoldable pub approx_text : Option Value → Option String
approx_text none = some ""
approx_text (some (arr ms)) = joined (message_parts (to_list ms))
approx_text (some (str s)) = if str_eq s "" then some "" else none
approx_text (some (obj end)) = some ""
approx_text (some v) = none

module _ (alias_map : String → Option Resolved) (rag_model nothink_hint : String → Bool) where
  -- The alias's default, for body.get("model", ""). A model that is no text makes the lookup or
  -- the regular expression raise.
  abbrev pub strip_by_alias : Option Value → Option Bool
  strip_by_alias none = some (resolve_alias alias_map rag_model "").strip_thinking
  strip_by_alias (some (str m)) = some (resolve_alias alias_map rag_model m).strip_thinking
  strip_by_alias (some v) = none

  abbrev pub is_system : Option Value → Bool
  is_system (some (str role)) = str_eq role "system"
  is_system _ = false

  abbrev pub strip_by_first : Value → Option Bool → Option Bool
  strip_by_first (obj m) default =
      if is_system (get "role" m)
      then (if nothink_hint (message_text (obj m)) then some true else default)
      else default
  strip_by_first v default = none

  -- msgs and msgs[0], where only a list can be indexed by 0 and its item asked for its role.
  abbrev pub strip_by_messages : Option Value → Option Bool → Option Bool
  strip_by_messages none default = default
  strip_by_messages (some (arr (cons m ms))) default = strip_by_first m default
  strip_by_messages (some v) default = if is_true v then none else default

  -- header.lower() in ("true", "1", "yes")
  abbrev pub says_yes : String → Bool
  says_yes header =
      let low = map lower_ascii (codes header) in
      codes_eq low (codes "true") || codes_eq low (codes "1") || codes_eq low (codes "yes")

  abbrev pub strip_by_body : Fields → Option Value → Option Bool
  strip_by_body body (some v) = some (is_true v)
  strip_by_body body none =
      strip_by_messages (get "messages" body) (strip_by_alias (get "model" body))

  unfoldable pub should_strip_thinking : Fields → Option String → Option Bool
  should_strip_thinking body (some header) = some (says_yes header)
  should_strip_thinking body none = strip_by_body body (get "strip_thinking" body)

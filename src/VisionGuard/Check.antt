-- ===== src/VisionGuard/Check.antt =====
-- `MediaCheck` and the parts of scripts/files/vision_guard.py that the checks share. A refusal's
-- message is the constructor that stands for it.
use local_gpu_cluster.Prelude.{
  ℕ, ◌+◌, String, Bool, false, ◌||◌, Option, none, some, List, [], ◌∷◌, str_eq,
}
use local_gpu_cluster.Prelude.Json.{Value, arr, Fields, end, field, to_list}

pub data Refusal : Type 0 where
  not_an_object refused_fields bad_part_type no_projector remote_image : Refusal
  bad_block bad_block_type bad_tool_result bad_source bad_system bad_prompt : Refusal

pub record MediaCheck : Type 0 where
  pub images : ℕ
  pub error : Option Refusal
  pub status : ℕ

-- MediaCheck(images=n)
abbrev pub accept : ℕ → MediaCheck
accept n = record { images = n; error = none; status = 200 }

-- `_refuse`
abbrev pub refuse : Refusal → MediaCheck
refuse r = record { images = 0; error = some r; status = 400 }

-- The body of a loop on one item: go on, count an image, or return a refusal.
pub data Round : Type 0 where
  skip : Round
  images : ℕ → Round
  stop : Refusal → Round

-- A loop that counts images until an item is refused.
pub data Walk : Type 0 where
  counted : ℕ → Walk
  stopped : Refusal → Walk

unfoldable pub walk : (Value → Round) → ℕ → List Value → Walk
walk round n [] = counted n
walk round n (v ∷ vs) = elim (round v) [
  | skip ↦ walk round n vs
  | images k ↦ walk round (n + k) vs
  | stop r ↦ stopped r
]

-- What a finished walk comes to in the loop around it, or at the end.
abbrev pub round_of : Walk → Round
round_of (counted k) = images k
round_of (stopped r) = stop r

abbrev pub check_of : Walk → MediaCheck
check_of (counted k) = accept k
check_of (stopped r) = refuse r

-- `v if isinstance(v, list) else []`
abbrev pub list_or_empty : Option Value → List Value
list_or_empty (some (arr vs)) = to_list vs
list_or_empty _ = []

-- CHAT_REFUSED_KEYS
abbrev pub refused_key : String → Bool
refused_key k = str_eq k "multimodal_data" || (str_eq k "image_data" || str_eq k "prompt_string")

-- any(k in CHAT_REFUSED_KEYS for k in body)
unfoldable pub has_refused_key : Fields → Bool
has_refused_key end = false
has_refused_key (field k v fs) = refused_key k || has_refused_key fs

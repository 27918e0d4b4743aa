-- ===== src/VisionGuard/AnthropicAccepts.antt =====
-- Exactly what the Anthropic checks accept.
use local_gpu_cluster.Prelude.{
  ℕ, ◌≡◌, refl, ap, ◌∙◌, ◌⊎◌, inl, inr, Bool, true, Option, none, some, arith, All, total,
}
use local_gpu_cluster.Prelude.Json.{Value, null, str, arr, obj, Fields, get, to_list}
use local_gpu_cluster.VisionGuard.Check.{
  Refusal, accept, refuse, images, stop, round_of, check_of, bad_block, bad_block_type,
  bad_tool_result, list_or_empty,
}
use local_gpu_cluster.VisionGuard.Chat.{content_of}
use local_gpu_cluster.VisionGuard.Accepts.{Decides, walk-decides}
use local_gpu_cluster.VisionGuard.Anthropic.{
  inner_block, tool_result, outer_block, system_ok, anthropic_message, check_media_anthropic,
}
use local_gpu_cluster.VisionGuard.AnthropicBlocks.{block_kind-decides, IsBlock, kind_images, Rounds}

-- Inside a tool result there is no further tool result.
abbrev pub InnerOk : Bool → Value → Type 0
InnerOk vision (obj b) = IsBlock vision b ⊥
InnerOk vision _ = ⊥

abbrev pub inner_images : Value → ℕ
inner_images (obj b) = kind_images 0 (get "type" b)
inner_images _ = 0

inner_block-Decides :
    (vision : Bool) (v : Value) → Decides (inner_block vision) (InnerOk vision) inner_images v
unfolding inner_block
inner_block-Decides vision (obj b) =
    block_kind-decides vision b (stop bad_block_type) ⊥ 0 (inr (inr (bad_block_type, refl, λ h. h)))
      (get "type" b) refl
inner_block-Decides vision null = inr (inr (bad_block, refl, λ h. h))
inner_block-Decides vision v = inr (inr (bad_block, refl, λ h. h))

-- The content of a tool result: nothing, a string, or a list of such blocks.
abbrev pub ToolResultOk : Bool → Option Value → Type 0
ToolResultOk vision none = Unit
ToolResultOk vision (some null) = Unit
ToolResultOk vision (some (str s)) = Unit
ToolResultOk vision (some (arr blocks)) = All (InnerOk vision) (to_list blocks)
ToolResultOk vision (some _) = ⊥

abbrev pub tool_images : Option Value → ℕ
tool_images (some (arr blocks)) = total inner_images (to_list blocks)
tool_images _ = 0

tool_result-decides :
    (vision : Bool) (o : Option Value)
    → Rounds (tool_result vision o) (ToolResultOk vision o) (tool_images o)
unfolding tool_result
tool_result-decides vision none = inl (tt, refl, refl)
tool_result-decides vision (some null) = inl (tt, refl, refl)
tool_result-decides vision (some (str s)) = inl (tt, refl, refl)
tool_result-decides vision (some (arr blocks)) =
    elim (walk-decides (inner_block vision) (InnerOk vision) inner_images
      (inner_block-Decides vision) 0 (to_list blocks)) [
        | inl (good, e) ↦ inr (inl (good, ap round_of e ∙ ap images (omega arith)))
        | inr (r, e, bad) ↦ inr (inr (r, ap round_of e, bad))
      ]
tool_result-decides vision (some v) = inr (inr (bad_tool_result, refl, λ h. h))

abbrev pub OuterOk : Bool → Value → Type 0
OuterOk vision (obj b) = IsBlock vision b (ToolResultOk vision (get "content" b))
OuterOk vision _ = ⊥

abbrev pub outer_images : Value → ℕ
outer_images (obj b) = kind_images (tool_images (get "content" b)) (get "type" b)
outer_images _ = 0

outer_block-Decides :
    (vision : Bool) (v : Value) → Decides (outer_block vision) (OuterOk vision) outer_images v
unfolding outer_block
outer_block-Decides vision (obj b) =
    let content = get "content" b in
    block_kind-decides vision b (tool_result vision content) (ToolResultOk vision content)
      (tool_images content) (tool_result-decides vision content) (get "type" b) refl
outer_block-Decides vision null = inr (inr (bad_block, refl, λ h. h))
outer_block-Decides vision v = inr (inr (bad_block, refl, λ h. h))

abbrev pub AnthropicOk : Bool → Value → Type 0
AnthropicOk vision m = All (OuterOk vision) (list_or_empty (content_of m))

abbrev pub anthropic_images : Value → ℕ
anthropic_images m = total outer_images (list_or_empty (content_of m))

anthropic_message-Decides :
    (vision : Bool) (m : Value)
    → Decides (anthropic_message vision) (AnthropicOk vision) anthropic_images m
unfolding anthropic_message
anthropic_message-Decides vision m =
    elim (walk-decides (outer_block vision) (OuterOk vision) outer_images
      (outer_block-Decides vision) 0 (list_or_empty (content_of m))) [
        | inl (good, e) ↦ inr (inl (good, ap round_of e ∙ ap images (omega arith)))
        | inr (r, e, bad) ↦ inr (inr (r, ap round_of e, bad))
      ]

module _ (body : Fields) (vision : Bool) (system : system_ok (get "system" body) ≡ true) where
  -- An Anthropic body whose system prompt is accepted is let through exactly when every block of
  -- every content list is plain, an inline base64 image while vision is enabled, or a tool
  -- result whose own blocks are plain or such images; the count is the number of those images.
  pub check_media_anthropic_exact :
      (All (AnthropicOk vision) (list_or_empty (get "messages" body))
        × (check_media_anthropic (obj body) vision
            ≡ accept (total anthropic_images (list_or_empty (get "messages" body)))))
      ⊎ ((r : Refusal) × (check_media_anthropic (obj body) vision ≡ refuse r)
          × (¬ All (AnthropicOk vision) (list_or_empty (get "messages" body))))
  unfolding check_media_anthropic
  check_media_anthropic_exact =
      elim (walk-decides (anthropic_message vision) (AnthropicOk vision) anthropic_images
        (anthropic_message-Decides vision) 0 (list_or_empty (get "messages" body))) [
          | inl (good, e) ↦ inl (good, rw system (ap check_of e ∙ ap accept (omega arith)))
          | inr (r, e, bad) ↦ inr (r, rw system (ap check_of e), bad)
        ]

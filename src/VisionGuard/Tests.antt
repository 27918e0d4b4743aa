-- ===== src/VisionGuard/Tests.antt =====
-- Requests under scripts/files/vision_guard.py.
use local_gpu_cluster.Prelude.{◌≡◌, refl, true, Option, some, ◌⊎◌, All, total}
use local_gpu_cluster.Prelude.Json.{Value, str, arr, obj, nil, cons, Fields, end, field, get}
use local_gpu_cluster.VisionGuard.Check.{Refusal, accept, refuse, list_or_empty}
use local_gpu_cluster.VisionGuard.Chat.{check_media}
use local_gpu_cluster.VisionGuard.Accepts.{MessageOk, message_images, check_media_exact}
use local_gpu_cluster.VisionGuard.Anthropic.{system_ok, check_media_anthropic}
use local_gpu_cluster.VisionGuard.AnthropicAccepts.{
  AnthropicOk, anthropic_images, check_media_anthropic_exact,
}

-- A message with one inline image, for each of the two interfaces.
abbrev openai_messages : Option Value
openai_messages = some (
    arr (
      cons
        (obj (
          field "content"
            (arr (
              cons
                (obj (
                  field "type" (str "image_url")
                    (field "image_url" (str "data:image/png;base64,AA") end)))
                nil))
            end))
        nil))

check_media_exact_example :
    (All (MessageOk true) (list_or_empty openai_messages)
      × (check_media openai_messages true
          ≡ accept (total message_images (list_or_empty openai_messages))))
    ⊎ ((r : Refusal) × (check_media openai_messages true ≡ refuse r)
        × (¬ All (MessageOk true) (list_or_empty openai_messages)))
check_media_exact_example = check_media_exact openai_messages true

abbrev anthropic_body : Fields
anthropic_body =
    field "messages"
      (arr (
        cons
          (obj (
            field "content"
              (arr (
                cons
                  (obj (
                    field "type" (str "image") (
                      field "source"
                        (obj (
                          field "type" (str "base64")
                            (field "data" (str "AA") (field "media_type" (str "image/png") end))))
                        end)))
                  nil))
              end))
          nil))
      end

check_media_anthropic_exact_example :
    (All (AnthropicOk true) (list_or_empty (get "messages" anthropic_body))
      × (check_media_anthropic (obj anthropic_body) true
          ≡ accept (total anthropic_images (list_or_empty (get "messages" anthropic_body)))))
    ⊎ ((r : Refusal) × (check_media_anthropic (obj anthropic_body) true ≡ refuse r)
        × (¬ All (AnthropicOk true) (list_or_empty (get "messages" anthropic_body))))
unfolding system_ok get
check_media_anthropic_exact_example = check_media_anthropic_exact anthropic_body true refl

-- ===== src/VisionGuard/Accepts.antt =====
-- Exactly what the OpenAI checks accept.
use local_gpu_cluster.Prelude.{
  ℕ, ◌+◌, ◌≡◌, refl, ap, ◌∙◌, ◌⊎◌, inl, inr, Bool, true, Option, none, some, List, [], ◌∷◌, arith,
  All, total, str_eq, eq_iff, starts_with, Bool-cases, if◌then◌else◌,
}
use local_gpu_cluster.Prelude.Json.{Value, null, str, obj, Fields, get}
use local_gpu_cluster.VisionGuard.Check.{
  Refusal, bad_part_type, no_projector, remote_image, accept, refuse, Round, skip, images, stop,
  counted, stopped, walk, round_of, check_of, list_or_empty,
}
use local_gpu_cluster.VisionGuard.Chat.{
  image_url, check_kind, check_part, content_of, check_message, check_media,
}

-- `round` goes on with the right count on the items that are `Ok`, and stops on the others.
abbrev pub Decides : (Value → Round) → (Value → Type 0) → (Value → ℕ) → Value → Type 0
Decides round Ok w v =
    (Ok v × (round v ≡ skip) × (w v ≡ 0))
    ⊎ (Ok v × (round v ≡ images (w v)))
    ⊎ ((r : Refusal) × (round v ≡ stop r) × (¬ Ok v))

module _ (round : Value → Round) (Ok : Value → Type 0) (w : Value → ℕ)
    (decides : (v : Value) → Decides round Ok w v) where
  -- The loop counts all items if each is `Ok`, and is stopped otherwise.
  pub walk-decides :
      (n : ℕ) (vs : List Value)
      → (All Ok vs × (walk round n vs ≡ counted (n + total w vs)))
        ⊎ ((r : Refusal) × (walk round n vs ≡ stopped r) × (¬ All Ok vs))
  unfolding walk total
  walk-decides n [] = inl (tt, ap counted (omega arith))
  walk-decides n (v ∷ vs) = elim (decides v) [
    | inl (good, e, z) ↦ elim (walk-decides n vs) [
      | inl (all_good, f) ↦ inl ((good, all_good), ground arith)
      | inr (r, f, bad) ↦ inr (r, ground arith, λ a. bad a.1)
    ]
    | inr (inl (good, e)) ↦ elim (walk-decides (n + w v) vs) [
      | inl (all_good, f) ↦ inl ((good, all_good), ground arith)
      | inr (r, f, bad) ↦ inr (r, ground arith, λ a. bad a.1)
    ]
    | inr (inr (r, e, bad)) ↦ inr (r, ground arith, λ a. bad a.0)
  ]

-- A part that a client may send: text, a refusal, or an inline image while vision is enabled.
abbrev pub IsInline : Bool → Fields → Type 0
IsInline vision part =
    (get "type" part ≡ some (str "image_url"))
    × (vision ≡ true)
    × (starts_with (image_url part) "data:image/" ≡ true)

abbrev pub IsPart : Bool → Fields → Type 0
IsPart vision part =
    (get "type" part ≡ some (str "text"))
    ⊎ (get "type" part ≡ some (str "refusal"))
    ⊎ IsInline vision part

-- Items of a content list that are no objects are passed over.
abbrev pub PartOk : Bool → Value → Type 0
PartOk vision (obj part) = IsPart vision part
PartOk vision _ = Unit

-- One for an image part.
abbrev pub is_image : Option Value → ℕ
is_image (some (str kind)) = if str_eq kind "image_url" then 1 else 0
is_image _ = 0

abbrev pub part_images : Value → ℕ
part_images (obj part) = is_image (get "type" part)
part_images _ = 0

module _ (vision : Bool) (part : Fields) where
  check_kind-decides :
      (o : Option Value)
      → get "type" part ≡ o
      → (IsPart vision part × (check_kind vision part o ≡ skip) × (is_image o ≡ 0))
        ⊎ (IsPart vision part × (check_kind vision part o ≡ images (is_image o)))
        ⊎ ((r : Refusal) × (check_kind vision part o ≡ stop r) × (¬ IsPart vision part))
  check_kind-decides (some (str kind)) e =
      let text = eq_iff kind "text" in
      let refusal = eq_iff kind "refusal" in
      let image = eq_iff kind "image_url" in
      elim (Bool-cases (str_eq kind "text")) [
        | inl t ↦ let k : kind ≡ "text" = text.0 t in inl (inl (ground arith), rw k refl, rw k refl)
        | inr nt ↦ elim (Bool-cases (str_eq kind "refusal")) [
          | inl t ↦
              let k : kind ≡ "refusal" = refusal.0 t in
              inl (inr (inl (ground arith)), rw k refl, rw k refl)
          | inr nr ↦ elim (Bool-cases (str_eq kind "image_url")) [
            | inr ni ↦ inr (inr (bad_part_type, ground arith, λ h. ground arith))
            | inl t ↦ elim (Bool-cases vision) [
              | inr nv ↦ inr (inr (no_projector, ground arith, λ h. ground arith))
              | inl v ↦ elim (Bool-cases (starts_with (image_url part) "data:image/")) [
                | inr remote ↦ inr (inr (remote_image, ground arith, λ h. ground arith))
                | inl inline ↦ inr (inl (inr (inr (ground arith, v, inline)), ground arith))
              ]
            ]
          ]
        ]
      ]
  check_kind-decides none e = inr (inr (bad_part_type, refl, λ h. ground arith))
  check_kind-decides (some v) e = inr (inr (bad_part_type, refl, λ h. ground arith))

check_part-Decides :
    (vision : Bool) (v : Value) → Decides (check_part vision) (PartOk vision) part_images v
unfolding check_part
check_part-Decides vision (obj part) = check_kind-decides vision part (get "type" part) refl
check_part-Decides vision null = inl (tt, refl, refl)
check_part-Decides vision v = inl (tt, refl, refl)

-- Every part of the message's content list, if it has one.
abbrev pub MessageOk : Bool → Value → Type 0
MessageOk vision m = All (PartOk vision) (list_or_empty (content_of m))

abbrev pub message_images : Value → ℕ
message_images m = total part_images (list_or_empty (content_of m))

check_message-Decides :
    (vision : Bool) (m : Value) → Decides (check_message vision) (MessageOk vision) message_images m
unfolding check_message
check_message-Decides vision m =
    elim (walk-decides (check_part vision) (PartOk vision) part_images (check_part-Decides vision) 0
      (list_or_empty (content_of m))) [
        | inl (good, e) ↦ inr (inl (good, ap round_of e ∙ ap images (omega arith)))
        | inr (r, e, bad) ↦ inr (inr (r, ap round_of e, bad))
      ]

-- Chat messages are accepted exactly when every part of every content list, whatever the role,
-- that is a JSON object is text, a refusal, or an inline `data:image/` image while vision is
-- enabled. A part that is no object is passed over, and a message whose content is no list has no
-- parts. The count is then the number of image parts. Otherwise the answer has status 400.
pub check_media_exact :
    (messages : Option Value) (vision : Bool)
    → (All (MessageOk vision) (list_or_empty messages)
        × (check_media messages vision ≡ accept (total message_images (list_or_empty messages))))
      ⊎ ((r : Refusal) × (check_media messages vision ≡ refuse r)
          × (¬ All (MessageOk vision) (list_or_empty messages)))
unfolding check_media
check_media_exact messages vision =
    elim (walk-decides (check_message vision) (MessageOk vision) message_images
      (check_message-Decides vision) 0 (list_or_empty messages)) [
        | inl (good, e) ↦ inl (good, ap check_of e ∙ ap accept (omega arith))
        | inr (r, e, bad) ↦ inr (r, ap check_of e, bad)
      ]

-- ===== src/VisionGuard/AnthropicBlocks.antt =====
-- Under scripts/files/vision_guard.py.
-- What one block of an Anthropic message decides in scripts/files/vision_guard.py.
use local_gpu_cluster.Prelude.{
  ℕ, ◌≡◌, refl, sym, ap, ◌∙◌, ◌⊎◌, inl, inr, String, Bool, true, false, not, Option, none, some,
  arith, str_eq, eq_iff, starts_with, Bool-cases, if◌then◌else◌,
}
use mathlib.Core.Bool.{false≢true}
use local_gpu_cluster.Prelude.Json.{Value, str, obj, Fields, get}
use local_gpu_cluster.VisionGuard.Check.{
  Refusal, Round, skip, images, stop, no_projector, bad_block_type, bad_source,
}
use local_gpu_cluster.VisionGuard.Anthropic.{
  plain_block, source_ok, text_is, is_text, is_image_type, block_kind,
}

abbrev pub IsText : Option Value → Type 0
IsText o = (t : String) × (o ≡ some (str t))

-- A base64 source with an image media type: neither a URL nor a file.
abbrev pub IsInlineSource : Option Value → Type 0
IsInlineSource o =
    (src : Fields) × (o ≡ some (obj src))
    × (get "type" src ≡ some (str "base64"))
    × IsText (get "data" src)
    × ((t : String) × (get "media_type" src ≡ some (str t)) × (starts_with t "image/" ≡ true))

pub text_is-str : (s : String) (o : Option Value) → text_is s o ≡ true → o ≡ some (str s)
text_is-str s (some (str t)) h = ground (arith, eq_iff t s)
text_is-str s none h = cc
text_is-str s (some v) h = cc

pub is_text-str : (o : Option Value) → is_text o ≡ true → IsText o
is_text-str (some (str t)) h = (t, refl)
is_text-str none h = cc
is_text-str (some v) h = cc

pub is_image_type-str :
    (o : Option Value)
    → is_image_type o ≡ true
    → (t : String) × (o ≡ some (str t)) × (starts_with t "image/" ≡ true)
is_image_type-str (some (str t)) h = (t, refl, h)
is_image_type-str none h = cc
is_image_type-str (some v) h = cc

pub source_ok-inline : (o : Option Value) → source_ok o ≡ true → IsInlineSource o
unfolding source_ok
source_ok-inline (some (obj src)) h = (
  src,
  refl,
  text_is-str "base64" (get "type" src) (ground arith),
  is_text-str (get "data" src) (ground arith),
  is_image_type-str (get "media_type" src) (ground arith),
)
source_ok-inline none h = cc
source_ok-inline (some v) h = cc

pub inline-source_ok : (o : Option Value) → IsInlineSource o → source_ok o ≡ true
unfolding source_ok
inline-source_ok o (src, e, base64, (d, has_data), (t, has_type, image)) =
    rw (e, base64, has_data, has_type) image

abbrev pub IsPlainKind : Option Value → Type 0
IsPlainKind o =
    (o ≡ some (str "text"))
    ⊎ (o ≡ some (str "thinking"))
    ⊎ (o ≡ some (str "redacted_thinking"))
    ⊎ (o ≡ some (str "tool_use"))

-- A block that a client may send, where `Tool` is what a tool result must be.
abbrev pub IsBlock : Bool → Fields → Type 0 → Type 0
IsBlock vision b Tool =
    IsPlainKind (get "type" b)
    ⊎ ((get "type" b ≡ some (str "tool_result")) × Tool)
    ⊎ ((get "type" b ≡ some (str "image")) × (vision ≡ true) × IsInlineSource (get "source" b))

-- The images of a block, where `n` is the number of those in a tool result.
abbrev pub kind_images : ℕ → Option Value → ℕ
kind_images n (some (str kind)) =
    if str_eq kind "image" then 1 else if str_eq kind "tool_result" then n else 0
kind_images n _ = 0

-- A round that goes on with the right count where `Ok` holds, and stops otherwise.
abbrev pub Rounds : Round → Type 0 → ℕ → Type 0
Rounds round Ok n =
    (Ok × (round ≡ skip) × (n ≡ 0))
    ⊎ (Ok × (round ≡ images n))
    ⊎ ((r : Refusal) × (round ≡ stop r) × (¬ Ok))

pub plain-kind :
    (kind : String) (o : Option Value)
    → o ≡ some (str kind)
    → plain_block kind ≡ true
    → IsPlainKind o
plain-kind kind o e h = elim (Bool-cases (str_eq kind "text")) [
  | inl t ↦ inl (ground (arith, eq_iff kind "text"))
  | inr f1 ↦ elim (Bool-cases (str_eq kind "thinking")) [
    | inl t ↦ inr (inl (ground (arith, eq_iff kind "thinking")))
    | inr f2 ↦ elim (Bool-cases (str_eq kind "redacted_thinking")) [
      | inl t ↦ inr (inr (inl (ground (arith, eq_iff kind "redacted_thinking"))))
      | inr f3 ↦ inr (inr (inr (ground (arith, eq_iff kind "tool_use"))))
    ]
  ]
]

-- Plain kinds are neither tool results nor images.
pub plain_images : (n : ℕ) (o : Option Value) → IsPlainKind o → kind_images n o ≡ 0
plain_images n o (inl e) = rw e refl
plain_images n o (inr (inl e)) = rw e refl
plain_images n o (inr (inr (inl e))) = rw e refl
plain_images n o (inr (inr (inr e))) = rw e refl

pub kind_ne :
    (o : Option Value) (j k : String) → str_eq j k ≡ false → o ≡ some (str j) → ¬ (o ≡ some (str k))
kind_ne o j k ne e f = ground (arith, eq_iff j k)

-- A block of another kind is no plain block.
pub not-plain :
    (o : Option Value) (k : String) → plain_block k ≡ false → o ≡ some (str k) → ¬ IsPlainKind o
not-plain o k np e (inl f) = kind_ne o k "text" (ground arith) e f
not-plain o k np e (inr (inl f)) = kind_ne o k "thinking" (ground arith) e f
not-plain o k np e (inr (inr (inl f))) = kind_ne o k "redacted_thinking" (ground arith) e f
not-plain o k np e (inr (inr (inr f))) = kind_ne o k "tool_use" (ground arith) e f

module _ (vision : Bool) (b : Fields) (tool : Round) (Tool : Type 0) (n : ℕ)
    (decides : Rounds tool Tool n) where
  tool_case : get "type" b ≡ some (str "tool_result") → Rounds tool (IsBlock vision b Tool) n
  tool_case e = elim decides [
    | inl (good, q, z) ↦ inl (inr (inl (e, good)), q, z)
    | inr (inl (good, q)) ↦ inr (inl (inr (inl (e, good)), q))
    | inr (inr (r, q, bad)) ↦ inr (inr (r, q, not_block bad))
  ]
    where
      not_block : ¬ Tool → ¬ IsBlock vision b Tool
      not_block bad (inl p) = not-plain (get "type" b) "tool_result" refl e p
      not_block bad (inr (inl (_, t))) = bad t
      not_block bad (inr (inr (i, _, _))) = kind_ne (get "type" b) "tool_result" "image" refl e i

  block-str : IsBlock vision b Tool → (k : String) × (get "type" b ≡ some (str k))
  block-str (inl (inl e)) = (_, e)
  block-str (inl (inr (inl e))) = (_, e)
  block-str (inl (inr (inr (inl e)))) = (_, e)
  block-str (inl (inr (inr (inr e)))) = (_, e)
  block-str (inr (inl (e, _))) = (_, e)
  block-str (inr (inr (e, _, _))) = (_, e)

  image_round : Round
  image_round =
      if not vision
      then stop no_projector
      else if not (source_ok (get "source" b))
      then stop bad_source
      else images 1

  -- Of an image block, the other two kinds are no concern.
  image_parts :
      get "type" b ≡ some (str "image")
      → IsBlock vision b Tool
      → (vision ≡ true) × IsInlineSource (get "source" b)
  image_parts e (inl p) = absurd (not-plain (get "type" b) "image" refl e p)
  image_parts e (inr (inl (t, _))) = absurd (kind_ne (get "type" b) "image" "tool_result" refl e t)
  image_parts e (inr (inr (_, v, src))) = (v, src)

  image_case : get "type" b ≡ some (str "image") → Rounds image_round (IsBlock vision b Tool) 1
  unfolding image_round
  image_case e = elim (Bool-cases vision) [
    | inr nv ↦
        inr (inr (no_projector, ground arith, λ h. false≢true (sym nv ∙ (image_parts e h).0)))
    | inl v ↦ elim (Bool-cases (source_ok (get "source" b))) [
      | inr ns ↦ inr (
          inr (
            bad_source,
            ground arith,
            λ h. false≢true (sym ns ∙ inline-source_ok (get "source" b) (image_parts e h).1),
          ))
      | inl s ↦ inr (inl (inr (inr (e, v, source_ok-inline (get "source" b) s)), ground arith))
    ]
  ]

  other_case :
      (kind : String)
      → get "type" b ≡ some (str kind)
      → plain_block kind ≡ false
      → str_eq kind "tool_result" ≡ false
      → str_eq kind "image" ≡ false
      → ¬ IsBlock vision b Tool
  other_case kind e np nt ni (inl p) = not-plain (get "type" b) kind np e p
  other_case kind e np nt ni (inr (inl (t, _))) = kind_ne (get "type" b) kind "tool_result" nt e t
  other_case kind e np nt ni (inr (inr (i, _, _))) = kind_ne (get "type" b) kind "image" ni e i

  pub block_kind-decides :
      (o : Option Value)
      → get "type" b ≡ o
      → Rounds (block_kind vision b tool o) (IsBlock vision b Tool) (kind_images n o)
  unfolding image_round
  block_kind-decides (some (str kind)) e = elim (Bool-cases (plain_block kind)) [
    | inl plain ↦ inl (
      inl (plain-kind kind (get "type" b) e plain),
      ground arith,
      plain_images n (some (str kind)) (plain-kind kind (some (str kind)) refl plain),
    )
    | inr np ↦ elim (Bool-cases (str_eq kind "tool_result")) [
      | inl t ↦
          let k : kind ≡ "tool_result" = (eq_iff kind "tool_result").0 t in
          rw k (tool_case (e ∙ ap (λ s. some (str s)) k))
      | inr nt ↦ elim (Bool-cases (str_eq kind "image")) [
        | inr ni ↦ inr (inr (bad_block_type, ground arith, other_case kind e np nt ni))
        | inl t ↦
            let k : kind ≡ "image" = (eq_iff kind "image").0 t in
            rw k (image_case (e ∙ ap (λ s. some (str s)) k))
      ]
    ]
  ]
  block_kind-decides none e = inr (inr (bad_block_type, refl, λ h. let (k, f) = block-str h in cc))
  block_kind-decides (some v) e =
      inr (inr (bad_block_type, refl, λ h. let (k, f) = block-str h in cc))

-- ===== src/VisionGuard/Body.antt =====
-- `read_body_capped`, `check_completions_body` and the helpers of scripts/files/vision_guard.py.
use mathlib.Core.List.{append-nil, append_assoc}
use mathlib.Core.Bool.{true≢false}
use local_gpu_cluster.Prelude.{
  sym, ℕ, ◌+◌, ◌-◌, ◌*◌, ◌≤◌, ◌<◌, ◌≡◌, refl, ap, ◌∙◌, ◌⊎◌, inl, inr, Bool, true, false, not, ◌&&◌,
  Option, none, some, List, [], ◌∷◌, ◌++◌, arith, all, length, length-append, ltb, Bool-cases,
  if◌then◌else◌,
}
use local_gpu_cluster.Prelude.Text.{Codes, between}

abbrev pub Bytes : Type 0
Bytes = List ℕ

-- The body, or the exception.
pub data Reading : Type 0 where
  bad_request too_large : Reading
  body : Bytes → Reading

abbrev pub is_digit : ℕ → Bool
is_digit = between b'0' b'9'

-- cl.isascii() and cl.isdigit()
abbrev pub ascii_digits : Codes → Bool
ascii_digits [] = false
ascii_digits (c ∷ cs) = is_digit c && all is_digit cs

-- int(cl), on digits
unfoldable pub decimal : ℕ → Codes → ℕ
decimal n [] = n
decimal n (c ∷ cs) = decimal (n * 10 + (c - b'0')) cs

-- The loop over the stream; `total` is the length of `chunks`, joined at the end.
unfoldable pub read_chunks : ℕ → ℕ → Bytes → List Bytes → Reading
read_chunks max_bytes total chunks [] = body chunks
read_chunks max_bytes total chunks (chunk ∷ stream) =
    let rest = read_chunks max_bytes (total + length chunk) (chunks ++ chunk) stream in
    if ltb max_bytes (total + length chunk) then too_large else rest

-- The header is "content-length", where there is one.
unfoldable pub read_body_capped : Option Codes → List Bytes → ℕ → Reading
read_body_capped none stream max_bytes = read_chunks max_bytes 0 [] stream
read_body_capped (some cl) stream max_bytes =
    if not (ascii_digits cl)
    then bad_request
    else if ltb max_bytes (decimal 0 cl)
    then too_large
    else read_chunks max_bytes 0 [] stream

abbrev pub join : List Bytes → Bytes
join [] = []
join (c ∷ cs) = c ++ join cs

-- What the header declares: nothing, an acceptable length, or something else.
abbrev pub IsDeclared : ℕ → Option Codes → Type 0
IsDeclared max_bytes none = Unit
IsDeclared max_bytes (some cl) = (ascii_digits cl ≡ true) × (decimal 0 cl ≤ max_bytes)

abbrev pub IsOversized : ℕ → Option Codes → Type 0
IsOversized max_bytes none = ⊥
IsOversized max_bytes (some cl) = (ascii_digits cl ≡ true) × (max_bytes < decimal 0 cl)

abbrev pub IsMalformed : Option Codes → Type 0
IsMalformed none = ⊥
IsMalformed (some cl) = ascii_digits cl ≡ false

if_false {ℓ} : {A : Type ℓ} {b : Bool} (x y : A) → b ≡ false → (if b then x else y) ≡ y
if_false {b = true} x y h = absurd (true≢false h)
if_false {b = false} x y h = refl

module _ (max_bytes : ℕ) where
  read_chunks-join :
      (total : ℕ) (chunks : Bytes) (stream : List Bytes)
      → total ≡ length chunks
      → total ≤ max_bytes
      → ((total + length (join stream) ≤ max_bytes)
          × (read_chunks max_bytes total chunks stream ≡ body (chunks ++ join stream)))
        ⊎ ((max_bytes < total + length (join stream))
            × (read_chunks max_bytes total chunks stream ≡ too_large))
  unfolding read_chunks
  read_chunks-join total chunks [] e le = inl (omega arith, ap body (sym (append-nil chunks)))
  read_chunks-join total chunks (chunk ∷ stream) e le =
      elim (Bool-cases (ltb max_bytes (total + length chunk))) [
        | inl over ↦ inr (ground (arith, length-append chunk (join stream)), ground arith)
        | inr fits ↦
            elim (read_chunks-join (total + length chunk) (chunks ++ chunk) stream
              (ground (arith, length-append chunks chunk)) (ground arith)) [
                | inl (le', e') ↦ inl (
                  ground (arith, length-append chunk (join stream)),
                  if_false _ _ fits ∙ e' ∙ ap body (append_assoc chunks chunk (join stream)),
                )
                | inr (lt', e') ↦
                    inr (ground (arith, length-append chunk (join stream)), if_false _ _ fits ∙ e')
              ]
      ]

-- A reading comes to one of three ends, and the header and the stream alone decide which. The whole
-- stream, joined, is the body when the header, if there is one, is a decimal number within the
-- cap and the stream's length is too. The body is too large when a decimal header is above
-- the cap or the stream is, and the request is bad when the header is not ASCII digits.
pub read_body_capped_exact :
    (cl : Option Codes) (stream : List Bytes) (max_bytes : ℕ)
    → (IsDeclared max_bytes cl
        × (length (join stream) ≤ max_bytes)
        × (read_body_capped cl stream max_bytes ≡ body (join stream)))
      ⊎ ((IsOversized max_bytes cl ⊎ (IsDeclared max_bytes cl × (max_bytes < length (join stream))))
          × (read_body_capped cl stream max_bytes ≡ too_large))
      ⊎ (IsMalformed cl × (read_body_capped cl stream max_bytes ≡ bad_request))
unfolding read_body_capped
read_body_capped_exact none stream max_bytes =
    elim (read_chunks-join max_bytes 0 [] stream refl (omega arith)) [
      | inl (le, e) ↦ ground arith
      | inr (over, e) ↦ ground arith
    ]
read_body_capped_exact (some cl) stream max_bytes =
    elim (read_chunks-join max_bytes 0 [] stream refl (omega arith)) [
      | inl (le, e) ↦ ground arith
      | inr (over, e) ↦ ground arith
    ]

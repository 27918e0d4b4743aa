-- ===== src/RagRefresh/Batches.antt =====
-- `plan_embed_batches` of scripts/rag/refresh.py: the chunks of the two lists, paired.
use local_gpu_cluster.Prelude.{
  ℕ, ◌-◌, ◌≤◌, ◌<◌, ◌≡◌, refl, ap, ◌∙◌, List, [], ◌∷◌, ◌++◌, arith, length, All, suc, zero, max,
}
use local_gpu_cluster.Prelude.Int.{ℤ, pos_part}

-- max(1, int(batch_size))
abbrev pub batch_size_of : ℤ → ℕ
batch_size_of n = max 1 (pos_part n)

module _ {A : Type 0} where
  abbrev pub take : ℕ → List A → List A
  take zero xs = []
  take (suc n) [] = []
  take (suc n) (x ∷ xs) = x ∷ take n xs

  abbrev pub drop : ℕ → List A → List A
  drop zero xs = xs
  drop (suc n) [] = []
  drop (suc n) (x ∷ xs) = drop n xs

  -- [xs[i:i + size] for i in range(0, len(xs), size)]: as many chunks as it takes, on fuel.
  unfoldable pub chunks : ℕ → ℕ → List A → List (List A)
  chunks zero size xs = []
  chunks (suc fuel) size [] = []
  chunks (suc fuel) size (x ∷ xs) = take size (x ∷ xs) ∷ chunks fuel size (drop size (x ∷ xs))

  -- a[i] if i < len(a) else [], for i in range(n)
  unfoldable pub pair_up : ℕ → List (List A) → List (List A) → List (List A × List A)
  pair_up zero ads rms = []
  pair_up (suc n) [] [] = ([], []) ∷ pair_up n [] []
  pair_up (suc n) [] (b ∷ rms) = ([], b) ∷ pair_up n [] rms
  pair_up (suc n) (a ∷ ads) [] = (a, []) ∷ pair_up n ads []
  pair_up (suc n) (a ∷ ads) (b ∷ rms) = (a, b) ∷ pair_up n ads rms

  unfoldable pub plan_embed_batches : List A → List A → ℤ → List (List A × List A)
  plan_embed_batches adds removes batch_size =
      let a = chunks (length adds) (batch_size_of batch_size) adds in
      let r = chunks (length removes) (batch_size_of batch_size) removes in
      pair_up (max (max (length a) (length r)) 1) a r

  abbrev pub concat : List (List A) → List A
  concat [] = []
  concat (x ∷ xs) = x ++ concat xs

  abbrev pub add_chunks : List (List A × List A) → List (List A)
  add_chunks [] = []
  add_chunks (b ∷ bs) = b.0 ∷ add_chunks bs

  abbrev pub remove_chunks : List (List A × List A) → List (List A)
  remove_chunks [] = []
  remove_chunks (b ∷ bs) = b.1 ∷ remove_chunks bs

  take-drop : (n : ℕ) (xs : List A) → take n xs ++ drop n xs ≡ xs
  take-drop zero xs = refl
  take-drop (suc n) [] = refl
  take-drop (suc n) (x ∷ xs) = ap (λ ys. x ∷ ys) (take-drop n xs)

  length-take : (n : ℕ) (xs : List A) → length (take n xs) ≤ n
  length-take zero xs = omega arith
  length-take (suc n) [] = omega arith
  length-take (suc n) (x ∷ xs) = omega (arith, length-take n xs)

  length-drop : (n : ℕ) (xs : List A) → length (drop n xs) ≡ length xs - n
  length-drop zero xs = omega arith
  length-drop (suc n) [] = omega arith
  length-drop (suc n) (x ∷ xs) = omega (arith, length-drop n xs)

  concat-chunks :
      (fuel size : ℕ) (xs : List A)
      → 0 < size
      → length xs ≤ fuel
      → concat (chunks fuel size xs) ≡ xs
  unfolding chunks
  concat-chunks zero size [] pos le = refl
  concat-chunks zero size (x ∷ xs) pos le = ground arith
  concat-chunks (suc fuel) size [] pos le = refl
  concat-chunks (suc fuel) size (x ∷ xs) pos le =
      ap (λ ys. take size (x ∷ xs) ++ ys)
        (concat-chunks fuel size (drop size (x ∷ xs)) pos
          (omega (arith, length-drop size (x ∷ xs))))
      ∙ take-drop size (x ∷ xs)

  chunks-bounded : (fuel size : ℕ) (xs : List A) → All (λ c. length c ≤ size) (chunks fuel size xs)
  unfolding chunks
  chunks-bounded zero size xs = tt
  chunks-bounded (suc fuel) size [] = tt
  chunks-bounded (suc fuel) size (x ∷ xs) =
      (length-take size (x ∷ xs), chunks-bounded fuel size (drop size (x ∷ xs)))

  concat-pair_up :
      (n : ℕ) (ads rms : List (List A))
      → length ads ≤ n
      → length rms ≤ n
      → (concat (add_chunks (pair_up n ads rms)) ≡ concat ads)
        × (concat (remove_chunks (pair_up n ads rms)) ≡ concat rms)
  unfolding pair_up
  concat-pair_up zero [] [] la lr = (refl, refl)
  concat-pair_up zero [] (r ∷ rms) la lr = ground arith
  concat-pair_up zero (a ∷ ads) rms la lr = ground arith
  concat-pair_up (suc n) [] [] la lr = concat-pair_up n [] [] (omega arith) (omega arith)
  concat-pair_up (suc n) [] (r ∷ rms) la lr =
      let (p, q) = concat-pair_up n [] rms (omega arith) (omega arith) in (p, ap (λ xs. r ++ xs) q)
  concat-pair_up (suc n) (a ∷ ads) [] la lr =
      let (p, q) = concat-pair_up n ads [] (omega arith) (omega arith) in (ap (λ xs. a ++ xs) p, q)
  concat-pair_up (suc n) (a ∷ ads) (r ∷ rms) la lr =
      let (p, q) = concat-pair_up n ads rms (omega arith) (omega arith) in
      (ap (λ xs. a ++ xs) p, ap (λ xs. r ++ xs) q)

  module _ (size : ℕ) where
    abbrev pub IsBounded : List A × List A → Type 0
    IsBounded b = (length b.0 ≤ size) × (length b.1 ≤ size)

    pair_up-IsBounded :
        (n : ℕ) (ads rms : List (List A))
        → All (λ c. length c ≤ size) ads
        → All (λ c. length c ≤ size) rms
        → All IsBounded (pair_up n ads rms)
    unfolding pair_up
    pair_up-IsBounded zero ads rms ha hr = tt
    pair_up-IsBounded (suc n) [] [] ha hr =
        ((omega arith, omega arith), pair_up-IsBounded n [] [] tt tt)
    pair_up-IsBounded (suc n) [] (r ∷ rms) ha hr =
        ((omega arith, hr.0), pair_up-IsBounded n [] rms tt hr.1)
    pair_up-IsBounded (suc n) (a ∷ ads) [] ha hr =
        ((ha.0, omega arith), pair_up-IsBounded n ads [] ha.1 tt)
    pair_up-IsBounded (suc n) (a ∷ ads) (r ∷ rms) ha hr =
        ((ha.0, hr.0), pair_up-IsBounded n ads rms ha.1 hr.1)

  length-pair_up : (n : ℕ) (ads rms : List (List A)) → length (pair_up n ads rms) ≡ n
  unfolding pair_up
  length-pair_up zero ads rms = refl
  length-pair_up (suc n) [] [] = omega (arith, length-pair_up n [] [])
  length-pair_up (suc n) [] (r ∷ rms) = omega (arith, length-pair_up n [] rms)
  length-pair_up (suc n) (a ∷ ads) [] = omega (arith, length-pair_up n ads [])
  length-pair_up (suc n) (a ∷ ads) (r ∷ rms) = omega (arith, length-pair_up n ads rms)

  -- The batches lose, repeat and reorder nothing: the chunks to add, joined, are the list to add, and
  -- likewise for the chunks to remove. No chunk on either side is longer than the batch size, at
  -- least 1, and there is at least one batch.
  pub plan_embed_batches_exact :
      (adds removes : List A) (batch_size : ℤ)
      → let batches = plan_embed_batches adds removes batch_size in
        (concat (add_chunks batches) ≡ adds)
        × (concat (remove_chunks batches) ≡ removes)
        × All (IsBounded (batch_size_of batch_size)) batches
        × (0 < length batches)
  unfolding plan_embed_batches
  plan_embed_batches_exact adds removes batch_size =
      let size : ℕ = batch_size_of batch_size in
      let a : List (List A) = chunks (length adds) size adds in
      let r : List (List A) = chunks (length removes) size removes in
      let n : ℕ = max (max (length a) (length r)) 1 in
      let (p, q) = concat-pair_up n a r (ground arith) (ground arith) in
      (
        p ∙ concat-chunks (length adds) size adds (ground arith) (omega arith),
        q ∙ concat-chunks (length removes) size removes (ground arith) (omega arith),
        pair_up-IsBounded size n a r (chunks-bounded (length adds) size adds)
            (chunks-bounded (length removes) size removes),
        ground (arith, length-pair_up n a r),
      )

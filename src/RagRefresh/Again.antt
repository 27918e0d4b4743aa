-- ===== src/RagRefresh/Again.antt =====
-- The refresh of scripts/rag/refresh.py after one that uploaded everything, with the same documents.
use mathlib.Core.Path.{subst}
use mathlib.Core.Bool.{true≢false}
use local_gpu_cluster.Prelude.{
  ℕ, ◌≡◌, refl, sym, ap, ◌∙◌, inl, inr, String, Bool, true, false, not, none, some, List, [], ◌∷◌,
  str_eq, eq_iff, All, Bool-cases, Option-cases, arith,
}
use local_gpu_cluster.Prelude.Text.{Codes}
use local_gpu_cluster.RagRefresh.Documents.{Document, State, mem, keys}
use local_gpu_cluster.RagRefresh.Plan.{urls, missing, stamp, compute, empty_plan, safety_check}
use local_gpu_cluster.RagRefresh.Diff.{hash_in, hash_of, diff-unchanged, missing-none, keys-mem}
use local_gpu_cluster.RagRefresh.Apply.{
  Upload, Embedding, Options, Outcome, apply_plan, upload_all, remove_all, refresh_one, carry_out,
  halted, batches_of, embed_all,
}
use local_gpu_cluster.RagRefresh.Converges.{Unique, wanted, wanted-none, wanted-Unique}
use local_gpu_cluster.RagRefresh.Settles.{refresh_matches}

diagonal :
    (P : String → Document → Type 0) (docs : List Document)
    → ((u : String) → All (P u) docs)
    → All (λ d. P d.url d) docs
diagonal P [] h = tt
diagonal P (d ∷ docs) h = ((h d.url).0, diagonal P docs (λ u. (h u).1))

All-at :
    {P Q : Document → Type 0} (f : (d : Document) → P d → Q d) (docs : List Document)
    → All P docs
    → All Q docs
All-at f [] h = tt
All-at f (d ∷ docs) (h, hs) = (f d h, All-at f docs hs)

module _ (sha256 : Codes → String) where
  -- A state that has what is wanted makes an empty plan.
  compute-noop :
      (docs : List Document) (s : State)
      → Unique (urls docs)
      → ((u : String) → hash_of u s ≡ wanted sha256 docs u)
      → compute sha256 docs s true none ≡ empty_plan s
  unfolding compute
  compute-noop docs s unique h =
      rw (missing_nothing, diff-unchanged sha256 s docs (empty_plan s) all_same) refl
    where
      all_same : All (λ d. hash_of d.url s ≡ some (stamp sha256 d).hash) docs
      all_same =
          All-at (λ d f. h d.url ∙ sym (f ((eq_iff d.url d.url).1 refl))) docs
            (diagonal
              (λ u d. str_eq d.url u ≡ true → some (stamp sha256 d).hash ≡ wanted sha256 docs u)
              docs (λ u. wanted-Unique sha256 docs u unique))

      missing_nothing : missing (urls docs) (keys s) ≡ []
      missing_nothing = missing-none (urls docs) (keys s) (λ u m.
          elim (Bool-cases (mem u (urls docs))) [
            | inl y ↦ y
            | inr n ↦
                let (e, l) = keys-mem u s m in
                let gone : some e.hash ≡ none =
                  sym (ap hash_in l) ∙ h u ∙ wanted-none sha256 docs u n in
                absurd (ground arith)
          ])

  module _ (upload : ℕ → Document → Upload)
      (embed : ℕ → List String × List String → Embedding) where
    -- Such a plan is not halted, and its apply phase has nothing to send.
    carry_out-noop :
        (o : Options) (now : String) (docs : List Document) (s : State)
        → o.only_plan ≡ false
        → o.dry ≡ false
        → let r = carry_out upload embed o now docs s (empty_plan s) (halted o (empty_plan s)) in
          (r.batches ≡ []) × (r.success ≡ some true)
    unfolding halted safety_check apply_plan upload_all remove_all batches_of embed_all
    carry_out-noop o now docs s p d = elim (Option-cases o.approved_removes) [
      | inl n ↦ rw (n, p, d) (refl, refl)
      | inr (a, e) ↦ rw (e, p, d) (refl, refl)
    ]

    -- With what is wanted in the state, a refresh has nothing to do.
    refresh_noop :
        (o : Options) (now : String) (docs : List Document) (s : State)
        → Unique (urls docs)
        → o.additive_only ≡ false
        → o.only_plan ≡ false
        → o.dry ≡ false
        → ((u : String) → hash_of u s ≡ wanted sha256 docs u)
        → let r = refresh_one upload embed sha256 o now (some docs) [] s in
          (r.batches ≡ []) × (r.success ≡ some true)
    unfolding refresh_one
    refresh_noop o now docs s unique full p d h =
        subst
          (λ plan.
            let r = carry_out upload embed o now docs s plan (halted o plan) in
            (r.batches ≡ []) × (r.success ≡ some true))
          (sym (ap (λ b. compute sha256 docs s (not b) none) full ∙ compute-noop docs s unique h))
          (carry_out-noop o now docs s p d)

  module _ (upload : ℕ → Document → Upload) (embed : ℕ → List String × List String → Embedding)
      (upload' : ℕ → Document → Upload) (embed' : ℕ → List String × List String → Embedding) where
    -- Let every url be collected once, the source not be additive only and nothing be enumerated beyond
    -- what was fetched. After a refresh whose uploads all succeeded, whether its embedding pass completed, was
    -- interrupted or failed, a refresh that collects the same documents sends no embedding batch and
    -- records a success: what a pass did not attach is not attached later.
    pub refresh_again :
        (o o' : Options) (now now' : String) (docs : List Document) (persisted : State)
        (success : Bool)
        → Unique (urls docs)
        → o.additive_only ≡ false
        → o'.additive_only ≡ false
        → o'.only_plan ≡ false
        → o'.dry ≡ false
        → let r = refresh_one upload embed sha256 o now (some docs) [] persisted in
          r.success ≡ some success
          → r.errors ≡ []
          → let r' = refresh_one upload' embed' sha256 o' now' (some docs) [] r.documents in
            (r'.batches ≡ []) × (r'.success ≡ some true)
    unfolding mem
    refresh_again o o' now now' docs persisted success unique full full' p d h ok =
        let r : Outcome = refresh_one upload embed sha256 o now (some docs) [] persisted in
        refresh_noop upload' embed' o' now' docs r.documents unique full' p d (λ u.
          elim (refresh_matches sha256 upload embed o now u docs persisted success unique full h) [
            | inl e ↦ e
            | inr m ↦ absurd (true≢false (sym m ∙ ap (mem u) ok))
          ])

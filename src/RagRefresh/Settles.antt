-- ===== src/RagRefresh/Settles.antt =====
-- A full refresh of scripts/rag/refresh.py from end to end: the state after it, and the refresh after that.
use mathlib.Core.Bool.{true≢false}
use local_gpu_cluster.Prelude.{
  ℕ, ◌≡◌, sym, ap, ◌∙◌, ◌⊎◌, inl, inr, String, Bool, true, false, not, Option, none, some, List, [],
  ◌++◌, Bool-cases, arith,
}
use local_gpu_cluster.Prelude.Text.{Codes}
use local_gpu_cluster.RagRefresh.Documents.{Document, State, lookup, mem, keys}
use local_gpu_cluster.RagRefresh.Plan.{Plan, urls, missing, diff, compute, empty_plan}
use local_gpu_cluster.RagRefresh.Diff.{hash_in, hash_of, missing-mem, missing_complete, mem-keys}
use local_gpu_cluster.RagRefresh.Apply.{
  Upload, Embedding, Progress, Options, Status, apply_plan, upload_all, remove_all, stamp_fetched,
  refresh_one, carry_out, halted,
}
use local_gpu_cluster.RagRefresh.Uploads.{
  IsSettled, hash-stamp_fetched, remove_all-gone, remove_all-other, remove_all-errors,
}
use local_gpu_cluster.RagRefresh.Converges.{
  Unique, wanted, wanted-none, uploads-IsSettled, uploads-other, hash-none,
}

module _ (sha256 : Codes → String) (upload : ℕ → Document → Upload)
    (embed : ℕ → List String × List String → Embedding) where
  module _ (now u : String) (docs : List Document) (persisted : State)
      (unique : Unique (urls docs)) where
    abbrev start : Progress
    start = record {
      new_state = stamp_fetched now docs persisted;
      adds_docpaths = [];
      removes_docpaths = [];
      errors = (diff sha256 persisted docs (empty_plan persisted)).errors;
    }

    abbrev uploaded_all : Progress
    uploaded_all =
        let plan : Plan = diff sha256 persisted docs (empty_plan persisted) in
        upload_all upload embed persisted now 1 (plan.adds ++ plan.updates) start

    -- A collected url is not among the removes, and another is, if the state has it.
    collected-IsSettled :
        mem u (urls docs) ≡ true
        → IsSettled upload embed persisted now u
            (wanted sha256 docs u)
            (remove_all persisted (missing (urls docs) (keys persisted)) uploaded_all)
    collected-IsSettled m = elim (Bool-cases (mem u (missing (urls docs) (keys persisted)))) [
      | inl y ↦ absurd (true≢false (sym m ∙ missing-mem u (urls docs) (keys persisted) y))
      | inr n ↦
          elim (uploads-IsSettled sha256 upload embed now u docs persisted unique m start
            (hash-stamp_fetched u now docs persisted)) [
              | inl h ↦ inl (
                  ap hash_in (
                    remove_all-other persisted u (missing (urls docs) (keys persisted)) uploaded_all
                      n)
                  ∙ h)
              | inr e ↦ inr (
                  ap (mem u) (
                    remove_all-errors persisted (missing (urls docs) (keys persisted)) uploaded_all)
                  ∙ e)
            ]
    ]

    absent-IsSettled :
        mem u (urls docs) ≡ false
        → lookup u
            (remove_all persisted (missing (urls docs) (keys persisted)) uploaded_all).new_state
          ≡ none
    absent-IsSettled m =
        remove_all-gone persisted u (missing (urls docs) (keys persisted)) uploaded_all
          (elim (Bool-cases (mem u (keys persisted))) [
            | inl y ↦ inr (missing_complete u (urls docs) (keys persisted) y m)
            | inr n ↦ inl (
                hash-none _ (
                  uploads-other sha256 upload embed now u docs persisted m start
                  ∙ hash-stamp_fetched u now docs persisted
                  ∙ ap hash_in (mem-keys u persisted n)))
          ])

    apply_plan-IsSettled :
        IsSettled upload embed persisted now u
          (wanted sha256 docs u)
          (apply_plan upload embed now docs persisted (compute sha256 docs persisted true none))
    unfolding apply_plan compute
    apply_plan-IsSettled = elim (Bool-cases (mem u (urls docs))) [
      | inl y ↦ collected-IsSettled y
      | inr n ↦ inl (ap hash_in (absent-IsSettled n) ∙ sym (wanted-none sha256 docs u n))
    ]

  -- A refresh that writes the manifest went through the apply phase.
  carry_out-reaches :
      (P : State → List String → Type 0) (o : Options) (now : String) (docs : List Document)
      (persisted : State) (plan : Plan) (stop : Option Status) (b : Bool)
      → P
          (apply_plan upload embed now docs persisted plan).new_state
          (apply_plan upload embed now docs persisted plan).errors
      → (carry_out upload embed o now docs persisted plan stop).success ≡ some b
      → P
          (carry_out upload embed o now docs persisted plan stop).documents
          (carry_out upload embed o now docs persisted plan stop).errors
  carry_out-reaches P o now docs persisted plan (some s) b h e = ground arith
  carry_out-reaches P o now docs persisted plan none b h e = elim (Bool-cases o.only_plan) [
    | inl y ↦ absurd (ground arith)
    | inr n ↦ elim (Bool-cases o.dry) [ inl y ↦ absurd (ground arith) | inr n' ↦ rw (n, n') h ]
  ]

  -- When every url was collected once, the source is not additive only and the handler enumerated nothing beyond
  -- what it fetched, a refresh that writes the manifest, as a success or not, leaves each url with the
  -- hash of what was collected under it, and out of the state when nothing was, unless an upload of
  -- the url failed and was reported.
  pub refresh_matches :
      (o : Options) (now u : String) (docs : List Document) (persisted : State) (success : Bool)
      → Unique (urls docs)
      → o.additive_only ≡ false
      → let r = refresh_one upload embed sha256 o now (some docs) [] persisted in
        r.success ≡ some success
        → (hash_of u r.documents ≡ wanted sha256 docs u) ⊎ (mem u r.errors ≡ true)
  unfolding refresh_one
  refresh_matches o now u docs persisted success unique full h =
      carry_out-reaches (λ s errors. (hash_of u s ≡ wanted sha256 docs u) ⊎ (mem u errors ≡ true)) o
        now docs persisted (compute sha256 docs persisted (not o.additive_only) none)
        (halted o (compute sha256 docs persisted (not o.additive_only) none)) success
        (rw full (apply_plan-IsSettled now u docs persisted unique)) h

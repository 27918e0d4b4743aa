-- ===== src/RagRefresh/Tests.antt =====
-- A refresh of a source of one document under scripts/rag/refresh.py.
use local_gpu_cluster.Prelude.{
  ℕ, ◌≡◌, ◌≢◌, refl, String, true, false, none, some, List, [], ◌∷◌, ◌⊎◌,
}
use local_gpu_cluster.Prelude.Int.{pos}
use local_gpu_cluster.Prelude.Text.{Codes}
use local_gpu_cluster.RagRefresh.Documents.{Document, State, lookup, assign, pop, mem, collapse}
use local_gpu_cluster.RagRefresh.Plan.{compute, content_hash, stamp, diff, missing, safety_check}
use local_gpu_cluster.RagRefresh.Diff.{hash_of}
use local_gpu_cluster.RagRefresh.Batches.{plan_embed_batches, pair_up, chunks}
use local_gpu_cluster.RagRefresh.Apply.{
  Upload, uploaded, Embedding, interrupted, completed, Options, Outcome, refresh_one, halted,
  stamp_fetched, superseded, remove_all, upload_all, embed_all, batches_of, apply_plan,
}
use local_gpu_cluster.RagRefresh.Converges.{wanted}
use local_gpu_cluster.RagRefresh.Settles.{refresh_matches}
use local_gpu_cluster.RagRefresh.Again.{refresh_again}
use local_gpu_cluster.RagRefresh.Guards.{MayRemove, removes_guarded}

abbrev three_adds : List String
three_adds = "a" ∷ "b" ∷ "c" ∷ []

abbrev one_remove : List String
one_remove = "d" ∷ []

-- A digest that is a constant, a server that takes every upload, and an embedding pass that is interrupted.
abbrev digest : Codes → String
digest text = "d"

abbrev take_all : ℕ → Document → Upload
take_all i doc = uploaded (some "new.json")

abbrev interrupt : ℕ → List String × List String → Embedding
interrupt i b = interrupted

abbrev complete : ℕ → List String × List String → Embedding
complete i b = completed

abbrev options : Options
options = record {
  additive_only = false;
  max_delete_pct = record { percent = 1; scale = 10 };
  approved_removes = none;
  only_plan = false;
  dry = false;
  embed_batch_size = pos 200;
}

abbrev page : Document
page = record { url = "u"; content = []; title = ""; hash = none }

-- The page is known with another hash, and another page is gone.
abbrev persisted : State
persisted =
    ("u", record { hash = some "old"; last_fetched = none; allm_doc_path = some "old.json" })
    ∷ ("v", record { hash = some "old"; last_fetched = none; allm_doc_path = some "v.json" })
    ∷ []

abbrev refreshed : Outcome
refreshed = refresh_one take_all interrupt digest options "now" (some (page ∷ [])) [] persisted

interrupts : (refreshed.success ≡ some false) × (refreshed.errors ≡ [])
unfolding refresh_one compute content_hash stamp diff missing safety_check lookup assign pop mem
    collapse halted stamp_fetched superseded remove_all upload_all embed_all batches_of apply_plan
    plan_embed_batches pair_up chunks
interrupts = (refl, refl)

refresh_matches_example :
    (hash_of "v" refreshed.documents ≡ wanted digest (page ∷ []) "v")
    ⊎ (mem "v" refreshed.errors ≡ true)
unfolding mem
refresh_matches_example =
    refresh_matches digest take_all interrupt options "now" "v" (page ∷ []) persisted false
      (refl, tt) refl interrupts.0

refresh_again_example :
    let r =
      refresh_one take_all complete digest options "later"
        (some (page ∷ []))
        []
        refreshed.documents in
    (r.batches ≡ []) × (r.success ≡ some true)
unfolding mem
refresh_again_example =
    refresh_again digest take_all interrupt take_all complete options options "now" "later"
      (page ∷ []) persisted false (refl, tt) refl refl refl refl interrupts.0 interrupts.1

had_v : lookup "v" persisted ≢ none
unfolding lookup
had_v e = cc

lost_v : lookup "v" refreshed.documents ≡ none
unfolding refresh_one compute content_hash stamp diff missing safety_check lookup assign pop mem
    collapse halted stamp_fetched superseded remove_all upload_all embed_all batches_of apply_plan
    plan_embed_batches pair_up chunks
lost_v = refl

removes_guarded_example :
    let removes = (compute digest (page ∷ []) persisted true none).removes in
    (mem "v" removes ≡ true) × MayRemove none (record { percent = 1; scale = 10 }) 2 removes
removes_guarded_example =
    removes_guarded digest take_all interrupt options "now" (page ∷ []) [] persisted "v" had_v
      lost_v

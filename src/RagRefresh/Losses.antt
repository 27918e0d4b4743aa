-- ===== src/RagRefresh/Losses.antt =====
-- Which urls the apply phase of scripts/rag/refresh.py takes out of the documents state: only those
-- that the plan removes.
use mathlib.Core.Path.{subst}
use local_gpu_cluster.Prelude.{
  ℕ, ◌+◌, ◌≡◌, ◌≢◌, sym, ◌∙◌, inl, inr, String, false, Option, none, some, List, [], ◌∷◌, ◌++◌,
  str_eq, eq_iff, Bool-cases,
}
use local_gpu_cluster.RagRefresh.Documents.{
  Document, Entry, State, lookup, assign, mem, lookup-assign, lookup-assign_other,
}
use local_gpu_cluster.RagRefresh.Plan.{Plan}
use local_gpu_cluster.RagRefresh.Apply.{
  Upload, failed, uploaded, Embedding, Progress, touch, stamp_fetched, finish_upload, upload_all,
  apply_plan,
}
use local_gpu_cluster.RagRefresh.Uploads.{remove_all-other}

-- A url that the state has.
abbrev Has : String → State → Type 0
Has u s = lookup u s ≢ none

assign-Has : (u v : String) (e : Entry) (s : State) → Has u s → Has u (assign v e s)
assign-Has u v e s h = elim (Bool-cases (str_eq v u)) [
  | inl y ↦
      subst (λ k. Has k (assign v e s)) ((eq_iff v u).0 y)
        (λ n. absurd (cc (lookup-assign v e s, n)))
  | inr n ↦ λ q. h (sym (lookup-assign_other u v e s n) ∙ q)
]

touch-Has : (u v now : String) (o : Option Entry) (s : State) → Has u s → Has u (touch now o v s)
touch-Has u v now none s h = h
touch-Has u v now (some e) s h = assign-Has u v _ s h

stamp_fetched-Has :
    (u now : String) (docs : List Document) (s : State) → Has u s → Has u (stamp_fetched now docs s)
unfolding stamp_fetched
stamp_fetched-Has u now [] s h = h
stamp_fetched-Has u now (d ∷ docs) s h =
    stamp_fetched-Has u now docs _ (touch-Has u d.url now (lookup d.url s) s h)

finish_upload-Has :
    (persisted : State) (u now : String) (d : Document) (r : Upload) (p : Progress)
    → Has u p.new_state
    → Has u (finish_upload persisted now d r p).new_state
finish_upload-Has persisted u now d failed p h = h
finish_upload-Has persisted u now d (uploaded path) p h = assign-Has u d.url _ p.new_state h

module _ (upload : ℕ → Document → Upload) (embed : ℕ → List String × List String → Embedding) where
  upload_all-Has :
      (persisted : State) (u now : String) (i : ℕ) (docs : List Document) (p : Progress)
      → Has u p.new_state
      → Has u (upload_all upload embed persisted now i docs p).new_state
  unfolding upload_all
  upload_all-Has persisted u now i [] p h = h
  upload_all-Has persisted u now i (d ∷ docs) p h =
      upload_all-Has persisted u now (i + 1) docs _
        (finish_upload-Has persisted u now d (upload i d) p h)

  -- A url that the plan does not remove is still there.
  pub apply_plan-Has :
      (u now : String) (docs : List Document) (s : State) (plan : Plan)
      → lookup u s ≢ none
      → mem u plan.removes ≡ false
      → lookup u (apply_plan upload embed now docs s plan).new_state ≢ none
  unfolding apply_plan
  apply_plan-Has u now docs s plan h m q =
      upload_all-Has s u now 1 (plan.adds ++ plan.updates) _ (stamp_fetched-Has u now docs s h)
        (sym (remove_all-other s u plan.removes _ m) ∙ q)

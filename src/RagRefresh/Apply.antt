-- ===== src/RagRefresh/Apply.antt =====
-- `refresh_one` of scripts/rag/refresh.py: the plan, what may halt it, and what applying it does to the
-- state and to the workspace. The handler, the document server and the clock are arguments.
use local_gpu_cluster.Prelude.{
  ℕ, ◌+◌, String, Bool, true, false, not, ◌&&◌, Option, none, some, List, [], ◌∷◌, ◌++◌, str_eq,
  if◌then◌else◌, any,
}
use local_gpu_cluster.Prelude.Int.{ℤ}
use local_gpu_cluster.Prelude.Text.{Codes}
use local_gpu_cluster.RagRefresh.Documents.{Document, Entry, State, lookup, assign, pop, mem}
use local_gpu_cluster.RagRefresh.Plan.{Plan, Ratio, safety_check, compute}
use local_gpu_cluster.RagRefresh.Batches.{plan_embed_batches}

-- What `upload_raw_text` comes to: an exception, or a response with the document's path, if it has one.
pub data Upload : Type 0 where
  failed : Upload
  uploaded : Option String → Upload

-- What one `update_embeddings` call comes to.
pub data Embedding : Type 0 where
  completed interrupted crashed : Embedding

pub data Status : Type 0 where
  error halted_drift halted_safety plan_only dry_run embed_interrupted applied : Status

pub record Options : Type 0 where
  pub additive_only : Bool
  pub max_delete_pct : Ratio
  pub approved_removes : Option (List String)
  pub only_plan : Bool
  pub dry : Bool
  pub embed_batch_size : ℤ

-- The locals of the apply phase: new_state, the two lists of paths, and the plan's errors.
pub record Progress : Type 0 where
  pub new_state : State
  pub adds_docpaths : List String
  pub removes_docpaths : List String
  pub errors : List String

-- What a refresh leaves: documents.json, the batches that were sent, the urls that failed, and whether the
-- manifest records a success, where it is written.
pub record Outcome : Type 0 where
  pub status : Status
  pub documents : State
  pub batches : List (List String × List String)
  pub errors : List String
  pub success : Option Bool

-- [path] if path else []
abbrev pub truthy_path : Option String → List String
truthy_path none = []
truthy_path (some p) = if str_eq p "" then [] else p ∷ []

-- Whether persisted[doc.url].get("hash") != "migrated"
abbrev pub not_migrated : Option String → Bool
not_migrated none = true
not_migrated (some h) = not (str_eq h "migrated")

-- The old path that an upload of this url supersedes, if it was there and is to go.
unfoldable pub superseded : Option Entry → List String
superseded none = []
superseded (some old) = if not_migrated old.hash then truthy_path old.allm_doc_path else []

-- The queue of removals, after an upload that returned this path.
abbrev pub superseding : List String → Option Entry → List String
superseding [] old = []
superseding (p ∷ ps) old = superseded old

-- The stamping loop: last_fetched of each collected url that the state has.
abbrev pub touch : String → Option Entry → String → State → State
touch now none u s = s
touch now (some e) u s = assign u (record e { last_fetched = some now }) s

unfoldable pub stamp_fetched : String → List Document → State → State
stamp_fetched now [] s = s
stamp_fetched now (doc ∷ docs) s = stamp_fetched now docs (touch now (lookup doc.url s) doc.url s)

abbrev pub entry_of : String → Document → Option String → Entry
entry_of now doc path = record { hash = doc.hash; last_fetched = some now; allm_doc_path = path }

-- The body of the upload loop, on what the upload came to.
abbrev pub finish_upload : State → String → Document → Upload → Progress → Progress
finish_upload persisted now doc failed p = record p { errors = p.errors ++ doc.url ∷ [] }
finish_upload persisted now doc (uploaded path) p = record p {
  new_state = assign doc.url (entry_of now doc path) p.new_state;
  adds_docpaths = p.adds_docpaths ++ truthy_path path;
  removes_docpaths =
      p.removes_docpaths ++ superseding (truthy_path path) (lookup doc.url persisted);
}

-- The path of a url's entry, as `persisted.get(url, {}).get("allm_doc_path")`
abbrev pub path_of : Option Entry → List String
path_of none = []
path_of (some e) = truthy_path e.allm_doc_path

unfoldable pub remove_all : State → List String → Progress → Progress
remove_all persisted [] p = p
remove_all persisted (u ∷ us) p = remove_all persisted us (record p {
  new_state = pop u p.new_state;
  removes_docpaths = p.removes_docpaths ++ path_of (lookup u persisted);
})

-- context.discovered_urls or None
abbrev pub known_urls : List String → Option (List String)
known_urls [] = none
known_urls (u ∷ us) = some (u ∷ us)

-- new_removes - approved_removes is not empty
abbrev pub drifted : List String → List String → Bool
drifted approved removes = any (λ u. not (mem u approved)) removes

-- What the approval or the safety threshold says of a plan.
abbrev pub halt_reason : Option (List String) → Ratio → Plan → Option Status
halt_reason (some approved) max_delete_pct p =
    if drifted approved p.removes then some halted_drift else none
halt_reason none max_delete_pct p =
    if safety_check p max_delete_pct then none else some halted_safety

unfoldable pub halted : Options → Plan → Option Status
halted o p = halt_reason o.approved_removes o.max_delete_pct p

abbrev pub is_empty {ℓ} : {A : Type ℓ} → List A → Bool
is_empty [] = true
is_empty (x ∷ xs) = false

-- The batches of the embedding pass, which there is only with something to add or to remove.
unfoldable pub batches_of : Options → Progress → List (List String × List String)
batches_of o p =
    if is_empty p.adds_docpaths && is_empty p.removes_docpaths
    then []
    else plan_embed_batches p.adds_docpaths p.removes_docpaths o.embed_batch_size

abbrev pub conclude : Progress → List (List String × List String) → Embedding → Outcome
conclude p bs e = record {
  status = elim e [ completed ↦ applied | interrupted ↦ embed_interrupted | crashed ↦ error ];
  documents = p.new_state;
  batches = bs;
  errors = p.errors;
  success = elim e [ completed ↦ some true | interrupted ↦ some false | crashed ↦ some false ];
}

abbrev pub stopped : Status → State → Outcome
stopped s persisted = record {
  status = s;
  documents = persisted;
  batches = [];
  errors = [];
  success = none;
}

module _ (upload : ℕ → Document → Upload) (embed : ℕ → List String × List String → Embedding) where
  -- The upload loop from the i-th document on; the service may answer each call as it likes.
  unfoldable pub upload_all : State → String → ℕ → List Document → Progress → Progress
  upload_all persisted now i [] p = p
  upload_all persisted now i (doc ∷ docs) p =
      upload_all persisted now (i + 1) docs (finish_upload persisted now doc (upload i doc) p)

  -- The embedding loop: it ends at the first call that does not complete.
  unfoldable pub embed_all : ℕ → List (List String × List String) → Embedding
  embed_all i [] = completed
  embed_all i (b ∷ bs) =
      let rest = embed_all (i + 1) bs in
      elim (embed i b) [ completed ↦ rest | interrupted ↦ interrupted | crashed ↦ crashed ]

  -- The uploads and the removals of a plan.
  unfoldable pub apply_plan : String → List Document → State → Plan → Progress
  apply_plan now collected persisted plan = remove_all persisted plan.removes (
      upload_all persisted now 1 (plan.adds ++ plan.updates) (record {
        new_state = stamp_fetched now collected persisted;
        adds_docpaths = [];
        removes_docpaths = [];
        errors = plan.errors;
      }))

  abbrev pub apply_phase : Options → String → List Document → State → Plan → Outcome
  apply_phase o now collected persisted plan =
      let p = apply_plan now collected persisted plan in
      let bs = batches_of o p in conclude p bs (embed_all 1 bs)

  -- From the plan on: the halts, the modes that stop, and the apply phase.
  abbrev pub carry_out : Options → String → List Document → State → Plan → Option Status → Outcome
  carry_out o now collected persisted plan (some s) = stopped s persisted
  carry_out o now collected persisted plan none =
      if o.only_plan
      then stopped plan_only persisted
      else if o.dry
      then stopped dry_run persisted
      else apply_phase o now collected persisted plan

  module _ (sha256 : Codes → String) where
    -- `collected` is `none` when the handler raises.
    unfoldable pub refresh_one :
        Options → String → Option (List Document) → List String → State → Outcome
    refresh_one o now none discovered persisted = stopped error persisted
    refresh_one o now (some collected) discovered persisted =
        let plan =
          compute sha256 collected persisted (not o.additive_only) (known_urls discovered) in
        carry_out o now collected persisted plan (halted o plan)

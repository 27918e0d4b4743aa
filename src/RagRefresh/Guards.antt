-- ===== src/RagRefresh/Guards.antt =====
-- What a refresh of scripts/rag/refresh.py may delete: the approved set, or the share that
-- `safety_check` of scripts/rag/lib/plan.py allows.
use mathlib.Core.Path.{subst}
use local_gpu_cluster.Prelude.{
  ℕ, ◌*◌, ◌≤◌, ◌<◌, ◌≡◌, ◌≢◌, refl, ap, ◌∙◌, ◌⊎◌, inl, inr, String, Bool, true, false, not, Option,
  none, some, List, [], ◌∷◌, str_eq, eq_iff, Bool-cases, arith, length, if◌then◌else◌,
}
use local_gpu_cluster.Prelude.Text.{Codes}
use local_gpu_cluster.RagRefresh.Documents.{Document, Entry, State, lookup, mem, keys}
use local_gpu_cluster.RagRefresh.Plan.{
  Plan, Ratio, missing, stamp, diff, compute, empty_plan, safety_check, file_doc, present_urls,
  same_hash,
}
use local_gpu_cluster.RagRefresh.Apply.{
  Upload, Embedding, Options, Status, refresh_one, carry_out, stopped, plan_only, dry_run,
  apply_phase, halted, halt_reason, drifted, known_urls,
}
use local_gpu_cluster.RagRefresh.Losses.{apply_plan-Has}

length-missing : (present us : List String) → length (missing present us) ≤ length us
unfolding missing
length-missing present [] = omega arith
length-missing present (u ∷ us) = ground (arith, length-missing present us)

length-keys : (s : State) → length (keys s) ≡ length s
length-keys [] = refl
length-keys ((k, e) ∷ s) = omega (arith, length-keys s)

file_doc-removes :
    (o : Option Entry) (d : Document) (p : Plan)
    → ((file_doc o d p).removes ≡ p.removes) × ((file_doc o d p).existing_count ≡ p.existing_count)
file_doc-removes none d p = (refl, refl)
file_doc-removes (some e) d p = elim (Bool-cases (same_hash e.hash d.hash)) [
  | inl y ↦ rw y (refl, refl)
  | inr n ↦ rw n (refl, refl)
]

drifted-mem :
    (u : String) (approved removes : List String)
    → drifted approved removes ≡ false
    → mem u removes ≡ true
    → mem u approved ≡ true
unfolding mem
drifted-mem u approved [] d m = ground arith
drifted-mem u approved (v ∷ removes) d m = elim (Bool-cases (str_eq v u)) [
  | inl y ↦ subst (λ k. mem k approved ≡ true) ((eq_iff v u).0 y) (ground arith)
  | inr n ↦ drifted-mem u approved removes (ground arith) (rw n at m)
]

module _ (sha256 : Codes → String) where
  diff-removes :
      (s : State) (docs : List Document) (p : Plan)
      → ((diff sha256 s docs p).removes ≡ p.removes)
        × ((diff sha256 s docs p).existing_count ≡ p.existing_count)
  unfolding diff
  diff-removes s [] p = (refl, refl)
  diff-removes s (d ∷ docs) p =
      let (r, c) = diff-removes s docs (file_doc (lookup d.url s) (stamp sha256 d) p) in
      let (r', c') = file_doc-removes (lookup d.url s) (stamp sha256 d) p in (r ∙ r', c ∙ c')

  compute-counts :
      (docs : List Document) (s : State) (remove_missing : Bool) (known : Option (List String))
      → let plan = compute sha256 docs s remove_missing known in
        (plan.existing_count ≡ length s) × (length plan.removes ≤ length s)
  unfolding compute
  compute-counts docs s false known =
      let (r, c) = diff-removes s docs (empty_plan s) in (c, omega (arith, ap length r))
  compute-counts docs s true known = (
    (diff-removes s docs (empty_plan s)).1,
    omega (arith, length-missing (present_urls known docs) (keys s), length-keys s),
  )

-- What may be deleted, with an approval or by the threshold.
abbrev pub MayRemove : Option (List String) → Ratio → ℕ → List String → Type 0
MayRemove (some approved) r count removes =
    (u : String) → mem u removes ≡ true → mem u approved ≡ true
MayRemove none r count removes =
    (length removes < 5) ⊎ (length removes * r.scale ≤ r.percent * count)

safety_check-bound :
    (plan : Plan) (r : Ratio) (count : ℕ)
    → plan.existing_count ≡ count
    → length plan.removes ≤ count
    → safety_check plan r ≡ true
    → (length plan.removes < 5) ⊎ (length plan.removes * r.scale ≤ r.percent * count)
unfolding safety_check
safety_check-bound plan r count c le h =
    subst (λ n. (length plan.removes < 5) ⊎ (length plan.removes * r.scale ≤ r.percent * n)) c
      (ground arith)

halt_reason-MayRemove :
    (approved : Option (List String)) (r : Ratio) (plan : Plan) (count : ℕ)
    → plan.existing_count ≡ count
    → length plan.removes ≤ count
    → halt_reason approved r plan ≡ none
    → MayRemove approved r count plan.removes
halt_reason-MayRemove (some a) r plan count c le h =
    λ u m. drifted-mem u a plan.removes (ground arith) m
halt_reason-MayRemove none r plan count c le h = safety_check-bound plan r count c le (ground arith)

module _ (sha256 : Codes → String) (upload : ℕ → Document → Upload)
    (embed : ℕ → List String × List String → Embedding) where
  -- A refresh that takes a url out of the state has not halted, and its plan removes the url.
  carry_out-loses :
      (o : Options) (now : String) (docs : List Document) (s : State) (plan : Plan)
      (stop : Option Status) (u : String)
      → lookup u s ≢ none
      → lookup u (carry_out upload embed o now docs s plan stop).documents ≡ none
      → (stop ≡ none) × (mem u plan.removes ≡ true)
  carry_out-loses o now docs s plan (some x) u had lost = absurd (had lost)
  carry_out-loses o now docs s plan none u had lost = (
    refl,
    elim (Bool-cases (mem u plan.removes)) [
      | inl y ↦ y
      | inr n ↦ absurd (went_on n o.only_plan o.dry lost)
    ],
  )
    where
      went_on :
          mem u plan.removes ≡ false
          → (only_plan dry : Bool)
          → ¬ (
              lookup u
                (if only_plan
                  then stopped plan_only s
                  else if dry
                  then stopped dry_run s
                  else apply_phase upload embed o now docs s plan).documents
              ≡ none)
      went_on n true dry e = had e
      went_on n false true e = had e
      went_on n false false e = apply_plan-Has upload embed u now docs s plan had n e

  -- Whatever the handler collected and however the uploads and the embedding went: when a refresh
  -- leaves documents.json without a url that was there, its plan removes that url, and what the
  -- plan removes was approved, every url of it, where there is an approval; without one it is
  -- fewer than 5 urls, or their share of the source's documents is at most the threshold.
  pub removes_guarded :
      (o : Options) (now : String) (docs : List Document) (discovered : List String) (s : State)
      (u : String)
      → lookup u s ≢ none
      → lookup u (refresh_one upload embed sha256 o now (some docs) discovered s).documents ≡ none
      → let removes =
          (compute sha256 docs s (not o.additive_only) (known_urls discovered)).removes in
        (mem u removes ≡ true) × MayRemove o.approved_removes o.max_delete_pct (length s) removes
  unfolding refresh_one halted
  removes_guarded o now docs discovered s u had lost =
      let plan : Plan = compute sha256 docs s (not o.additive_only) (known_urls discovered) in
      let (c, le) = compute-counts sha256 docs s (not o.additive_only) (known_urls discovered) in
      let (goes_on, m) =
        carry_out-loses o now docs s plan (halt_reason o.approved_removes o.max_delete_pct plan) u
          had lost in
      (m, halt_reason-MayRemove o.approved_removes o.max_delete_pct plan (length s) c le goes_on)

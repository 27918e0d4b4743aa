-- ===== src/RagRefresh/Diff.antt =====
-- What `compute` of scripts/rag/lib/plan.py plans: each collected document is queued or unchanged, and the
-- hashes of the queued ones are those of their contents.
use mathlib.Core.Option.{some-injective}
use mathlib.Core.Path.{subst}
use local_gpu_cluster.Prelude.{
  ◌≡◌, refl, sym, ap, ◌∙◌, ◌⊎◌, inl, inr, String, true, false, Option, none, some, List, [], ◌∷◌,
  ◌++◌, str_eq, eq_iff, All, Bool-cases, arith,
}
use local_gpu_cluster.Prelude.Text.{Codes}
use local_gpu_cluster.RagRefresh.Documents.{Document, Entry, State, lookup, mem, keys}
use local_gpu_cluster.RagRefresh.Plan.{Plan, same_hash, stamp, file_doc, diff, urls, missing}

-- The hash that the state has for a url: none where the url is not in the state.
abbrev pub hash_in : Option Entry → Option (Option String)
hash_in none = none
hash_in (some e) = some e.hash

abbrev pub hash_of : String → State → Option (Option String)
hash_of u s = hash_in (lookup u s)

pub same_hash-eq : (a b : Option String) → same_hash a b ≡ true → a ≡ b
same_hash-eq none none h = refl
same_hash-eq none (some b) h = ground arith
same_hash-eq (some a) none h = ground arith
same_hash-eq (some a) (some b) h = ap some ((eq_iff a b).0 h)

pub same_hash_refl : (a : Option String) → same_hash a a ≡ true
same_hash_refl none = refl
same_hash_refl (some a) = (eq_iff a a).1 refl

pub All-snoc {ℓ κ} :
    {A : Type ℓ} (P : A → Type κ) (xs : List A) (x : A) → All P xs → P x → All P (xs ++ x ∷ [])
All-snoc P [] x h p = (p, tt)
All-snoc P (y ∷ ys) x (q, h) p = (q, All-snoc P ys x h p)

pub mem-snoc :
    (u : String) (xs : List Document) (d : Document)
    → mem u (urls xs) ≡ true
    → mem u (urls (xs ++ d ∷ [])) ≡ true
unfolding mem
mem-snoc u [] d h = ground arith
mem-snoc u (x ∷ xs) d h = ground (arith, mem-snoc u xs d)

pub mem-snoc_last : (xs : List Document) (d : Document) → mem d.url (urls (xs ++ d ∷ [])) ≡ true
unfolding mem
mem-snoc_last [] d = rw ((eq_iff d.url d.url).1 refl) refl
mem-snoc_last (x ∷ xs) d = ground (arith, mem-snoc_last xs d)

-- A url is queued for an upload.
abbrev pub IsQueued : Plan → String → Type 0
IsQueued p u = (mem u (urls p.adds) ≡ true) ⊎ (mem u (urls p.updates) ≡ true)

-- The loop's body loses nothing that is queued.
file_doc-keeps :
    (u : String) (o : Option Entry) (d : Document) (p : Plan)
    → IsQueued p u
    → IsQueued (file_doc o d p) u
file_doc-keeps u none d p (inl h) = inl (mem-snoc u p.adds d h)
file_doc-keeps u none d p (inr h) = inr h
file_doc-keeps u (some e) d p q = elim (Bool-cases (same_hash e.hash d.hash)) [
  | inl y ↦ rw y q
  | inr n ↦ rw n (elim q [ inl h ↦ inl h | inr h ↦ inr (mem-snoc u p.updates d h) ])
]

-- It queues the document, or the state has its hash.
file_doc-covers :
    (o : Option Entry) (d : Document) (p : Plan)
    → IsQueued (file_doc o d p) d.url ⊎ (hash_in o ≡ some d.hash)
file_doc-covers none d p = inl (inl (mem-snoc_last p.adds d))
file_doc-covers (some e) d p = elim (Bool-cases (same_hash e.hash d.hash)) [
  | inl y ↦ inr (ap some (same_hash-eq e.hash d.hash y))
  | inr n ↦ inl (rw n (inr (mem-snoc_last p.updates d)))
]

-- A predicate on what is queued, and that the loop's body leaves the rest of the plan alone.
abbrev pub Queued : (Document → Type 0) → Plan → Type 0
Queued P p = All P p.adds × All P p.updates

file_doc-Queued :
    (P : Document → Type 0) (o : Option Entry) (d : Document) (p : Plan)
    → P d
    → Queued P p
    → Queued P (file_doc o d p)
file_doc-Queued P none d p h (a, b) = (All-snoc P p.adds d a h, b)
file_doc-Queued P (some e) d p h (a, b) = elim (Bool-cases (same_hash e.hash d.hash)) [
  | inl y ↦ rw y (a, b)
  | inr n ↦ rw n (a, All-snoc P p.updates d b h)
]

file_doc-rest :
    (o : Option Entry) (d : Document) (p : Plan)
    → ((file_doc o d p).errors ≡ p.errors) × ((file_doc o d p).removes ≡ p.removes)
file_doc-rest none d p = (refl, refl)
file_doc-rest (some e) d p = elim (Bool-cases (same_hash e.hash d.hash)) [
  | inl y ↦ rw y (refl, refl)
  | inr n ↦ rw n (refl, refl)
]

file_doc_same :
    (o : Option Entry) (d : Document) (p : Plan) → hash_in o ≡ some d.hash → file_doc o d p ≡ p
file_doc_same none d p h = ground arith
file_doc_same (some e) d p h =
    let same : same_hash e.hash d.hash ≡ true =
      subst (λ x. same_hash e.hash x ≡ true) (some-injective _ _ h) (same_hash_refl e.hash) in
    rw same refl

module _ (sha256 : Codes → String) (persisted : State) where
  pub diff-keeps :
      (u : String) (docs : List Document) (p : Plan)
      → IsQueued p u
      → IsQueued (diff sha256 persisted docs p) u
  unfolding diff
  diff-keeps u [] p q = q
  diff-keeps u (d ∷ docs) p q =
      diff-keeps u docs _ (file_doc-keeps u (lookup d.url persisted) (stamp sha256 d) p q)

  pub diff-covers :
      (docs : List Document) (p : Plan)
      → All
          (λ d.
            IsQueued (diff sha256 persisted docs p) d.url
            ⊎ (hash_of d.url persisted ≡ some (stamp sha256 d).hash))
          docs
  unfolding diff
  diff-covers [] p = tt
  diff-covers (d ∷ docs) p = (
    elim (file_doc-covers (lookup d.url persisted) (stamp sha256 d) p) [
      | inl q ↦ inl (diff-keeps d.url docs _ (unfold stamp in q))
      | inr e ↦ inr e
    ],
    diff-covers docs (file_doc (lookup d.url persisted) (stamp sha256 d) p),
  )

  pub diff-Queued :
      (P : Document → Type 0) (docs : List Document) (p : Plan)
      → All (λ d. P (stamp sha256 d)) docs
      → Queued P p
      → Queued P (diff sha256 persisted docs p)
  unfolding diff
  diff-Queued P [] p h q = q
  diff-Queued P (d ∷ docs) p (h, hs) q =
      diff-Queued P docs _ hs (file_doc-Queued P (lookup d.url persisted) (stamp sha256 d) p h q)

  pub diff-rest :
      (docs : List Document) (p : Plan)
      → ((diff sha256 persisted docs p).errors ≡ p.errors)
        × ((diff sha256 persisted docs p).removes ≡ p.removes)
  unfolding diff
  diff-rest [] p = (refl, refl)
  diff-rest (d ∷ docs) p =
      let q : Plan = file_doc (lookup d.url persisted) (stamp sha256 d) p in
      let (e, r) = diff-rest docs q in
      let (e', r') = file_doc-rest (lookup d.url persisted) (stamp sha256 d) p in (e ∙ e', r ∙ r')

  -- With every hash in the state, the loop queues nothing.
  pub diff-unchanged :
      (docs : List Document) (p : Plan)
      → All (λ d. hash_of d.url persisted ≡ some (stamp sha256 d).hash) docs
      → diff sha256 persisted docs p ≡ p
  unfolding diff
  diff-unchanged [] p h = refl
  diff-unchanged (d ∷ docs) p (h, hs) =
      diff-unchanged docs _ hs ∙ file_doc_same (lookup d.url persisted) (stamp sha256 d) p h

pub missing-mem :
    (u : String) (present us : List String)
    → mem u (missing present us) ≡ true
    → mem u present ≡ false
unfolding mem missing
missing-mem u present [] h = ground arith
missing-mem u present (v ∷ us) h = elim (Bool-cases (mem v present)) [
  | inl y ↦ missing-mem u present us (rw y at h)
  | inr n ↦ elim (Bool-cases (str_eq v u)) [
    | inl e ↦ subst (λ x. mem x present ≡ false) ((eq_iff v u).0 e) n
    | inr d ↦ missing-mem u present us (rw (n, d) at h)
  ]
]

pub missing_complete :
    (u : String) (present us : List String)
    → mem u us ≡ true
    → mem u present ≡ false
    → mem u (missing present us) ≡ true
unfolding mem missing
missing_complete u present [] h n = ground arith
missing_complete u present (v ∷ us) h n = elim (Bool-cases (str_eq v u)) [
  | inl e ↦ rw (subst (λ x. mem x present ≡ false) (sym ((eq_iff v u).0 e)) n, e) refl
  | inr d ↦ elim (Bool-cases (mem v present)) [
    | inl y ↦ rw y (missing_complete u present us (rw d at h) n)
    | inr o ↦ rw (o, d) (missing_complete u present us (rw d at h) n)
  ]
]

mem_here : (v : String) (us : List String) → mem v (v ∷ us) ≡ true
unfolding mem
mem_here v us = rw ((eq_iff v v).1 refl) refl

mem_there : (u v : String) (us : List String) → mem u us ≡ true → mem u (v ∷ us) ≡ true
unfolding mem
mem_there u v us h = ground arith

pub missing-none :
    (present us : List String)
    → ((u : String) → mem u us ≡ true → mem u present ≡ true)
    → missing present us ≡ []
unfolding missing
missing-none present [] h = refl
missing-none present (v ∷ us) h =
    rw (h v (mem_here v us)) (missing-none present us (λ u m. h u (mem_there u v us m)))

pub mem-keys : (u : String) (s : State) → mem u (keys s) ≡ false → lookup u s ≡ none
unfolding mem lookup
mem-keys u [] h = refl
mem-keys u ((k, e) ∷ s) h = ground (arith, mem-keys u s)

pub keys-mem :
    (u : String) (s : State) → mem u (keys s) ≡ true → (e : Entry) × (lookup u s ≡ some e)
unfolding mem lookup
keys-mem u [] h = ground arith
keys-mem u ((k, e) ∷ s) h = elim (Bool-cases (str_eq k u)) [
  | inl y ↦ (e, rw y refl)
  | inr n ↦ rw n (keys-mem u s (rw n at h))
]

-- ===== src/RagRefresh/Uploads.antt =====
-- What the loops of the apply phase of scripts/rag/refresh.py leave in the state: the stamping of
-- `last_fetched`, the uploads and the removals.
use mathlib.Core.Path.{subst}
use local_gpu_cluster.Prelude.{
  ℕ, ◌+◌, ◌≡◌, refl, sym, ap, ◌∙◌, ◌⊎◌, inl, inr, String, true, false, Option, none, some, List, [],
  ◌∷◌, ◌++◌, str_eq, eq_iff, All, Bool-cases, arith,
}
use local_gpu_cluster.RagRefresh.Documents.{
  Document, Entry, State, lookup, assign, pop, mem, lookup-assign, lookup-assign_other, lookup-pop,
  lookup-pop_other,
}
use local_gpu_cluster.RagRefresh.Plan.{urls}
use local_gpu_cluster.RagRefresh.Diff.{hash_in, hash_of}
use local_gpu_cluster.RagRefresh.Apply.{
  Upload, failed, uploaded, Progress, touch, stamp_fetched, entry_of, finish_upload, remove_all,
  upload_all, Embedding,
}

hash-assign :
    (u v : String) (e : Entry) (s : State)
    → ((str_eq v u ≡ true) × (hash_of u (assign v e s) ≡ some e.hash))
      ⊎ ((str_eq v u ≡ false) × (hash_of u (assign v e s) ≡ hash_of u s))
hash-assign u v e s = elim (Bool-cases (str_eq v u)) [
  | inl y ↦ inl (
    y,
    ap (λ k. hash_in (lookup k (assign v e s))) (sym ((eq_iff v u).0 y))
        ∙ ap hash_in (lookup-assign v e s),
  )
  | inr n ↦ inr (n, ap hash_in (lookup-assign_other u v e s n))
]

hash-touch :
    (u v now : String) (o : Option Entry) (s : State)
    → lookup v s ≡ o
    → hash_of u (touch now o v s) ≡ hash_of u s
hash-touch u v now none s l = refl
hash-touch u v now (some e) s l = elim (hash-assign u v (record e { last_fetched = some now }) s) [
  | inl (y, h) ↦ h ∙ sym (ap hash_in (ap (λ k. lookup k s) (sym ((eq_iff v u).0 y)) ∙ l))
  | inr (n, h) ↦ h
]

-- The stamping loop changes no hash.
pub hash-stamp_fetched :
    (u now : String) (docs : List Document) (s : State)
    → hash_of u (stamp_fetched now docs s) ≡ hash_of u s
unfolding stamp_fetched
hash-stamp_fetched u now [] s = refl
hash-stamp_fetched u now (d ∷ docs) s =
    hash-stamp_fetched u now docs _ ∙ hash-touch u d.url now (lookup d.url s) s refl

mem-append : (u : String) (xs ys : List String) → mem u xs ≡ true → mem u (xs ++ ys) ≡ true
unfolding mem
mem-append u [] ys h = ground arith
mem-append u (x ∷ xs) ys h = ground (arith, mem-append u xs ys)

mem-append_last :
    (u v : String) (xs : List String) → str_eq v u ≡ true → mem u (xs ++ v ∷ []) ≡ true
unfolding mem
mem-append_last u v [] y = ground arith
mem-append_last u v (x ∷ xs) y = ground (arith, mem-append_last u v xs)

finish_upload-other :
    (persisted : State) (now u : String) (d : Document) (r : Upload) (p : Progress)
    → str_eq d.url u ≡ false
    → hash_of u (finish_upload persisted now d r p).new_state ≡ hash_of u p.new_state
finish_upload-other persisted now u d failed p n = refl
finish_upload-other persisted now u d (uploaded path) p n =
    ap hash_in (lookup-assign_other u d.url _ p.new_state n)

-- The removals: what they take away, what they leave, and that they report nothing.
pub remove_all-gone :
    (persisted : State) (u : String) (us : List String) (p : Progress)
    → (lookup u p.new_state ≡ none) ⊎ (mem u us ≡ true)
    → lookup u (remove_all persisted us p).new_state ≡ none
unfolding remove_all mem
remove_all-gone persisted u [] p h = ground arith
remove_all-gone persisted u (v ∷ us) p h =
    remove_all-gone persisted u us _ (pop_or_later (Bool-cases (str_eq v u)))
  where
    pop_or_later :
        (str_eq v u ≡ true) ⊎ (str_eq v u ≡ false)
        → (lookup u (pop v p.new_state) ≡ none) ⊎ (mem u us ≡ true)
    pop_or_later (inl y) = inl (
        subst (λ k. lookup u (pop k p.new_state) ≡ none) (sym ((eq_iff v u).0 y))
          (lookup-pop u p.new_state))
    pop_or_later (inr n) = elim h [
      | inl e ↦ inl (lookup-pop_other u v p.new_state n ∙ e)
      | inr m ↦ inr (rw n at m)
    ]

pub remove_all-other :
    (persisted : State) (u : String) (us : List String) (p : Progress)
    → mem u us ≡ false
    → lookup u (remove_all persisted us p).new_state ≡ lookup u p.new_state
unfolding remove_all mem
remove_all-other persisted u [] p m = refl
remove_all-other persisted u (v ∷ us) p m = elim (Bool-cases (str_eq v u)) [
  | inl y ↦ ground arith
  | inr n ↦ remove_all-other persisted u us _ (rw n at m) ∙ lookup-pop_other u v p.new_state n
]

pub remove_all-errors :
    (persisted : State) (us : List String) (p : Progress)
    → (remove_all persisted us p).errors ≡ p.errors
unfolding remove_all
remove_all-errors persisted [] p = refl
remove_all-errors persisted (v ∷ us) p = remove_all-errors persisted us _

module _ (upload : ℕ → Document → Upload) (embed : ℕ → List String × List String → Embedding) where
  module _ (persisted : State) (now u : String) (want : Option (Option String)) where
    -- The state has the wanted hash of the url, or an upload of it failed.
    abbrev pub IsSettled : Progress → Type 0
    IsSettled p = (hash_of u p.new_state ≡ want) ⊎ (mem u p.errors ≡ true)

    abbrev pub IsWanted : Document → Type 0
    IsWanted d = str_eq d.url u ≡ true → some d.hash ≡ want

    finish_upload-keeps :
        (d : Document) (r : Upload) (p : Progress)
        → IsWanted d
        → IsSettled p
        → IsSettled (finish_upload persisted now d r p)
    finish_upload-keeps d failed p w (inl h) = inl h
    finish_upload-keeps d failed p w (inr h) = inr (mem-append u p.errors (d.url ∷ []) h)
    finish_upload-keeps d (uploaded path) p w (inr h) = inr h
    finish_upload-keeps d (uploaded path) p w (inl h) =
        elim (hash-assign u d.url (entry_of now d path) p.new_state) [
          | inl (y, e) ↦ inl (e ∙ w y)
          | inr (n, e) ↦ inl (e ∙ h)
        ]

    finish_upload-settles :
        (d : Document) (r : Upload) (p : Progress)
        → IsWanted d
        → str_eq d.url u ≡ true
        → IsSettled (finish_upload persisted now d r p)
    finish_upload-settles d failed p w y = inr (mem-append_last u d.url p.errors y)
    finish_upload-settles d (uploaded path) p w y =
        elim (hash-assign u d.url (entry_of now d path) p.new_state) [
          | inl (_, e) ↦ inl (e ∙ w y)
          | inr (n, e) ↦ ground arith
        ]

    pub upload_all-keeps :
        (i : ℕ) (docs : List Document) (p : Progress)
        → All IsWanted docs
        → IsSettled p
        → IsSettled (upload_all upload embed persisted now i docs p)
    unfolding upload_all
    upload_all-keeps i [] p ws s = s
    upload_all-keeps i (d ∷ docs) p (w, ws) s =
        upload_all-keeps (i + 1) docs _ ws (finish_upload-keeps d (upload i d) p w s)

    pub upload_all-settles :
        (i : ℕ) (docs : List Document) (p : Progress)
        → All IsWanted docs
        → mem u (urls docs) ≡ true
        → IsSettled (upload_all upload embed persisted now i docs p)
    unfolding upload_all mem
    upload_all-settles i [] p ws m = ground arith
    upload_all-settles i (d ∷ docs) p (w, ws) m = elim (Bool-cases (str_eq d.url u)) [
      | inl y ↦ upload_all-keeps (i + 1) docs _ ws (finish_upload-settles d (upload i d) p w y)
      | inr n ↦ upload_all-settles (i + 1) docs _ ws (rw n at m)
    ]

  -- A url that is not in the queue keeps its hash.
  pub upload_all-other :
      (persisted : State) (now u : String) (i : ℕ) (docs : List Document) (p : Progress)
      → mem u (urls docs) ≡ false
      → hash_of u (upload_all upload embed persisted now i docs p).new_state ≡ hash_of u p.new_state
  unfolding upload_all mem
  upload_all-other persisted now u i [] p m = refl
  upload_all-other persisted now u i (d ∷ docs) p m = elim (Bool-cases (str_eq d.url u)) [
    | inl y ↦ ground arith
    | inr n ↦
        upload_all-other persisted now u (i + 1) docs _ (rw n at m)
        ∙ finish_upload-other persisted now u d (upload i d) p n
  ]

-- ===== src/RagRefresh/Converges.antt =====
-- A refresh of scripts/rag/refresh.py brings the state to what the handler collected, and a second one with
-- the same documents finds nothing to do.
use mathlib.Core.Bool.{true≢false}
use mathlib.Core.Path.{subst}
use local_gpu_cluster.Prelude.{
  ℕ, ◌≡◌, refl, sym, ap, ◌∙◌, ◌⊎◌, inl, inr, String, true, false, Option, none, some, List, [], ◌∷◌,
  ◌++◌, str_eq, eq_iff, if◌then◌else◌, All, Bool-cases, arith,
}
use local_gpu_cluster.Prelude.Text.{Codes}
use local_gpu_cluster.RagRefresh.Documents.{Document, Entry, State, mem}
use local_gpu_cluster.RagRefresh.Plan.{Plan, urls, stamp, diff, empty_plan}
use local_gpu_cluster.RagRefresh.Diff.{hash_in, hash_of, IsQueued, Queued, diff-covers, diff-Queued}
use local_gpu_cluster.RagRefresh.Apply.{Upload, Embedding, Progress, upload_all}
use local_gpu_cluster.RagRefresh.Uploads.{
  IsSettled, IsWanted, upload_all-keeps, upload_all-settles, upload_all-other,
}

-- No string stands twice.
abbrev pub Unique : List String → Type 0
Unique [] = Unit
Unique (u ∷ us) = (mem u us ≡ false) × Unique us

-- A document whose url is a member.
find_doc :
    (P : Document → Type 0) (u : String) (docs : List Document)
    → All P docs
    → mem u (urls docs) ≡ true
    → (d : Document) × (str_eq d.url u ≡ true) × P d
unfolding mem
find_doc P u [] h m = ground arith
find_doc P u (d ∷ docs) (h, hs) m = elim (Bool-cases (str_eq d.url u)) [
  | inl y ↦ (d, y, h)
  | inr n ↦ find_doc P u docs hs (rw n at m)
]

All-absent :
    (u : String) (docs : List Document)
    → mem u (urls docs) ≡ false
    → All (λ d. str_eq d.url u ≡ false) docs
unfolding mem
All-absent u [] m = tt
All-absent u (d ∷ docs) m = elim (Bool-cases (str_eq d.url u)) [
  | inl y ↦ ground arith
  | inr n ↦ (n, All-absent u docs (rw n at m))
]

absent-append :
    (u : String) (xs ys : List Document)
    → All (λ d. str_eq d.url u ≡ false) xs
    → All (λ d. str_eq d.url u ≡ false) ys
    → mem u (urls (xs ++ ys)) ≡ false
unfolding mem
absent-append u [] [] h k = refl
absent-append u [] (y ∷ ys) h (k, ks) = rw k (absent-append u [] ys tt ks)
absent-append u (x ∷ xs) ys (h, hs) k = rw h (absent-append u xs ys hs k)

All-append :
    (P : Document → Type 0) (xs ys : List Document) → All P xs → All P ys → All P (xs ++ ys)
All-append P [] ys h k = k
All-append P (x ∷ xs) ys (h, hs) k = (h, All-append P xs ys hs k)

mem-append_left :
    (u : String) (xs ys : List Document) → mem u (urls xs) ≡ true → mem u (urls (xs ++ ys)) ≡ true
unfolding mem
mem-append_left u [] ys h = ground arith
mem-append_left u (x ∷ xs) ys h = ground (arith, mem-append_left u xs ys)

mem-append_right :
    (u : String) (xs ys : List Document) → mem u (urls ys) ≡ true → mem u (urls (xs ++ ys)) ≡ true
unfolding mem
mem-append_right u [] ys h = h
mem-append_right u (x ∷ xs) ys h = ground (arith, mem-append_right u xs ys)

pub All-map :
    {P Q : Document → Type 0} (f : (d : Document) → P d → Q d) (docs : List Document)
    → All P docs
    → All Q docs
All-map f [] h = tt
All-map f (d ∷ docs) (h, hs) = (f d h, All-map f docs hs)

All-pair :
    (P Q : Document → Type 0) (docs : List Document)
    → All P docs
    → All Q docs
    → All (λ d. P d × Q d) docs
All-pair P Q [] h k = tt
All-pair P Q (d ∷ docs) (h, hs) (k, ks) = ((h, k), All-pair P Q docs hs ks)

pub hash-none : (o : Option Entry) → hash_in o ≡ none → o ≡ none
hash-none none h = refl
hash-none (some e) h = ground arith

module _ (sha256 : Codes → String) where
  -- The hash of what was collected under a url, if something was.
  unfoldable pub wanted : List Document → String → Option (Option String)
  wanted [] u = none
  wanted (d ∷ docs) u = if str_eq d.url u then some (stamp sha256 d).hash else wanted docs u

  pub wanted-none :
      (docs : List Document) (u : String) → mem u (urls docs) ≡ false → wanted docs u ≡ none
  unfolding wanted mem
  wanted-none [] u m = refl
  wanted-none (d ∷ docs) u m = ground (arith, wanted-none docs u)

  wanted-skip :
      (d : Document) (docs : List Document) (u : String)
      → str_eq d.url u ≡ false
      → wanted (d ∷ docs) u ≡ wanted docs u
  unfolding wanted
  wanted-skip d docs u o = rw o refl

  -- With different urls, what is wanted under a url is the hash of each document that has it.
  pub wanted-Unique :
      (docs : List Document) (u : String)
      → Unique (urls docs)
      → All (λ d. str_eq d.url u ≡ true → some (stamp sha256 d).hash ≡ wanted docs u) docs
  unfolding wanted
  wanted-Unique [] u q = tt
  wanted-Unique (d ∷ docs) u (n, q) = elim (Bool-cases (str_eq d.url u)) [
    | inl y ↦ (
      (λ _. rw y refl),
      All-map (λ x off on. absurd (true≢false (sym on ∙ off))) docs
          (All-absent u docs (subst (λ k. mem k (urls docs) ≡ false) ((eq_iff d.url u).0 y) n)),
    )
    | inr o ↦ (
      (λ y. absurd (true≢false (sym y ∙ o))),
      All-map (λ x f y. f y ∙ sym (wanted-skip d docs u o)) docs (wanted-Unique docs u q),
    )
  ]

  module _ (upload : ℕ → Document → Upload)
      (embed : ℕ → List String × List String → Embedding) where
    -- What the plan queues is what is wanted.
    pub queue-IsWanted :
        (now u : String) (docs : List Document) (persisted : State)
        → Unique (urls docs)
        → Queued
            (IsWanted upload embed persisted now u (wanted docs u))
            (diff sha256 persisted docs (empty_plan persisted))
    unfolding stamp
    queue-IsWanted now u docs persisted q =
        diff-Queued sha256 persisted _ docs (empty_plan persisted) (wanted-Unique docs u q) (tt, tt)

    -- After the uploads of a collected url, it is settled.
    pub uploads-IsSettled :
        (now u : String) (docs : List Document) (persisted : State)
        → Unique (urls docs)
        → mem u (urls docs) ≡ true
        → (p : Progress) → hash_of u p.new_state ≡ hash_of u persisted
        → let plan = diff sha256 persisted docs (empty_plan persisted) in
          IsSettled upload embed persisted now u
            (wanted docs u)
            (upload_all upload embed persisted now 1 (plan.adds ++ plan.updates) p)
    uploads-IsSettled now u docs persisted q m p start =
        let plan : Plan = diff sha256 persisted docs (empty_plan persisted) in
        let (wa, wu) = queue-IsWanted now u docs persisted q in
        let ws =
          All-append (IsWanted upload embed persisted now u (wanted docs u)) plan.adds plan.updates
            wa wu in
        let (d, y, (w, c)) =
          find_doc
            (λ x.
              (str_eq x.url u ≡ true → some (stamp sha256 x).hash ≡ wanted docs u)
              × (IsQueued plan x.url ⊎ (hash_of x.url persisted ≡ some (stamp sha256 x).hash)))
            u docs
            (All-pair _ _ docs (wanted-Unique docs u q)
              (diff-covers sha256 persisted docs (empty_plan persisted)))
            m in
        elim c [
          | inl (inl h) ↦
              upload_all-settles upload embed persisted now u (wanted docs u) 1
                (plan.adds ++ plan.updates) p ws
                (mem-append_left u plan.adds plan.updates
                  (subst (λ k. mem k (urls plan.adds) ≡ true) ((eq_iff d.url u).0 y) h))
          | inl (inr h) ↦
              upload_all-settles upload embed persisted now u (wanted docs u) 1
                (plan.adds ++ plan.updates) p ws
                (mem-append_right u plan.adds plan.updates
                  (subst (λ k. mem k (urls plan.updates) ≡ true) ((eq_iff d.url u).0 y) h))
          | inr e ↦
              upload_all-keeps upload embed persisted now u (wanted docs u) 1
                (plan.adds ++ plan.updates) p ws
                (inl (start ∙ ap (λ k. hash_of k persisted) (sym ((eq_iff d.url u).0 y)) ∙ e ∙ w y))
        ]

    -- The uploads do not touch a url that was not collected.
    pub uploads-other :
        (now u : String) (docs : List Document) (persisted : State)
        → mem u (urls docs) ≡ false
        → (p : Progress)
        → let plan = diff sha256 persisted docs (empty_plan persisted) in
          hash_of u
            (upload_all upload embed persisted now 1 (plan.adds ++ plan.updates) p).new_state
          ≡ hash_of u p.new_state
    unfolding stamp
    uploads-other now u docs persisted m p =
        let plan : Plan = diff sha256 persisted docs (empty_plan persisted) in
        let (a, b) =
          diff-Queued sha256 persisted (λ d. str_eq d.url u ≡ false) docs (empty_plan persisted)
            (All-absent u docs m) (tt, tt) in
        upload_all-other upload embed persisted now u 1 (plan.adds ++ plan.updates) p
          (absent-append u plan.adds plan.updates a b)

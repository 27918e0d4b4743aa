-- ===== src/Runner/Reached.antt =====
-- What `relabel` of scripts/files/agent_runner_dispatch.py has done when it returns.
use local_gpu_cluster.Prelude.{
  ◌≡◌, ℕ, zero, suc, String, Bool, true, false, not, ◌&&◌, List, [], ◌∷◌, ◌⊎◌, inl, inr,
  if◌then◌else◌, if_either, Bool-cases, arith,
}
use local_gpu_cluster.Runner.Names.{has, keep, has-keep}
use local_gpu_cluster.Runner.Relabel.{Edited, Relabelled, is_empty, is_last, tries, relabel}

-- An edit, whole or in part, only removes what it is to remove and only adds what it is to add.
pub record IsPartial (remove add before after : List String) : Type 0 where
  pub added : (l : String) → has l after ≡ true → (has l before ≡ true) ⊎ (has l add ≡ true)
  pub kept : (l : String) → has l before ≡ true → has l remove ≡ false → has l after ≡ true

-- All is removed and added.
pub record IsReached (remove add labels : List String) : Type 0 where
  pub gone : (l : String) → has l remove ≡ true → has l labels ≡ false
  pub there : (l : String) → has l add ≡ true → has l labels ≡ true

-- What is left to do of the edit that was asked for.
pub record IsLeft (remove add remove' add' labels : List String) : Type 0 where
  pub removes : (l : String) → has l remove' ≡ true → has l remove ≡ true
  pub adds : (l : String) → has l add' ≡ true → has l add ≡ true
  pub gone : (l : String) → has l remove ≡ true → (has l remove' ≡ true) ⊎ (has l labels ≡ false)
  pub there : (l : String) → has l add ≡ true → (has l add' ≡ true) ⊎ (has l labels ≡ true)

-- No label is to be removed and added.
abbrev pub AreDisjoint : List String → List String → Type 0
AreDisjoint remove add = (l : String) → has l add ≡ true → has l remove ≡ false

partial-IsLeft :
    (remove add remove' add' labels after : List String)
    → AreDisjoint remove add
    → IsLeft remove add remove' add' labels
    → IsPartial remove' add' labels after
    → IsLeft remove add remove' add' after
partial-IsLeft remove add remove' add' labels after d k p = record {
  removes = k.removes;
  adds = k.adds;
  gone = λ l h. elim (k.gone l h) [
    | inl y ↦ inl y
    | inr n ↦ elim (Bool-cases (has l after)) [
      | inl a ↦ elim (p.added l a) [
        | inl b ↦ absurd (ground arith)
        | inr w ↦ let apart = d l (k.adds l w) in absurd (ground arith)
      ]
      | inr f ↦ inr f
    ]
  ];
  there = λ l h. elim (k.there l h) [
    | inl y ↦ inl y
    | inr y ↦ elim (Bool-cases (has l remove')) [
      | inl r ↦ let apart = d l h in let meant = k.removes l r in absurd (ground arith)
      | inr n ↦ inr (p.kept l y n)
    ]
  ];
}

left-AreDisjoint :
    (remove add remove' add' labels : List String)
    → AreDisjoint remove add
    → IsLeft remove add remove' add' labels
    → AreDisjoint remove' add'
left-AreDisjoint remove add remove' add' labels d k l h = elim (Bool-cases (has l remove')) [
  | inl r ↦ let meant = k.removes l r in let apart = d l (k.adds l h) in absurd (ground arith)
  | inr n ↦ n
]

narrowed-IsLeft :
    (remove add remove' add' labels : List String)
    → IsLeft remove add remove' add' labels
    → IsLeft remove add
        (keep (λ l. has l labels) remove')
        (keep (λ l. not (has l labels)) add')
        labels
narrowed-IsLeft remove add remove' add' labels k = record {
  removes = λ l h. k.removes l (ground (arith, has-keep l (λ m. has m labels) remove'));
  adds = λ l h. k.adds l (ground (arith, has-keep l (λ m. not (has m labels)) add'));
  gone = λ l h. elim (Bool-cases (has l labels)) [
    | inl a ↦ elim (k.gone l h) [
      | inl y ↦ inl (ground (arith, has-keep l (λ m. has m labels) remove'))
      | inr n ↦ absurd (ground arith)
    ]
    | inr f ↦ inr f
  ];
  there = λ l h. elim (Bool-cases (has l labels)) [
    | inl a ↦ inr a
    | inr f ↦ elim (k.there l h) [
      | inl y ↦ inl (ground (arith, has-keep l (λ m. not (has m labels)) add'))
      | inr n ↦ absurd (ground arith)
    ]
  ];
}

left-IsReached :
    (remove add remove' add' labels : List String)
    → IsLeft remove add remove' add' labels
    → IsReached remove' add' labels
    → IsReached remove add labels
left-IsReached remove add remove' add' labels k r = record {
  gone = λ l h. elim (k.gone l h) [ inl y ↦ r.gone l y | inr n ↦ n ];
  there = λ l h. elim (k.there l h) [ inl y ↦ r.there l y | inr n ↦ n ];
}

empty-IsReached :
    (remove add labels : List String)
    → (is_empty remove && is_empty add) ≡ true
    → IsReached remove add labels
empty-IsReached [] [] labels e = record { gone = λ l h. absurd cc; there = λ l h. absurd cc }
empty-IsReached [] (a ∷ more) labels e = absurd cc
empty-IsReached (r ∷ rs) add labels e = absurd cc

whole-IsLeft : (remove add labels : List String) → IsLeft remove add remove add labels
whole-IsLeft remove add labels = record {
  removes = λ l h. h;
  adds = λ l h. h;
  gone = λ l h. inl h;
  there = λ l h. inl h;
}

module _ (edit : ℕ → List String → List String → List String → Edited) (readable : ℕ → Bool)
    (parts : (i : ℕ) (remove add labels : List String)
      → IsPartial remove add labels (edit i remove add labels).labels)
    (lands : (i : ℕ) (remove add labels : List String)
      → AreDisjoint remove add
      → (edit i remove add labels).landed ≡ true
      → IsReached remove add (edit i remove add labels).labels)
    (remove add : List String) (apart : AreDisjoint remove add) where
  -- If it returned, all is done.
  abbrev Finishes : Relabelled → Type 0
  Finishes r = r.returned ≡ true → IsReached remove add r.labels

  try_step :
      (left i : ℕ) (remove' add' labels : List String)
      → IsLeft remove add remove' add' labels
      → ((remove'' add'' have : List String)
          → is_last left ≡ false
          → IsLeft remove add remove'' add'' have
          → Finishes (tries edit readable left (suc i) remove'' add'' have))
      → Finishes (tries edit readable (suc left) i remove' add' labels)
  unfolding tries
  try_step left i remove' add' labels k go_on =
      let done = edit i remove' add' labels in
      let have = done.labels in
      let still =
        partial-IsLeft remove add remove' add' labels have apart k (parts i remove' add' labels) in
      let narrow = narrowed-IsLeft remove add remove' add' have still in
      let missing = keep (λ l. has l have) remove' in
      let wanted = keep (λ l. not (has l have)) add' in
      let again = tries edit readable left (suc i) remove' add' have in
      let rest = tries edit readable left (suc i) missing wanted have in
      let whole : Relabelled = record { returned = true; labels = have } in
      let checked = if is_empty missing && is_empty wanted then whole else rest in
      let retried = if not (readable i) then again else checked in
      let raised : Relabelled = record { returned = false; labels = have } in
      let failed = if is_last left then raised else retried in
      if_either Finishes done.landed whole failed
        (λ e r.
          left-IsReached remove add remove' add' have still (
            lands i remove' add' labels (left-AreDisjoint remove add remove' add' labels apart k)
              e))
        (λ e.
          if_either Finishes (is_last left) raised retried (λ e1 r. absurd cc)
            (λ e1.
              if_either Finishes (not (readable i)) again checked
                (λ e2. go_on remove' add' have e1 still)
                (λ e2.
                  if_either Finishes (is_empty missing && is_empty wanted) whole rest
                    (λ e3 r.
                      left-IsReached remove add missing wanted have narrow
                        (empty-IsReached missing wanted have e3))
                    (λ e3. go_on missing wanted have e1 narrow))))

  tries-Finishes :
      (left i : ℕ) (remove' add' labels : List String)
      → IsLeft remove add remove' add' labels
      → Finishes (tries edit readable (suc left) i remove' add' labels)
  tries-Finishes zero i remove' add' labels k =
      try_step zero i remove' add' labels k λ remove'' add'' have e k'. absurd cc
  tries-Finishes (suc left) i remove' add' labels k =
      try_step (suc left) i remove' add' labels k
        λ remove'' add'' have e k'. tries-Finishes left (suc i) remove'' add'' have k'

  -- When an edit of labels, whole or in part, changes only what it is to change, and one that
  -- lands changes all of it, then `relabel` has all labels removed and added when it returns,
  -- whatever parts of its tries took effect, and whether the labels could be read back or not.
  pub relabel-IsReached :
      (labels : List String)
      → (relabel edit readable remove add labels).returned ≡ true
      → IsReached remove add (relabel edit readable remove add labels).labels
  unfolding relabel
  relabel-IsReached labels = tries-Finishes 3 1 remove add labels (whole-IsLeft remove add labels)

-- ===== src/TavilyCache/Distinct.antt =====
-- The entries of the cache of scripts/files/tavily_cache.py have different keys: what each change of
-- the `OrderedDict` and the eviction loop keeps of a predicate on every entry and of that.
use mathlib.Core.Path.{subst}
use mathlib.Core.Option.{some-injective}
use local_gpu_cluster.Prelude.{
  ℕ, ◌≤◌, ◌≡◌, inl, inr, String, true, false, some, List, [], ◌∷◌, ◌++◌, arith, All, length,
  length-append, ltb, str_eq, eq_iff, Bool-cases,
}
use local_gpu_cluster.TavilyCache.Ordered.{Entry, find, delete, differs_sym}
use local_gpu_cluster.TavilyCache.Cache.{evict}

module _ {V : Type 0} where
  -- No entry has this key.
  abbrev pub Absent : String → List (Entry V) → Type 0
  Absent k es = All (λ e. str_eq e.key k ≡ false) es

  abbrev pub Distinct : List (Entry V) → Type 0
  Distinct [] = Unit
  Distinct (e ∷ es) = Absent e.key es × Distinct es

  module _ (P : Entry V → Type 0) where
    pub All-delete : (k : String) (es : List (Entry V)) → All P es → All P (delete k es)
    unfolding delete
    All-delete k [] h = h
    All-delete k (e ∷ es) (p, ps) = elim (Bool-cases (str_eq e.key k)) [
      | inl y ↦ rw y ps
      | inr n ↦ rw n (p, All-delete k es ps)
    ]

    pub All-append : (xs ys : List (Entry V)) → All P xs → All P ys → All P (xs ++ ys)
    All-append [] ys h k = k
    All-append (x ∷ xs) ys (p, ps) k = (p, All-append xs ys ps k)

    pub All-evict : (m : ℕ) (es : List (Entry V)) → All P es → All P (evict m es).0
    unfolding evict
    All-evict m [] h = h
    All-evict m (e ∷ es) (p, ps) = elim (Bool-cases (ltb m (length (e ∷ es)))) [
      | inl y ↦ rw y (All-evict m es ps)
      | inr n ↦ rw n (p, ps)
    ]

    pub All-find :
        (k : String) (es : List (Entry V)) (e : Entry V)
        → All P es
        → find k es ≡ some e
        → P e × (str_eq e.key k ≡ true)
    unfolding find
    All-find k [] e h f = ground arith
    All-find k (x ∷ xs) e (p, ps) f = elim (Bool-cases (str_eq x.key k)) [
      | inl y ↦
          subst (λ v. P v × (str_eq v.key k ≡ true)) (some-injective _ _ (ground arith)) (p, y)
      | inr n ↦ All-find k xs e ps (ground arith)
    ]

  pub Absent-delete : (k : String) (es : List (Entry V)) → Distinct es → Absent k (delete k es)
  unfolding delete
  Absent-delete k [] d = tt
  Absent-delete k (e ∷ es) (a, d) = elim (Bool-cases (str_eq e.key k)) [
    | inl y ↦ rw y (subst (λ j. Absent j es) ((eq_iff e.key k).0 y) a)
    | inr n ↦ rw n (n, Absent-delete k es d)
  ]

  pub Distinct-delete : (k : String) (es : List (Entry V)) → Distinct es → Distinct (delete k es)
  unfolding delete
  Distinct-delete k [] d = tt
  Distinct-delete k (e ∷ es) (a, d) = elim (Bool-cases (str_eq e.key k)) [
    | inl y ↦ rw y d
    | inr n ↦ rw n (All-delete (λ x. str_eq x.key e.key ≡ false) k es a, Distinct-delete k es d)
  ]

  pub Distinct-evict : (m : ℕ) (es : List (Entry V)) → Distinct es → Distinct (evict m es).0
  unfolding evict
  Distinct-evict m [] d = tt
  Distinct-evict m (e ∷ es) (a, d) = elim (Bool-cases (ltb m (length (e ∷ es)))) [
    | inl y ↦ rw y (Distinct-evict m es d)
    | inr n ↦ rw n (a, d)
  ]

  pub Distinct-snoc :
      (es : List (Entry V)) (e : Entry V) → Distinct es → Absent e.key es → Distinct (es ++ e ∷ [])
  Distinct-snoc [] e d a = (tt, tt)
  Distinct-snoc (x ∷ xs) e (b, d) (n, a) = (
    All-append (λ y. str_eq y.key x.key ≡ false) xs (e ∷ []) b (differs_sym x.key e.key n, tt),
    Distinct-snoc xs e d a,
  )

  pub length-evict : (m : ℕ) (es : List (Entry V)) → length (evict m es).0 ≤ m
  unfolding evict
  length-evict m [] = omega arith
  length-evict m (e ∷ es) = ground (arith, length-evict m es)

  pub delete-bounded : (k : String) (es : List (Entry V)) → length (delete k es) ≤ length es
  unfolding delete
  delete-bounded k [] = omega arith
  delete-bounded k (e ∷ es) = ground (arith, delete-bounded k es)

  pub touched-bounded :
      (k : String) (es : List (Entry V)) (e : Entry V)
      → find k es ≡ some e
      → length (delete k es ++ e ∷ []) ≤ length es
  unfolding delete find
  touched-bounded k [] e f = ground arith
  touched-bounded k (x ∷ xs) e f = elim (Bool-cases (str_eq x.key k)) [
    | inl y ↦ rw y (ground (arith, length-append xs (e ∷ [])))
    | inr n ↦ rw n (ground (arith, touched-bounded k xs e))
  ]

  pub All-both :
      {P Q R : Entry V → Type 0} (f : (e : Entry V) → P e → Q e → R e) (es : List (Entry V))
      → All P es
      → All Q es
      → All R es
  All-both f [] h k = tt
  All-both f (e ∷ es) (p, ps) (q, qs) = (f e p q, All-both f es ps qs)

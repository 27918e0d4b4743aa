-- ===== src/TavilyCache/Recency.antt =====
-- Which entry the eviction loop of scripts/files/tavily_cache.py spares: the entries that stand behind
-- a key in the order, and what each operation on another key does to their number.
use mathlib.Core.Option.{some-injective}
use mathlib.Core.Path.{subst}
use local_gpu_cluster.Prelude.{
  ℕ, ◌+◌, ◌≤◌, ◌<◌, ◌≡◌, refl, sym, ap, ◌∙◌, inl, inr, String, true, false, Option, none, some,
  List, [], ◌∷◌, ◌++◌, arith, All, length, length-append, ltb, leb, str_eq, eq_iff, Bool-cases,
  if◌then◌else◌,
}
use local_gpu_cluster.TavilyCache.Ordered.{Entry, find, delete, differs_sym, move_to_end-assign}
use local_gpu_cluster.TavilyCache.Cache.{TtlCache, get, get_found, put, put_sized, evict}
use local_gpu_cluster.TavilyCache.Distinct.{
  Absent, Distinct, Absent-delete, All-find, delete-bounded, All-both,
}
use local_gpu_cluster.TavilyCache.History.{
  Operation, getting, putting, entry, operate, Run, Run-Fits, IsLogged,
}

module _ {V : Type 0} where
  -- The entries behind the first one with this key.
  unfoldable after : String → List (Entry V) → List (Entry V)
  after k [] = []
  after k (x ∷ xs) = if str_eq x.key k then xs else after k xs

  -- The key has this entry, and at most `n` entries are behind it.
  abbrev Near : String → Entry V → ℕ → List (Entry V) → Type 0
  Near k e n es = (find k es ≡ some e) × (length (after k es) ≤ n)

  module _ (k : String) (e : Entry V) where
    Near-delete :
        (j : String) (n : ℕ) (es : List (Entry V))
        → str_eq j k ≡ false
        → Near k e n es
        → Near k e n (delete j es)
    unfolding find delete after
    Near-delete j n [] d (f, b) = ground arith
    Near-delete j n (x ∷ xs) d (f, b) = elim (Bool-cases (str_eq x.key k)) [
      | inl y ↦
          let not_j : str_eq x.key j ≡ false =
            subst (λ s. str_eq s j ≡ false) (sym ((eq_iff x.key k).0 y)) (differs_sym j k d) in
          rw (not_j, y) (ground (arith, delete-bounded j xs))
      | inr o ↦ elim (Bool-cases (str_eq x.key j)) [
        | inl z ↦ ground arith
        | inr z ↦ rw (z, o) (Near-delete j n xs d (ground arith))
      ]
    ]

    weaken : (n : ℕ) (es : List (Entry V)) → Near k e n es → Near k e (n + 1) es
    weaken n es (f, b) = (f, omega (arith, b))

    Near-append :
        (n : ℕ) (es ys : List (Entry V)) → Near k e n es → Near k e (n + length ys) (es ++ ys)
    unfolding find after
    Near-append n [] ys (f, b) = ground arith
    Near-append n (x ∷ xs) ys (f, b) = elim (Bool-cases (str_eq x.key k)) [
      | inl y ↦ ground (arith, length-append xs ys)
      | inr o ↦ rw o (Near-append n xs ys (ground arith))
    ]

    Near-evict : (n m : ℕ) (es : List (Entry V)) → n < m → Near k e n es → Near k e n (evict m es).0
    unfolding find after evict
    Near-evict n m [] lt (f, b) = (f, b)
    Near-evict n m (x ∷ xs) lt (f, b) = elim (Bool-cases (ltb m (length (x ∷ xs)))) [
      | inl y ↦ elim (Bool-cases (str_eq x.key k)) [
        | inl z ↦ ground arith
        | inr o ↦ rw y (Near-evict n m xs lt (ground arith))
      ]
      | inr o ↦ rw o (f, b)
    ]

    Near-last :
        (es : List (Entry V)) → Absent k es → str_eq e.key k ≡ true → Near k e 0 (es ++ e ∷ [])
    unfolding find after
    Near-last [] a y = ground arith
    Near-last (x ∷ xs) (n, a) y = rw n (Near-last xs a y)

-- The settings of a cache do not change.
abbrev SameSettings : {V : Type 0} → TtlCache V → TtlCache V → Type 0
SameSettings c d = (d.ttl_s ≡ c.ttl_s) × (d.max_entries ≡ c.max_entries)

module _ {V : Type 0} where
  get_found-settings :
      (j : String) (now : ℕ) (c : TtlCache V) (found : Option (Entry V))
      → SameSettings c (get_found c j now found).1
  get_found-settings j now c none = (refl, refl)
  get_found-settings j now c (some e) = ground arith

  put_sized-settings :
      (j : String) (v : V) (now : ℕ) (c : TtlCache V) (size : Option ℕ)
      → SameSettings c (put_sized c j v now size).1
  put_sized-settings j v now c none = (refl, refl)
  put_sized-settings j v now c (some size) = ground arith

  operate-settings :
      (encoded_size : V → Option ℕ) (op : Operation V) (c : TtlCache V)
      → SameSettings c (operate encoded_size op c)
  unfolding get put
  operate-settings encoded_size (getting j now) c = get_found-settings j now c (find j c.entries)
  operate-settings encoded_size (putting j v now) c = put_sized-settings j v now c (encoded_size v)

module _ {V : Type 0} (encoded_size : V → Option ℕ) where
  -- The key that an operation is about.
  abbrev pub about : Operation V → String
  about (getting j now) = j
  about (putting j v now) = j

  abbrev pub operate_all : List (Operation V) → TtlCache V → TtlCache V
  operate_all [] c = c
  operate_all (op ∷ ops) c = operate_all ops (operate encoded_size op c)

  module _ (k : String) (e : Entry V) where
    get_found-Near :
        (j : String) (now n : ℕ) (c : TtlCache V) (found : Option (Entry V))
        → find j c.entries ≡ found
        → str_eq j k ≡ false
        → Near k e n c.entries
        → Near k e (n + 1) ((get_found c j now found).1).entries
    get_found-Near j now n c none fd d near = weaken k e n c.entries near
    get_found-Near j now n c (some x) fd d near =
        elim (Bool-cases (leb (c.ttl_s + x.stored_at) now)) [
          | inl y ↦ rw y (weaken k e n _ (Near-delete k e j n c.entries d near))
          | inr o ↦
              rw (o, fd)
                (Near-append k e n (delete j c.entries) (x ∷ [])
                  (Near-delete k e j n c.entries d near))
        ]

    put_sized-Near :
        (j : String) (v : V) (now n : ℕ) (c : TtlCache V) (size : Option ℕ)
        → str_eq j k ≡ false
        → n + 1 < c.max_entries
        → Near k e n c.entries
        → Near k e (n + 1) ((put_sized c j v now size).1).entries
    put_sized-Near j v now n c none d lt near = weaken k e n c.entries near
    put_sized-Near j v now n c (some size) d lt near =
        elim (Bool-cases (ltb c.max_value_bytes size)) [
          | inl y ↦ rw y (weaken k e n c.entries near)
          | inr o ↦ rw o (
              Near-evict k e (n + 1) c.max_entries _ lt (
                rw (move_to_end-assign (entry j v now) c.entries) (
                  Near-append k e n (delete j c.entries) (entry j v now ∷ [])
                    (Near-delete k e j n c.entries d near))))
        ]

    operate-Near :
        (op : Operation V) (n : ℕ) (c : TtlCache V)
        → str_eq (about op) k ≡ false
        → n + 1 < c.max_entries
        → Near k e n c.entries
        → Near k e (n + 1) (operate encoded_size op c).entries
    unfolding get put
    operate-Near (getting j now) n c d lt near =
        get_found-Near j now n c (find j c.entries) refl d near
    operate-Near (putting j v now) n c d lt near =
        put_sized-Near j v now n c (encoded_size v) d lt near

    operate_all-Near :
        (ops : List (Operation V)) (n : ℕ) (c : TtlCache V)
        → All (λ op. str_eq (about op) k ≡ false) ops
        → n + length ops < c.max_entries
        → Near k e n c.entries
        → Near k e (n + length ops) (operate_all ops c).entries
          × ((operate_all ops c).ttl_s ≡ c.ttl_s)
    operate_all-Near [] n c h lt near = ((near.0, omega (arith, near.1)), refl)
    operate_all-Near (op ∷ ops) n c (d, h) lt near =
        let (same_ttl, same_max) = operate-settings encoded_size op c in
        let (near', ttl') =
          operate_all-Near ops (n + 1) (operate encoded_size op c) h (omega arith)
            (operate-Near op n c d (omega arith) near) in
        ((near'.0, omega (arith, near'.1)), ttl' ∙ same_ttl)

    -- A hit leaves the entry last.
    hit-Near :
        (now : ℕ) (c : TtlCache V) (v : V)
        → Distinct c.entries
        → find k c.entries ≡ some e
        → str_eq e.key k ≡ true
        → (get_found c k now (some e)).0 ≡ some v
        → Near k e 0 ((get_found c k now (some e)).1).entries × (e.value ≡ v)
    hit-Near now c v d f same h = elim (Bool-cases (leb (c.ttl_s + e.stored_at) now)) [
      | inl y ↦ ground arith
      | inr o ↦
          rw (o, f)
            (Near-last k e (delete k c.entries) (Absent-delete k c.entries d) same, ground arith)
    ]

    lookup-Near :
        (n later : ℕ) (c : TtlCache V)
        → Near k e n c.entries
        → later < c.ttl_s + e.stored_at
        → (get c k later).0 ≡ some e.value
    unfolding get
    lookup-Near n later c near young = rw near.0 (ground arith)

  logged_times :
      (log : String → Option (ℕ × V)) (k : String) (at : ℕ) (v : V)
      → log k ≡ some (at, v)
      → (e : Entry V) → IsLogged log e
      → str_eq e.key k ≡ true
      → e.stored_at ≡ at
  logged_times log k at v h e l same =
      ap (λ x. x.0) (some-injective _ _ (sym l ∙ ap log ((eq_iff e.key k).0 same) ∙ h))

  found_survives :
      (c : TtlCache V) (k : String) (now later : ℕ) (v : V) (ops : List (Operation V))
      (found : Option (Entry V))
      → find k c.entries ≡ found
      → Distinct c.entries
      → (get_found c k now found).0 ≡ some v
      → All (λ op. str_eq (about op) k ≡ false) ops
      → length ops < c.max_entries
      → (at : ℕ) → All (λ e. (str_eq e.key k ≡ true) → e.stored_at ≡ at) c.entries
      → later < c.ttl_s + at
      → (get (operate_all ops (get_found c k now found).1) k later).0 ≡ some v
  found_survives c k now later v ops none f d h others few at times young = ground arith
  found_survives c k now later v ops (some e) f d h others few at times young =
      let (time, same) =
        All-find (λ x. (str_eq x.key k ≡ true) → x.stored_at ≡ at) k c.entries e times f in
      let (near, value) = hit-Near k e now c v d f same h in
      let hit_settings = get_found-settings k now c (some e) in
      let c' : TtlCache V = (get_found c k now (some e)).1 in
      let (near', ttl') =
        operate_all-Near k e ops 0 c' others (omega (arith, hit_settings.1)) near in
      lookup-Near k e (0 + length ops) later (operate_all ops c') near'
        (omega (arith, time same, hit_settings.0))
      ∙ ap some value

  -- After any sequence of gets and puts on an empty cache, when `get` answers with a value under a key, fewer
  -- than `max_entries` further operations on other keys, whatever they store, do not evict it: `get`
  -- still answers with it as long as its age is below the time to live.
  pub hot_entry_survives :
      {ttl max_entries max_bytes : ℕ} {c : TtlCache V} {log : String → Option (ℕ × V)}
      → Run encoded_size ttl max_entries max_bytes c log
      → (k : String) (v : V) (at now later : ℕ) (ops : List (Operation V))
      → (get c k now).0 ≡ some v
      → All (λ op. str_eq (about op) k ≡ false) ops
      → length ops < max_entries
      → log k ≡ some (at, v)
      → later < ttl + at
      → (get (operate_all ops (get c k now).1) k later).0 ≡ some v
  unfolding get
  hot_entry_survives {c = c} {log} run k v at now later ops h others few logged young =
      let w = Run-Fits encoded_size c log run in
      found_survives c k now later v ops (find k c.entries) refl w.distinct h others
        (omega (arith, w.same_max)) at
        (All-both (λ e l _. logged_times log k at v logged e l) c.entries w.logged w.logged)
        (omega (arith, w.same_ttl))

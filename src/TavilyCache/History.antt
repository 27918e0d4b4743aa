-- ===== src/TavilyCache/History.antt =====
-- What a run of `get` and `put` of scripts/files/tavily_cache.py leaves in the cache, against the log of
-- the values that were stored.
use mathlib.Core.Option.{some-injective}
use mathlib.Core.Path.{subst}
use local_gpu_cluster.Prelude.{
  ℕ, ◌+◌, ◌≤◌, ◌<◌, ◌≡◌, refl, sym, ap, ◌∙◌, inl, inr, String, Bool, true, false, not, Option, none,
  some, List, [], ◌∷◌, ◌++◌, arith, All, length, ltb, leb, str_eq, eq_iff, Bool-cases,
  if◌then◌else◌,
}
use local_gpu_cluster.TavilyCache.Ordered.{
  Entry, find, delete, assign, move_to_end, str_eq_refl, differs_sym, move_to_end-assign,
}
use local_gpu_cluster.TavilyCache.Cache.{
  TtlCache, Stats, new_cache, get, get_found, put, put_sized, evict,
}
use local_gpu_cluster.TavilyCache.Distinct.{
  Absent, Distinct, All-delete, All-append, All-evict, All-find, Absent-delete, Distinct-delete,
  Distinct-evict, Distinct-snoc, length-evict, delete-bounded, touched-bounded, All-both,
}

pub data Operation (V : Type 0) : Type 0 where
  getting : String → ℕ → Operation V
  putting : String → V → ℕ → Operation V

abbrev pub entry : {V : Type 0} → String → V → ℕ → Entry V
entry k v now = record { key = k; stored_at = now; value = v }

module _ {V : Type 0} where
  -- Whether `put` stores a value of this size.
  abbrev pub is_stored : TtlCache V → Option ℕ → Bool
  is_stored c none = false
  is_stored c (some n) = not (ltb c.max_value_bytes n)

  abbrev pub log_put : Bool → String → V → ℕ → (String → Option (ℕ × V)) → String → Option (ℕ × V)
  log_put false k v now log key = log key
  log_put true k v now log key = if str_eq k key then some (now, v) else log key

  -- An entry is what the log has last under its key.
  abbrev pub IsLogged : (String → Option (ℕ × V)) → Entry V → Type 0
  IsLogged log e = log e.key ≡ some (e.stored_at, e.value)

  other_key :
      (k : String) (v : V) (now : ℕ) (log : String → Option (ℕ × V)) (e : Entry V)
      → str_eq e.key k ≡ false
      → log_put true k v now log e.key ≡ log e.key
  other_key k v now log e off = rw (differs_sym e.key k off) refl

module _ {V : Type 0} (encoded_size : V → Option ℕ) where
  abbrev pub operate : Operation V → TtlCache V → TtlCache V
  operate (getting k now) c = (get c k now).1
  operate (putting k v now) c = (put encoded_size c k v now).1

  -- The last value that was stored under a key, with its time, after one more operation.
  abbrev pub last_stored :
      TtlCache V → Operation V → (String → Option (ℕ × V)) → String → Option (ℕ × V)
  last_stored c (getting k now) log = log
  last_stored c (putting k v now) log = log_put (is_stored c (encoded_size v)) k v now log

  -- The caches that operations in turn lead to from an empty one, with the log of what was stored.
  pub data Run (ttl max_entries max_bytes : ℕ)
      : TtlCache V → (String → Option (ℕ × V)) → Type 0 where
    fresh : Run ttl max_entries max_bytes (new_cache ttl max_entries max_bytes) (λ k. none)
    then_ :
        {c : TtlCache V} {log : String → Option (ℕ × V)} (op : Operation V)
        → Run ttl max_entries max_bytes c log
        → Run ttl max_entries max_bytes (operate op c) (last_stored c op log)

  pub record Fits (ttl max_entries max_bytes : ℕ) (c : TtlCache V) (log : String → Option (ℕ × V))
      : Type 0 where
    pub same_ttl : c.ttl_s ≡ ttl
    pub same_max : c.max_entries ≡ max_entries
    pub same_bytes : c.max_value_bytes ≡ max_bytes
    pub bounded : length c.entries ≤ max_entries
    pub distinct : Distinct c.entries
    pub logged : All (IsLogged log) c.entries

  module _ {ttl max_entries max_bytes : ℕ} where
    refit :
        (c : TtlCache V) (log log' : String → Option (ℕ × V)) (es : List (Entry V)) (stats : Stats)
        → Fits ttl max_entries max_bytes c log
        → length es ≤ max_entries
        → Distinct es
        → All (IsLogged log') es
        → Fits ttl max_entries max_bytes (record c { entries = es; stats = stats }) log'
    refit c log log' es stats w b d l = record {
      same_ttl = w.same_ttl;
      same_max = w.same_max;
      same_bytes = w.same_bytes;
      bounded = b;
      distinct = d;
      logged = l;
    }

    get_found-Fits :
        (k : String) (now : ℕ) (c : TtlCache V) (log : String → Option (ℕ × V))
        (found : Option (Entry V))
        → find k c.entries ≡ found
        → Fits ttl max_entries max_bytes c log
        → Fits ttl max_entries max_bytes (get_found c k now found).1 log
    get_found-Fits k now c log none f w =
        refit c log log c.entries _ w w.bounded w.distinct w.logged
    get_found-Fits k now c log (some e) f w = elim (Bool-cases (leb (c.ttl_s + e.stored_at) now)) [
      | inl y ↦ rw y (
          refit c log log (delete k c.entries) _ w (omega (arith, delete-bounded k c.entries))
            (Distinct-delete k c.entries w.distinct)
            (All-delete (IsLogged log) k c.entries w.logged))
      | inr n ↦
          let (l, same) = All-find (IsLogged log) k c.entries e w.logged f in
          rw (n, f)
            (refit c log log (delete k c.entries ++ e ∷ []) _ w
              (omega (arith, touched-bounded k c.entries e f))
              (Distinct-snoc (delete k c.entries) e (Distinct-delete k c.entries w.distinct) (
                subst (λ j. Absent j (delete k c.entries)) (sym ((eq_iff e.key k).0 same))
                  (Absent-delete k c.entries w.distinct)))
              (All-append (IsLogged log) (delete k c.entries) (e ∷ [])
                (All-delete (IsLogged log) k c.entries w.logged) (l, tt)))
    ]

    put_sized-Fits :
        (k : String) (v : V) (now : ℕ) (c : TtlCache V) (log : String → Option (ℕ × V))
        (size : Option ℕ)
        → Fits ttl max_entries max_bytes c log
        → Fits ttl max_entries max_bytes
            (put_sized c k v now size).1
            (log_put (is_stored c size) k v now log)
    put_sized-Fits k v now c log none w = w
    put_sized-Fits k v now c log (some size) w = elim (Bool-cases (ltb c.max_value_bytes size)) [
      | inl y ↦ rw y (refit c log log c.entries _ w w.bounded w.distinct w.logged)
      | inr n ↦ rw n (
          refit c log (log_put true k v now log)
            (evict c.max_entries (move_to_end k (assign (entry k v now) c.entries))).0 _ w
            (omega (
              arith,
              length-evict c.max_entries (move_to_end k (assign (entry k v now) c.entries)),
              w.same_max,
            ))
            (Distinct-evict c.max_entries _ (
              rw (move_to_end-assign (entry k v now) c.entries) (
                Distinct-snoc (delete k c.entries) (entry k v now)
                  (Distinct-delete k c.entries w.distinct) (Absent-delete k c.entries w.distinct))))
            (All-evict (IsLogged (log_put true k v now log)) c.max_entries _ (
              rw (move_to_end-assign (entry k v now) c.entries) (
                All-append (IsLogged (log_put true k v now log)) (delete k c.entries)
                  (entry k v now ∷ [])
                  (All-both (λ e off l. other_key k v now log e off ∙ l) (delete k c.entries)
                    (Absent-delete k c.entries w.distinct)
                    (All-delete (IsLogged log) k c.entries w.logged))
                  (ground (arith, str_eq_refl k), tt)))))
    ]

    get-Fits :
        (k : String) (now : ℕ) (c : TtlCache V) (log : String → Option (ℕ × V))
        → Fits ttl max_entries max_bytes c log
        → Fits ttl max_entries max_bytes (get c k now).1 log
    unfolding get
    get-Fits k now c log w = get_found-Fits k now c log (find k c.entries) refl w

    put-Fits :
        (k : String) (v : V) (now : ℕ) (c : TtlCache V) (log : String → Option (ℕ × V))
        → Fits ttl max_entries max_bytes c log
        → Fits ttl max_entries max_bytes
            (put encoded_size c k v now).1
            (last_stored c (putting k v now) log)
    unfolding put
    put-Fits k v now c log w = put_sized-Fits k v now c log (encoded_size v) w

    pub Run-Fits :
        (c : TtlCache V) (log : String → Option (ℕ × V))
        → Run ttl max_entries max_bytes c log
        → Fits ttl max_entries max_bytes c log
    Run-Fits _ _ fresh = record {
      same_ttl = refl;
      same_max = refl;
      same_bytes = refl;
      bounded = omega arith;
      distinct = tt;
      logged = tt;
    }
    Run-Fits _ _ (then_ {c} {log} (getting k now) r) = get-Fits k now c log (Run-Fits c log r)
    Run-Fits _ _ (then_ {c} {log} (putting k v now) r) = put-Fits k v now c log (Run-Fits c log r)

    found_latest :
        (k : String) (v : V) (now : ℕ) (c : TtlCache V) (log : String → Option (ℕ × V))
        (found : Option (Entry V))
        → find k c.entries ≡ found
        → Fits ttl max_entries max_bytes c log
        → (get_found c k now found).0 ≡ some v
        → (at : ℕ) × (log k ≡ some (at, v)) × (now < ttl + at)
    found_latest k v now c log none f w h = ground arith
    found_latest k v now c log (some e) f w h =
        let (l, same) = All-find (IsLogged log) k c.entries e w.logged f in
        elim (Bool-cases (leb (c.ttl_s + e.stored_at) now)) [
          | inl y ↦ ground arith
          | inr n ↦
              let same_value : e.value ≡ v = some-injective _ _ (ground arith) in
              (
                e.stored_at,
                ap log (sym ((eq_iff e.key k).0 same))
                    ∙ l
                    ∙ ap (λ x. some (e.stored_at, x)) same_value,
                ground (arith, w.same_ttl),
              )
        ]

    -- After any sequence of gets and puts on an empty cache, what `get` answers is the value that
    -- was stored last under the key, and its age is below the time to live.
    pub get_latest :
        (c : TtlCache V) (log : String → Option (ℕ × V))
        → Run ttl max_entries max_bytes c log
        → (k : String) (v : V) (now : ℕ) → (get c k now).0 ≡ some v
        → (at : ℕ) × (log k ≡ some (at, v)) × (now < ttl + at)
    unfolding get
    get_latest c log r k v now h =
        found_latest k v now c log (find k c.entries) refl (Run-Fits c log r) h

    -- After any sequence of gets and puts on an empty cache, it holds at most `max_entries` entries,
    -- their keys are different, and each is the last that was stored under its key.
    pub entries_bounded :
        (c : TtlCache V) (log : String → Option (ℕ × V))
        → Run ttl max_entries max_bytes c log
        → (length c.entries ≤ max_entries) × Distinct c.entries × All (IsLogged log) c.entries
    entries_bounded c log r = let w = Run-Fits c log r in (w.bounded, w.distinct, w.logged)

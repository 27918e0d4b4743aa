-- ===== src/TavilyCache/Cache.antt =====
-- `TTLCache` of scripts/files/tavily_cache.py. Times are ticks of one clock, and the encoder that
-- measures a value is a parameter.
use local_gpu_cluster.Prelude.{
  ℕ, ◌+◌, String, Bool, true, false, Option, none, some, List, [], ◌∷◌, length, ltb, leb, ◌==◌,
  if◌then◌else◌,
}
use local_gpu_cluster.TavilyCache.Ordered.{Entry, find, delete, assign, move_to_end}

pub record Stats : Type 0 where
  pub hits : ℕ
  pub misses : ℕ
  pub evictions : ℕ
  pub skipped_large : ℕ

pub record TtlCache (V : Type 0) : Type 0 where
  pub ttl_s : ℕ
  pub max_entries : ℕ
  pub max_value_bytes : ℕ
  pub entries : List (Entry V)
  pub stats : Stats

abbrev pub should_cache : ℕ → Bool
should_cache status_code = status_code == 200

abbrev pub miss : Stats → Stats
miss s = record s { misses = s.misses + 1 }

abbrev pub hit : Stats → Stats
hit s = record s { hits = s.hits + 1 }

module _ {V : Type 0} where
  abbrev pub new_cache : ℕ → ℕ → ℕ → TtlCache V
  new_cache ttl_s max_entries max_value_bytes = record {
    ttl_s = ttl_s;
    max_entries = max_entries;
    max_value_bytes = max_value_bytes;
    entries = [];
    stats = record { hits = 0; misses = 0; evictions = 0; skipped_large = 0 };
  }

  abbrev pub get_found : TtlCache V → String → ℕ → Option (Entry V) → Option V × TtlCache V
  get_found c key now none = (none, record c { stats = miss c.stats })
  get_found c key now (some e) =
      if leb (c.ttl_s + e.stored_at) now
      then (none, record c { entries = delete key c.entries; stats = miss c.stats })
      else (some e.value, record c { entries = move_to_end key c.entries; stats = hit c.stats })

  -- `get`: the answer and the cache after it.
  unfoldable pub get : TtlCache V → String → ℕ → Option V × TtlCache V
  get c key now = get_found c key now (find key c.entries)

  -- The entries after the eviction loop of `put`, and how many it evicted.
  unfoldable pub evict : ℕ → List (Entry V) → List (Entry V) × ℕ
  evict max_entries [] = ([], 0)
  evict max_entries (e ∷ es) =
      let rest = evict max_entries es in
      if ltb max_entries (length (e ∷ es)) then (rest.0, rest.1 + 1) else (e ∷ es, 0)

  abbrev stored : TtlCache V → List (Entry V) × ℕ → TtlCache V
  stored c (es, n) = record c {
    entries = es;
    stats = record (c.stats) { evictions = c.stats.evictions + n };
  }

  -- `put` on a value whose encoding has `size` bytes, or cannot be made: whether it was stored.
  abbrev pub put_sized : TtlCache V → String → V → ℕ → Option ℕ → Bool × TtlCache V
  put_sized c key value now none = (false, c)
  put_sized c key value now (some size) =
      if ltb c.max_value_bytes size
      then (
        false,
        record c { stats = record (c.stats) { skipped_large = c.stats.skipped_large + 1 } },
      )
      else (
        true,
        stored c (
            evict c.max_entries (
              move_to_end key
                (assign (record { key = key; stored_at = now; value = value }) c.entries))),
      )

  unfoldable pub put : (V → Option ℕ) → TtlCache V → String → V → ℕ → Bool × TtlCache V
  put encoded_size c key value now = put_sized c key value now (encoded_size value)

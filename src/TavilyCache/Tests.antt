-- ===== src/TavilyCache/Tests.antt =====
-- A run of scripts/files/tavily_cache.py: a cache of two entries with a time to live of ten.
use local_gpu_cluster.Prelude.{ℕ, ◌≡◌, ◌<◌, ◌+◌, refl, String, Option, some}
use local_gpu_cluster.TavilyCache.Ordered.{find, assign, delete}
use local_gpu_cluster.TavilyCache.Cache.{TtlCache, get, put, evict}
use local_gpu_cluster.TavilyCache.History.{putting, Run, fresh, then_, get_latest}

-- Every value takes eight bytes.
abbrev eight_bytes : ℕ → Option ℕ
eight_bytes v = some 8

-- "a" is stored, "b" after it, and then "b" again with another value.
abbrev stored_twice :
    (c : TtlCache ℕ) × (log : String → Option (ℕ × ℕ)) × Run eight_bytes 10 2 100 c log
stored_twice =
    (_, _, then_ (putting "b" 3 5) (then_ (putting "b" 2 4) (then_ (putting "a" 1 3) fresh)))

get_latest_example : (at : ℕ) × (stored_twice.1 "b" ≡ some (at, 3)) × (9 < 10 + at)
unfolding get put find assign delete evict
get_latest_example =
    get_latest eight_bytes stored_twice.0 stored_twice.1 stored_twice.2 "b" 3 9 refl

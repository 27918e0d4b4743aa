-- ===== src/FetchGuard/Tests.antt =====
-- A fetch that is redirected once, under scripts/files/web_fetch_guard.py.
use local_gpu_cluster.Prelude.{
  ℕ, String, Bool, true, Option, none, some, List, [], ◌∷◌, ◌==◌, str_eq, if◌then◌else◌,
}
use local_gpu_cluster.FetchGuard.Address.{Ip, v4, quad}
use local_gpu_cluster.FetchGuard.Fetch.{Parsed, Hop, Response, fetch}
use local_gpu_cluster.FetchGuard.Vetted.{IsKept, fetch-IsKept}

abbrev all_global : Ip → Bool
all_global ip = true

-- One address text is known.
abbrev one_address : String → Option Ip
one_address a = if str_eq a "8.8.8.8" then some (v4 (quad 8 8 8 8)) else none

abbrev as_host : String → Option Parsed
as_host url = some (record { scheme = "https"; host = url; port = 443 })

abbrev one_answer : ℕ → String → ℕ → Option (List String)
one_answer left host port = some ("8.8.8.8" ∷ [])

abbrev five_bytes : Response
five_bytes = record {
  status_code = 200;
  location = none;
  encoding = "identity";
  chunks = (1 ∷ 2 ∷ 3 ∷ []) ∷ (4 ∷ 5 ∷ []) ∷ [];
}

abbrev redirects_once : ℕ → Hop → Response
redirects_once left hop =
    if left == 5
    then record five_bytes { status_code = 302; location = some "other" }
    else five_bytes

fetch-IsKept_example :
    IsKept all_global one_address as_host one_answer redirects_once 4 6
      (fetch all_global one_address as_host one_answer redirects_once 4 6 "first")
fetch-IsKept_example =
    fetch-IsKept all_global one_address as_host one_answer redirects_once 4 6 "first"

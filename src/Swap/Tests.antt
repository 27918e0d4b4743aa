-- ===== src/Swap/Tests.antt =====
-- Two requests that meet, on scripts/files/swap-webhook.py.
use local_gpu_cluster.Prelude.{
  ◌≡◌, ◌≤◌, ◌↔◌, refl, ℕ, String, true, Option, some, List, [], ◌∷◌, zero, suc, ◌+◌, ◌*◌, ◌++◌, All,
  any, arith, str_eq, map,
}
use local_gpu_cluster.Prelude.Int.{pos}
use local_gpu_cluster.Prelude.Text.{strip, drop_chars}
use local_gpu_cluster.Swap.Profiles.{
  Script, fallback_profiles, split_words, names_of, discover_lines, discover_profiles,
  current_valid_profiles,
}
use local_gpu_cluster.Swap.Webhook.{
  Post, exited, timed_out, swap_in_progress, swap_timeout, unauthorized, completed, answered, Pc,
  running, authorized, check, act, act_at, Move, connect, go_on, move, moves, new_server,
}
use local_gpu_cluster.Swap.SingleFlight.{holders, single_flight}
use local_gpu_cluster.Swap.Trigger.{
  Fetched, raised, listed, BackendCache, swapped, get_active_backend, probe, poll,
  trigger_swap_and_wait,
}
use local_gpu_cluster.Swap.Waits.{IsTruthful, trigger-IsTruthful}
use local_gpu_cluster.Swap.Vouched.{IsVouched, swaps-IsVouched}

abbrev script : Option Script
script =
    some (record {
      mtime = 5;
      lines = some ("#!/bin/bash" ∷ "PROFILE_NAMES=(coder 'hemmingway')" ∷ []);
    })

abbrev post : String → String → Post
post key profile = record { path = "/swap"; authorization = key; profile = some profile }

-- The second request meets the first one's script; the third is not authorized; a time-out frees the lock.
abbrev meeting : List Move
meeting =
    connect (post "Bearer k" "hemmingway")
    ∷ connect (post "Bearer k " " coder")
    ∷ connect (post "Bearer x" "coder")
    ∷ go_on 0 timed_out
    ∷ go_on 1 timed_out
    ∷ go_on 0 timed_out
    ∷ go_on 1 timed_out
    ∷ go_on 2 timed_out
    ∷ []

abbrev ending : List Move
ending =
    connect (post "Bearer k" "coder")
    ∷ go_on 3 timed_out
    ∷ go_on 0 timed_out
    ∷ go_on 3 timed_out
    ∷ go_on 0 timed_out
    ∷ go_on 3 (exited (pos 0))
    ∷ go_on 3 timed_out
    ∷ []

abbrev pcs : List Move → List Pc
pcs ms = map (λ t. t.pc) (moves "k" ms (new_server script)).threads

meets : pcs meeting ≡ running "hemmingway" ∷ answered swap_in_progress ∷ answered unauthorized ∷ []
unfolding moves move act_at act check authorized current_valid_profiles discover_profiles
    discover_lines names_of split_words strip drop_chars
meets = refl

ends :
    pcs (meeting ++ ending)
    ≡ answered (swap_timeout "hemmingway")
      ∷ answered swap_in_progress
      ∷ answered unauthorized
      ∷ answered (completed "coder")
      ∷ []
unfolding moves move act_at act check authorized current_valid_profiles discover_profiles
    discover_lines names_of split_words strip drop_chars
ends = refl

single_flight_example :
    (holders (moves "k" meeting (new_server script)).threads ≤ 1)
    × (((moves "k" meeting (new_server script)).shared.lock ≡ true)
        ↔ (holders (moves "k" meeting (new_server script)).threads ≡ 1))
single_flight_example = single_flight "k" script meeting

abbrev Named : String → Type 0
Named p = any (str_eq p) ("coder" ∷ "hemmingway" ∷ fallback_profiles) ≡ true

fallback-Named : (p : String) → any (str_eq p) fallback_profiles ≡ true → Named p
fallback-Named p h = ground arith

script-Named :
    (p : String)
    → any (str_eq p) (discover_lines ("#!/bin/bash" ∷ "PROFILE_NAMES=(coder 'hemmingway')" ∷ []))
      ≡ true
    → Named p
unfolding discover_lines names_of split_words drop_chars
script-Named p h = ground arith

swaps-IsVouched_example :
    All (λ t. IsVouched "k" Named t.post t.pc) (moves "k" meeting (new_server script)).threads
unfolding discover_profiles
swaps-IsVouched_example = swaps-IsVouched "k" Named script meeting fallback-Named script-Named _

-- The upstream serves the old backend, then nothing, then the new one; the cache is ahead of it.
abbrev clock : ℕ → ℕ
clock i = 1000 * i + 5

abbrev fetched : ℕ → Fetched
fetched zero = listed (some "old")
fetched (suc zero) = raised
fetched (suc (suc i)) = listed (some "new")

abbrev warm : BackendCache
warm = record { value = some "new"; expires = 100000 }

waits :
    (trigger_swap_and_wait 5000 clock fetched "new" (some "coder") true true (some 200) warm).0
    ≡ some swapped
unfolding trigger_swap_and_wait probe get_active_backend poll
waits = refl

trigger-IsTruthful_example :
    IsTruthful clock fetched "new"
      (trigger_swap_and_wait 5000 clock fetched "new" (some "coder") true true (some 200) warm).0
trigger-IsTruthful_example =
    trigger-IsTruthful 5000 clock fetched "new" (some "coder") true true (some 200) warm

-- ===== src/Swap/Waits.antt =====
-- That `trigger_swap_and_wait` of scripts/files/router-app.py ends, and what its answer says.
use local_gpu_cluster.Prelude.{
  if_either, ◌≡◌, ◌≤◌, ◌<◌, ℕ, zero, suc, ◌+◌, ◌*◌, String, Bool, true, false, not, ◌&&◌, Option,
  none, some, ltb, ◌⊎◌, inl, inr, Bool-cases, ◌==◌, if◌then◌else◌, arith, eq_iff,
}
use local_gpu_cluster.Swap.Trigger.{
  Fetched, raised, listed, BackendCache, fetched_backend, get_active_backend, Ending, failed,
  already_active, swapped, same_backend, has_profile, probe, poll, after_webhook,
  trigger_swap_and_wait,
}

-- An ending that says only what the upstream itself has said during the call. The fuel of the
-- model can run out only if some round of the wait took less than the second that it sleeps.
abbrev pub IsTruthful : (ℕ → ℕ) → (ℕ → Fetched) → String → Option Ending → Type 0
IsTruthful clock fetched wanted none = (i : ℕ) × (1 ≤ i) × (clock (suc i) < clock i + 1000)
IsTruthful clock fetched wanted (some failed) = Unit
IsTruthful clock fetched wanted (some already_active) = fetched 0 ≡ listed (some wanted)
IsTruthful clock fetched wanted (some swapped) =
    (i : ℕ) × (1 ≤ i) × (clock i ≤ clock 1 + 15000) × (fetched i ≡ listed (some wanted))

fetched-same :
    (wanted : String) (until : ℕ) (f : Fetched) (c : BackendCache)
    → same_backend wanted (fetched_backend until f c).0 ≡ true
    → f ≡ listed (some wanted)
fetched-same wanted until raised c h = absurd cc
fetched-same wanted until (listed none) c h = absurd cc
fetched-same wanted until (listed (some id)) c h = ground (arith, eq_iff id wanted)

module _ (ttl : ℕ) (clock : ℕ → ℕ) (fetched : ℕ → Fetched) (wanted : String) where
  -- The cache has expired, so the upstream is asked.
  probe-fetched :
      (i : ℕ) (c : BackendCache)
      → same_backend wanted (probe ttl clock fetched wanted i c).0 ≡ true
      → fetched i ≡ listed (some wanted)
  unfolding probe get_active_backend
  probe-fetched i c h =
      let never : ltb (clock i) 0 ≡ false = ground arith in
      fetched-same wanted (clock i + ttl) (fetched i) (record c { expires = 0 }) (ground arith)

  poll-step :
      (fuel i : ℕ) (c : BackendCache)
      → 1 ≤ i
      → (clock i < clock 1 + 15000
          → (c' : BackendCache)
          → IsTruthful clock fetched wanted
              (poll ttl clock fetched wanted fuel (suc i) (clock 1 + 15000) c').0)
      → IsTruthful clock fetched wanted
          (poll ttl clock fetched wanted (suc fuel) i (clock 1 + 15000) c).0
  unfolding poll
  poll-step fuel i c h go_on =
      let (current, c') = probe ttl clock fetched wanted i c in
      let rest = poll ttl clock fetched wanted fuel (suc i) (clock 1 + 15000) c' in
      let found = if same_backend wanted current then (some swapped, c') else rest in
      if_either (λ o. IsTruthful clock fetched wanted o.0) (not (ltb (clock i) (clock 1 + 15000)))
        (some failed, c) found (λ e. tt)
        (λ e.
          if_either (λ o. IsTruthful clock fetched wanted o.0) (same_backend wanted current)
            (some swapped, c') rest (λ e'. (i, h, ground arith, probe-fetched i c e'))
            (λ e'. go_on (ground arith) c'))

  -- The fuel lasts until the deadline, or some round has been shorter than a second.
  abbrev Lasts : ℕ → ℕ → Type 0
  Lasts fuel i =
      (clock 1 + 15000 ≤ clock i + 1000 * fuel)
      ⊎ ((j : ℕ) × (1 ≤ j) × (clock (suc j) < clock j + 1000))

  Lasts-suc : (fuel i : ℕ) → 1 ≤ i → Lasts (suc fuel) i → Lasts fuel (suc i)
  Lasts-suc fuel i h (inr short) = inr short
  Lasts-suc fuel i h (inl enough) = elim (Bool-cases (ltb (clock (suc i)) (clock i + 1000))) [
    | inl y ↦ inr (i, h, ground arith)
    | inr n ↦ inl (ground arith)
  ]

  poll-IsTruthful :
      (fuel i : ℕ) (c : BackendCache)
      → 1 ≤ i
      → Lasts fuel i
      → IsTruthful clock fetched wanted
          (poll ttl clock fetched wanted (suc fuel) i (clock 1 + 15000) c).0
  unfolding poll
  poll-IsTruthful zero i c h lasts = poll-step zero i c h λ early c'. elim lasts [
    | inl enough ↦ absurd (omega (arith, early, enough))
    | inr short ↦ short
  ]
  poll-IsTruthful (suc fuel) i c h lasts =
      poll-step (suc fuel) i c h
        λ early c'. poll-IsTruthful fuel (suc i) c' (omega (arith, h)) (Lasts-suc fuel i h lasts)

  after_webhook-IsTruthful :
      (webhook : Option ℕ) (c : BackendCache)
      → IsTruthful clock fetched wanted (after_webhook ttl clock fetched wanted webhook c).0
  after_webhook-IsTruthful none c = tt
  after_webhook-IsTruthful (some status) c =
      if_either (λ o. IsTruthful clock fetched wanted o.0) (not (status == 200)) (some failed, c)
        (poll ttl clock fetched wanted 16 1 (clock 1 + 15000) c) (λ e. tt)
        (λ e. poll-IsTruthful 15 1 c (omega arith) (inl (omega arith)))

  -- Whatever the webhook and the upstream answer: a call answers that the backend is active only
  -- if the upstream itself, and not the cache, has named it, before the webhook was called or
  -- after that within fifteen seconds; and it comes to an end within the fuel of the model,
  -- unless some round of the wait took less than the second that the code sleeps in each.
  pub trigger-IsTruthful :
      (profile : Option String) (url_set key_set : Bool) (webhook : Option ℕ) (c : BackendCache)
      → IsTruthful clock fetched wanted
          (trigger_swap_and_wait ttl clock fetched wanted profile url_set key_set webhook c).0
  unfolding trigger_swap_and_wait
  trigger-IsTruthful profile url_set key_set webhook c =
      let (current, c') = probe ttl clock fetched wanted 0 c in
      let called = after_webhook ttl clock fetched wanted webhook c' in
      let asked = if same_backend wanted current then (some already_active, c') else called in
      if_either (λ o. IsTruthful clock fetched wanted o.0)
        (not (has_profile profile && url_set && key_set)) (some failed, c) asked (λ e. tt)
        (λ e.
          if_either (λ o. IsTruthful clock fetched wanted o.0) (same_backend wanted current)
            (some already_active, c') called (λ e'. probe-fetched 0 c e')
            (λ e'. after_webhook-IsTruthful webhook c'))

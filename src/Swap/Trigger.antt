-- ===== src/Swap/Trigger.antt =====
-- `get_active_backend` and `trigger_swap_and_wait` of scripts/files/router-app.py. The clock, in
-- milliseconds, and what each probe of the upstream finds are arguments; the reset of the cache and
-- the probe after it are one step.
use local_gpu_cluster.Prelude.{
  ℕ, zero, suc, ◌+◌, String, Bool, false, not, ◌&&◌, Option, none, some, str_eq, ltb, ◌==◌,
  if◌then◌else◌,
}

-- The first id in the list, if any, or the exception.
pub data Fetched : Type 0 where
  raised : Fetched
  listed : (id : Option String) → Fetched

pub record BackendCache : Type 0 where
  pub value : Option String
  pub expires : ℕ

abbrev pub fetched_backend : ℕ → Fetched → BackendCache → Option String × BackendCache
fetched_backend until raised c = (none, c)
fetched_backend until (listed id) c = (id, record { value = id; expires = until })

unfoldable pub get_active_backend :
    (ttl now : ℕ) → Fetched → BackendCache → Option String × BackendCache
get_active_backend ttl now f c =
    if ltb now c.expires then (c.value, c) else fetched_backend (now + ttl) f c

-- `swapped` also refreshes the capacity of the chat gate; the first two return False and True.
pub data Ending : Type 0 where
  failed already_active swapped : Ending

abbrev pub same_backend : String → Option String → Bool
same_backend wanted none = false
same_backend wanted (some current) = str_eq current wanted

abbrev pub has_profile : Option String → Bool
has_profile none = false
has_profile (some p) = not (str_eq p "")

module _ (ttl : ℕ) (clock : ℕ → ℕ) (fetched : ℕ → Fetched) (wanted : String) where
  -- The probe at an index, once the cache has been made to expire.
  unfoldable pub probe : ℕ → BackendCache → Option String × BackendCache
  probe i c = get_active_backend ttl (clock i) (fetched i) (record c { expires = 0 })

  -- The loop, from the probe i; `none` is out of fuel.
  unfoldable pub poll : (fuel i deadline : ℕ) → BackendCache → Option Ending × BackendCache
  poll zero i deadline c = (none, c)
  poll (suc fuel) i deadline c =
      let (current, c') = probe i c in
      let rest = poll fuel (suc i) deadline c' in
      if not (ltb (clock i) deadline)
      then (some failed, c)
      else if same_backend wanted current
      then (some swapped, c')
      else rest

  -- By the status of the webhook, or its exception.
  abbrev pub after_webhook : Option ℕ → BackendCache → Option Ending × BackendCache
  after_webhook none c = (some failed, c)
  after_webhook (some status) c =
      if not (status == 200) then (some failed, c) else poll 16 1 (clock 1 + 15000) c

  unfoldable pub trigger_swap_and_wait :
      (profile : Option String) (url_set key_set : Bool)
      → Option ℕ
      → BackendCache
      → Option Ending × BackendCache
  trigger_swap_and_wait profile url_set key_set webhook c =
      let (current, c') = probe 0 c in
      if not (has_profile profile && url_set && key_set)
      then (some failed, c)
      else if same_backend wanted current
      then (some already_active, c')
      else after_webhook webhook c'

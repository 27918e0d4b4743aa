-- ===== src/Swap/SingleFlight.antt =====
-- At most one swap at a time: the lock of scripts/files/swap-webhook.py.
use local_gpu_cluster.Prelude.{
  if_either, ◌≡◌, refl, ap, ◌↔◌, ℕ, zero, suc, ◌+◌, ◌≤◌, String, Bool, true, false, not, Option,
  none, some, if◌then◌else◌, any, str_eq, inl, inr, Bool-cases, List, [], ◌∷◌, ◌++◌, arith,
}
use local_gpu_cluster.Swap.Profiles.{Script}
use local_gpu_cluster.Swap.Webhook.{
  Post, Result, Pc, arrived, checked, running, ended, answered, Thread, Shared, Server, check,
  ask_if, authorized, unknown_profile, not_found, not_configured, stripped, act, act_at, Move,
  connect, edit, go_on, move, moves, new_server,
}

-- The thread runs the script.
abbrev pub holds : Pc → ℕ
holds (running p) = 1
holds _ = 0

abbrev pub holders : List Thread → ℕ
holders [] = 0
holders (t ∷ ts) = holds t.pc + holders ts

abbrev pub taken : Bool → ℕ
taken true = 1
taken false = 0

holders-append : (ts us : List Thread) → holders (ts ++ us) ≡ holders ts + holders us
holders-append [] us = omega arith
holders-append (t ∷ ts) us = omega (arith, holders-append ts us)

-- A step that leaves the lock and does not run the script.
abbrev pub IsIdle : Shared → Shared × Pc → Type 0
IsIdle s (s', pc) = (s'.lock ≡ s.lock) × (holds pc ≡ 0)

look_up-idle :
    (valid : List String) (p : String)
    → holds (if any (str_eq p) valid then checked p else answered unknown_profile) ≡ 0
look_up-idle valid p = ground arith

-- A step that takes the lock, or gives it back, when it begins or stops to run the script.
abbrev pub IsBalanced : Shared → Pc → Shared × Pc → Type 0
IsBalanced s pc (s', pc') =
    holds pc ≤ taken s.lock → holds pc' + taken s.lock ≡ holds pc + taken s'.lock

module _ (swap_webhook_key : String) where
  ask_if-IsIdle :
      (o : Option Bool) (s : Shared) (r : Post) → IsIdle s (ask_if swap_webhook_key o s r)
  ask_if-IsIdle none s r = (refl, refl)
  ask_if-IsIdle (some false) s r = (refl, refl)
  ask_if-IsIdle (some true) s r = (refl, look_up-idle _ (stripped r.profile))

  check-IsIdle : (s : Shared) (r : Post) → IsIdle s (check swap_webhook_key s r)
  unfolding check
  check-IsIdle s r =
      let known = ask_if swap_webhook_key (authorized swap_webhook_key r) s r in
      let configured = if str_eq swap_webhook_key "" then (s, answered not_configured) else known in
      if_either (IsIdle s) (not (str_eq r.path "/swap")) (s, answered not_found) configured
        (λ e. (refl, refl))
        (λ e.
          if_either (IsIdle s) (str_eq swap_webhook_key "") (s, answered not_configured) known
            (λ e'. (refl, refl)) (λ e'. ask_if-IsIdle (authorized swap_webhook_key r) s r))

  act-IsBalanced :
      (result : Result) (s : Shared) (r : Post) (pc : Pc)
      → IsBalanced s pc (act swap_webhook_key result s r pc)
  unfolding act
  act-IsBalanced result s r arrived h =
      let (l, k) = check-IsIdle s r in omega (arith, k, ap taken l)
  act-IsBalanced result s r (checked p) h = elim (Bool-cases s.lock) [
    | inl t ↦ ground arith
    | inr f ↦ ground arith
  ]
  act-IsBalanced result s r (running p) h = ground arith
  act-IsBalanced result s r (ended p result') h = refl
  act-IsBalanced result s r (answered a) h = refl

  -- As many threads run the script as the lock is taken.
  abbrev pub IsGuarded : Shared → List Thread → Type 0
  IsGuarded s ts = holders ts ≡ taken s.lock

  act_at-IsBalanced :
      (i : ℕ) (result : Result) (s : Shared) (ts : List Thread)
      → holders ts ≤ taken s.lock
      → (let (s', ts') = act_at swap_webhook_key i result s ts in
          holders ts' + taken s.lock ≡ holders ts + taken s'.lock)
  unfolding act_at
  act_at-IsBalanced i result s [] h = ground arith
  act_at-IsBalanced zero result s (t ∷ ts) h =
      omega (arith, act-IsBalanced result s t.post t.pc (omega (arith, h)), h)
  act_at-IsBalanced (suc i) result s (t ∷ ts) h =
      omega (arith, act_at-IsBalanced i result s ts (omega (arith, h)), h)

  move-IsGuarded :
      (m : Move) (v : Server)
      → IsGuarded v.shared v.threads
      → (let v' = move swap_webhook_key m v in IsGuarded v'.shared v'.threads)
  unfolding move
  move-IsGuarded (connect r) v h =
      omega (arith, holders-append v.threads (record { post = r; pc = arrived } ∷ []), h)
  move-IsGuarded (edit script) v h = h
  move-IsGuarded (go_on i result) v h =
      omega (arith, act_at-IsBalanced i result v.shared v.threads (omega (arith, h)), h)

  moves-IsGuarded :
      (ms : List Move) (v : Server)
      → IsGuarded v.shared v.threads
      → (let v' = moves swap_webhook_key ms v in IsGuarded v'.shared v'.threads)
  unfolding moves
  moves-IsGuarded [] v h = h
  moves-IsGuarded (m ∷ ms) v h =
      moves-IsGuarded ms (move swap_webhook_key m v) (move-IsGuarded m v h)

  -- However the requests to the server interleave and end, and whatever becomes of the script on
  -- the disk, at most one request runs it at a time, and the lock is taken exactly while one does:
  -- a time-out or an exception of the script leaves it free.
  pub single_flight :
      (script : Option Script) (ms : List Move)
      → (let v = moves swap_webhook_key ms (new_server script) in
          (holders v.threads ≤ 1) × ((v.shared.lock ≡ true) ↔ (holders v.threads ≡ 1)))
  single_flight script ms =
      let v = moves swap_webhook_key ms (new_server script) in
      let h = moves-IsGuarded ms (new_server script) refl in
      elim (Bool-cases v.shared.lock) [
        | inl t ↦ (omega (arith, h, ap taken t), (λ e. omega (arith, h, ap taken t), λ e. t))
        | inr f ↦ (
          omega (arith, h, ap taken f),
          (λ e. absurd cc, λ e. absurd (omega (arith, h, ap taken f, e))),
        )
      ]

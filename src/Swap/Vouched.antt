-- ===== src/Swap/Vouched.antt =====
-- Which profiles scripts/files/swap-webhook.py runs the script with, and for whom.
use mathlib.Core.Path.{subst}
use local_gpu_cluster.Prelude.{
  if_either, ◌≡◌, ◌≢◌, refl, ◌∙◌, ℕ, zero, suc, String, Bool, true, false, not, Option, none, some,
  List, [], ◌∷◌, ◌++◌, All, any, str_eq, starts_with, if◌then◌else◌, arith, eq_iff, inl, inr, ◌⊎◌,
  sym,
}
use local_gpu_cluster.Prelude.Int.{pos, negsuc}
use local_gpu_cluster.Prelude.Text.{strip, drop_chars}
use local_gpu_cluster.Swap.Profiles.{
  Script, ProfilesCache, fallback_profiles, discover_profiles, current_valid_profiles, same_time,
}
use local_gpu_cluster.Swap.Webhook.{
  Post, Result, exited, timed_out, raised, swap_in_progress, Answer, completed, swap_failed,
  swap_timeout, swap_exception, not_found, not_configured, Pc, arrived, checked, running, ended,
  answered, Thread, Shared, Server, stripped, answer_of, authorized, compare_digest, check, ask_if,
  look_up, act, act_at, Move, connect, edit, go_on, move, moves, new_server,
}

-- The profile that a thread may run the script with, runs it with or has run it with.
abbrev pub swapped_to : Answer → Option String
swapped_to (completed p) = some p
swapped_to (swap_failed p n) = some p
swapped_to (swap_timeout p) = some p
swapped_to (swap_exception p) = some p
swapped_to _ = none

abbrev pub profile_of : Pc → Option String
profile_of arrived = none
profile_of (checked p) = some p
profile_of (running p) = some p
profile_of (ended p result) = some p
profile_of (answered a) = swapped_to a

answer_of-profile : (p : String) (result : Result) → swapped_to (answer_of p result) ≡ some p
answer_of-profile p (exited (pos zero)) = refl
answer_of-profile p (exited (pos (suc n))) = refl
answer_of-profile p (exited (negsuc n)) = refl
answer_of-profile p timed_out = refl
answer_of-profile p raised = refl

any-append :
    (p : String) (xs ys : List String)
    → any (str_eq p) (xs ++ ys) ≡ true
    → (any (str_eq p) xs ≡ true) ⊎ (any (str_eq p) ys ≡ true)
any-append p [] ys h = inr h
any-append p (x ∷ xs) ys h = ground (arith, any-append p xs ys)

no_profile : {X : Type 0} {p : String} → none ≡ some p → X
no_profile e = absurd cc

module _ (swap_webhook_key : String) (Offered : String → Type 0) where
  abbrev pub IsOffered : List String → Type 0
  IsOffered ps = (p : String) → any (str_eq p) ps ≡ true → Offered p

  -- The names in the script, where there is one.
  abbrev pub IsOffering : Option Script → Type 0
  IsOffering none = Unit
  IsOffering (some script) = IsOffered (discover_profiles script.lines)

  -- The request carries the key, and asks for the profile.
  abbrev pub Asks : Post → String → Type 0
  Asks r p =
      (r.path ≡ "/swap")
      × (swap_webhook_key ≢ "")
      × (starts_with r.authorization "Bearer " ≡ true)
      × (strip (drop_chars 7 r.authorization) ≡ swap_webhook_key)
      × (p ≡ stripped r.profile)

  abbrev pub IsVouched : Post → Pc → Type 0
  IsVouched r pc = (p : String) → profile_of pc ≡ some p → Asks r p × Offered p

  abbrev pub IsSound : Shared → Type 0
  IsSound s = IsOffered s.cache.profiles × IsOffering s.script

  abbrev pub IsKept : Post → Shared × Pc → Type 0
  IsKept r (s, pc) = IsSound s × IsVouched r pc

  compare_digest-same : (a b : String) → compare_digest swap_webhook_key a b ≡ some true → a ≡ b
  compare_digest-same a b h = ground (arith, eq_iff a b)

  authorized-key :
      (r : Post)
      → authorized swap_webhook_key r ≡ some true
      → (swap_webhook_key ≢ "")
        × (starts_with r.authorization "Bearer " ≡ true)
        × (strip (drop_chars 7 r.authorization) ≡ swap_webhook_key)
  unfolding authorized
  authorized-key r h =
      let presented = strip (drop_chars 7 r.authorization) in
      (
        ground (arith, eq_iff swap_webhook_key ""),
        ground arith,
        compare_digest-same presented swap_webhook_key (ground arith),
      )

  look_up-profile :
      (q p : String) (valid : List String)
      → profile_of (look_up swap_webhook_key q valid) ≡ some p
      → (any (str_eq q) valid ≡ true) × (p ≡ q)
  look_up-profile q p valid h = ground arith

  module _ (fallback : IsOffered fallback_profiles) where
    valid-IsOffered :
        (script : Option Script) (c : ProfilesCache)
        → IsOffering script
        → IsOffered c.profiles
        → (let (valid, c') = current_valid_profiles script c in
            IsOffered valid × IsOffered c'.profiles)
    unfolding current_valid_profiles
    valid-IsOffered none c ho hc = (fallback, hc)
    valid-IsOffered (some script) c ho hc =
        let names = discover_profiles script.lines ++ fallback_profiles in
        let fresh : IsOffered names = λ p h.
          elim (any-append p (discover_profiles script.lines) fallback_profiles h) [
            | inl new ↦ ho p new
            | inr old ↦ fallback p old
          ] in
        if_either (λ (valid, c'). IsOffered valid × IsOffered c'.profiles)
          (same_time script.mtime c.key) (c.profiles, c)
          (names, record { key = some script.mtime; profiles = names }) (λ e. (hc, hc))
          (λ e. (fresh, fresh))

    ask_if-IsKept :
        (o : Option Bool) (s : Shared) (r : Post)
        → authorized swap_webhook_key r ≡ o
        → r.path ≡ "/swap"
        → IsSound s
        → IsKept r (ask_if swap_webhook_key o s r)
    ask_if-IsKept none s r e k h = (h, λ p q. absurd cc)
    ask_if-IsKept (some false) s r e k h = (h, λ p q. absurd cc)
    ask_if-IsKept (some true) s r e k (hc, hs) =
        let (valid, cached) = valid-IsOffered s.script s.cache hs hc in
        let (key, bearer, same) = authorized-key r e in
        (
          (cached, hs),
          λ p q.
              let (listed, asked) = look_up-profile (stripped r.profile) p _ q in
              (
                (k, key, bearer, same, asked),
                subst Offered (sym asked) (valid (stripped r.profile) listed),
              ),
        )

    check-IsKept : (s : Shared) (r : Post) → IsSound s → IsKept r (check swap_webhook_key s r)
    unfolding check
    check-IsKept s r h =
        let known = ask_if swap_webhook_key (authorized swap_webhook_key r) s r in
        let configured =
          if str_eq swap_webhook_key "" then (s, answered not_configured) else known in
        if_either (IsKept r) (not (str_eq r.path "/swap")) (s, answered not_found) configured
          (λ e. (h, λ p q. no_profile q))
          (λ e.
            if_either (IsKept r) (str_eq swap_webhook_key "") (s, answered not_configured) known
              (λ e'. (h, λ p q. no_profile q))
              (λ e'.
                ask_if-IsKept (authorized swap_webhook_key r) s r refl
                  (ground (arith, eq_iff r.path "/swap")) h))

    act-IsKept :
        (result : Result) (s : Shared) (r : Post) (pc : Pc)
        → IsSound s
        → IsVouched r pc
        → IsKept r (act swap_webhook_key result s r pc)
    unfolding act
    act-IsKept result s r arrived h k = check-IsKept s r h
    act-IsKept result s r (checked p) h k =
        if_either (IsKept r) s.lock (s, answered swap_in_progress)
          (record s { lock = true }, running p) (λ e. (h, λ q i. no_profile i)) (λ e. (h, k))
    act-IsKept result s r (running p) h k = (h, k)
    act-IsKept result s r (ended p result') h k =
        (h, λ q e. k q (sym (answer_of-profile p result') ∙ e))
    act-IsKept result s r (answered a) h k = (h, k)

    act_at-IsKept :
        (i : ℕ) (result : Result) (s : Shared) (ts : List Thread)
        → IsSound s
        → All (λ t. IsVouched t.post t.pc) ts
        → (let (s', ts') = act_at swap_webhook_key i result s ts in
            IsSound s' × All (λ t. IsVouched t.post t.pc) ts')
    unfolding act_at
    act_at-IsKept i result s [] h k = (h, k)
    act_at-IsKept zero result s (t ∷ ts) h (k, ks) =
        let (h', k') = act-IsKept result s t.post t.pc h k in (h', (k', ks))
    act_at-IsKept (suc i) result s (t ∷ ts) h (k, ks) =
        let (h', ks') = act_at-IsKept i result s ts h ks in (h', (k, ks'))

  abbrev pub MoveOk : Move → Type 0
  MoveOk (connect r) = Unit
  MoveOk (edit script) = IsOffering script
  MoveOk (go_on i result) = Unit

  arrive :
      (r : Post) (ts : List Thread)
      → All (λ t. IsVouched t.post t.pc) ts
      → All (λ t. IsVouched t.post t.pc) (ts ++ record { post = r; pc = arrived } ∷ [])
  arrive r [] k = (λ p e. no_profile e, tt)
  arrive r (t ∷ ts) (k, ks) = (k, arrive r ts ks)

  moves-IsKept :
      (ms : List Move) (v : Server)
      → IsOffered fallback_profiles
      → All MoveOk ms
      → IsSound v.shared
      → All (λ t. IsVouched t.post t.pc) v.threads
      → All (λ t. IsVouched t.post t.pc) (moves swap_webhook_key ms v).threads
  unfolding moves move
  moves-IsKept [] v f os h k = k
  moves-IsKept (connect r ∷ ms) v f (o, os) h k = moves-IsKept ms _ f os h (arrive r v.threads k)
  moves-IsKept (edit script ∷ ms) v f (o, os) h k = moves-IsKept ms _ f os (h.0, o) k
  moves-IsKept (go_on i result ∷ ms) v f (o, os) h k =
      let (h', k') = act_at-IsKept f i result v.shared v.threads h k in moves-IsKept ms _ f os h' k'

  -- Whatever the requests and however they interleave: a thread that may run the script, runs it
  -- or ran it has a request that carries the key and asks for that very profile, and the profile is
  -- one of those that the fallback, the script at the start or a later version of it offers.
  pub swaps-IsVouched :
      (script : Option Script) (ms : List Move)
      → IsOffered fallback_profiles
      → IsOffering script
      → All MoveOk ms
      → All (λ t. IsVouched t.post t.pc) (moves swap_webhook_key ms (new_server script)).threads
  swaps-IsVouched script ms f o os = moves-IsKept ms (new_server script) f os (f, o) _

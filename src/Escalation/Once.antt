-- ===== src/Escalation/Once.antt =====
-- The same brief is not sent twice within the window of scripts/files/escalation.py.
use mathlib.Core.List.{append_assoc}
use local_gpu_cluster.Prelude.{
  ℕ, ◌+◌, ◌≤◌, ◌<◌, ◌≡◌, refl, ap, ◌∙◌, inl, inr, String, Bool, true, false, Option, none, some,
  List, [], ◌∷◌, ◌++◌, max, eq_iff, if◌then◌else◌, leb, arith, Bool-cases,
}
use local_gpu_cluster.Prelude.Int.{ℤ, pos, pos_part, ◌-ℤ◌}
use local_gpu_cluster.Escalation.Budget.{Caps, Reason, check_budget}
use local_gpu_cluster.Escalation.Ledger.{
  Code, brief_missing, duplicate, budget, unpriced, no_key, answered_ok, Row, Ledger, reserve,
  reserve_on, hold, settle, usage,
}
use local_gpu_cluster.Escalation.Breaker.{
  least, row_age, ages, duplicate_age, spent_or_budget_refused, age_of, reference, same_brief,
}
use local_gpu_cluster.Escalation.Post.{Posted, answered, failed, post}
use local_gpu_cluster.Escalation.Handle.{
  Call, Handled, completed, refuse, on_usage, on_posted, on_cancelled, send, on_reserved,
  on_duplicate, on_config, on_valid, on_brief, handle, row_of,
}

least-some : (o : Option ℕ) (b : ℕ) → (d : ℕ) × (least o (some b) ≡ some d)
least-some none b = (b, refl)
least-some (some x) b = (_, refl)

some-least : (a : ℕ) (o : Option ℕ) → (d : ℕ) × (least (some a) o ≡ some d)
some-least a none = (a, refl)
some-least a (some b) = (_, refl)

-- A row with an age gives one to the ledger, wherever it stands.
ages-append :
    (now : ℤ) (dedupe : ℕ) (sha : String) (rs : List Row) (r : Row) (more : List Row) (a : ℕ)
    → row_age now dedupe sha r ≡ some a
    → (b : ℕ) × (ages now dedupe sha (rs ++ r ∷ more) ≡ some b)
unfolding ages
ages-append now dedupe sha [] r more a h = rw h (some-least a (ages now dedupe sha more))
ages-append now dedupe sha (q ∷ rs) r more a h =
    let (b, e) = ages-append now dedupe sha rs r more a h in
    rw e (least-some (row_age now dedupe sha q) b)

if_open :
    (dedupe : ℕ) (o : Option ℕ) (age : ℕ)
    → 0 < dedupe
    → o ≡ some age
    → (if leb dedupe 0 then none else o) ≡ some age
if_open dedupe o age window e = ground arith

recent_age :
    (t finished dedupe now : ℕ)
    → t ≤ now
    → now ≤ max t finished + dedupe
    → (a : ℕ) × (age_of (pos now) dedupe (some (pos t)) (some (pos finished)) ≡ some a)
recent_age t finished dedupe now le within =
    (pos_part (pos now -ℤ reference (pos t) (some (pos finished))), ground arith)

-- The row of an answered call is a duplicate's reason until the window has passed.
row_age-answered :
    (c : Call) (cost dedupe now : ℕ) (sha : String)
    → c.brief ≡ some sha
    → c.now ≤ now
    → now ≤ max c.now c.done_ts + dedupe
    → (a : ℕ) × (row_age (pos now) dedupe sha (row_of c cost answered_ok (some (pos c.done_ts)))
        ≡ some a)
unfolding row_age spent_or_budget_refused
row_age-answered c cost dedupe now sha b le within =
    let same : same_brief sha c.brief ≡ true = ap (same_brief sha) b ∙ (eq_iff sha sha).1 refl in
    rw same (recent_age c.now c.done_ts dedupe now le within)

module _ (c : Call) (l : Ledger) where
  -- A reply that is an answer comes with its row.
  abbrev IsStored : Handled → Type 0
  IsStored h =
      h.reply ≡ completed
      → (cost : ℕ) × (h.ledger.rows
          ≡ l.rows ++ row_of c cost answered_ok (some (pos c.done_ts)) ∷ [])

  refuse-IsStored : (code : Code) → IsStored (refuse c code l)
  unfolding refuse
  refuse-IsStored code h = absurd (ground arith)

  abbrev held : Ledger
  held = hold c.alias c.worst l

  usage-IsStored : (token sends : ℕ) (cost : Option ℕ) → IsStored (on_usage c token sends cost held)
  usage-IsStored token sends none h = ground arith
  usage-IsStored token sends (some cost) h = elim (Bool-cases c.written) [
    | inl y ↦ (
      cost,
      ap (λ w. (settle w token (row_of c cost answered_ok (some (pos c.done_ts))) held).rows) y,
    )
    | inr n ↦ absurd (ground arith)
  ]

  posted-IsStored :
      (token : ℕ) (p : Posted) (sends : ℕ) → IsStored (on_posted c token (p, sends) held)
  posted-IsStored token answered sends h = usage-IsStored token sends c.usage_cost h
  posted-IsStored token (failed status err) sends h = absurd (ground arith)

  cancelled-IsStored : (token : ℕ) (o : Option ℕ) → IsStored (on_cancelled c token o held)
  cancelled-IsStored token none h =
      posted-IsStored token (post c.first c.second).0 (post c.first c.second).1 h
  cancelled-IsStored token (some begun) h = absurd (ground arith)

  reserved-IsStored :
      (o : Option Reason) → IsStored (on_reserved c (reserve_on o c.alias c.worst l))
  unfolding send
  reserved-IsStored none h = cancelled-IsStored l.next_token c.cancelled h
  reserved-IsStored (some reason) h = refuse-IsStored budget h

  module _ (cfg : Caps) (day0 month0 dedupe : ℕ) where
    duplicate-IsStored : (o : Option ℕ) → IsStored (on_duplicate cfg day0 month0 dedupe c o l)
    unfolding reserve
    duplicate-IsStored (some age) h = refuse-IsStored duplicate h
    duplicate-IsStored none h =
        reserved-IsStored (check_budget cfg (usage cfg day0 month0 c.now l) c.alias c.worst) h

    config-IsStored :
        (priced has_key : Bool) (sha : String)
        → IsStored (on_config cfg day0 month0 dedupe priced has_key c sha l)
    config-IsStored false has_key sha h = refuse-IsStored unpriced h
    config-IsStored true false sha h = refuse-IsStored no_key h
    config-IsStored true true sha h =
        duplicate-IsStored (duplicate_age (pos c.now) dedupe sha l.rows) h

    valid-IsStored :
        (sha : String) (o : Option Code) → IsStored (on_valid cfg day0 month0 dedupe c sha o l)
    valid-IsStored sha (some code) h = refuse-IsStored code h
    valid-IsStored sha none h = config-IsStored c.priced c.has_key sha h

    brief-IsStored : (o : Option String) → IsStored (on_brief cfg day0 month0 dedupe c o l)
    brief-IsStored none h = refuse-IsStored brief_missing h
    brief-IsStored (some sha) h = valid-IsStored sha c.invalid h

    handle-IsStored : IsStored (handle cfg day0 month0 dedupe c l)
    unfolding handle
    handle-IsStored h = brief-IsStored c.brief h

  refuse-sends : (code : Code) → (refuse c code l).sends ≡ 0
  unfolding refuse
  refuse-sends code = ground arith

  -- With an identical brief in the window, nothing is sent.
  module _ (cfg : Caps) (day0 month0 dedupe : ℕ) (sha : String) (age : ℕ)
      (recent : duplicate_age (pos c.now) dedupe sha l.rows ≡ some age) where
    config-sends :
        (priced has_key : Bool)
        → (on_config cfg day0 month0 dedupe priced has_key c sha l).sends ≡ 0
    config-sends false has_key = refuse-sends unpriced
    config-sends true false = refuse-sends no_key
    config-sends true true =
        ap (λ o. (on_duplicate cfg day0 month0 dedupe c o l).sends) recent ∙ refuse-sends duplicate

    valid-sends : (o : Option Code) → (on_valid cfg day0 month0 dedupe c sha o l).sends ≡ 0
    valid-sends (some code) = refuse-sends code
    valid-sends none = config-sends c.priced c.has_key

    handle-sends : c.brief ≡ some sha → (handle cfg day0 month0 dedupe c l).sends ≡ 0
    unfolding handle
    handle-sends b =
        ap (λ o. (on_brief cfg day0 month0 dedupe c o l).sends) b ∙ valid-sends c.invalid

module _ (cfg : Caps) (day0 month0 dedupe : ℕ) where
  -- Once a call with a brief has been answered, a call with the same brief sends nothing until the
  -- window, which begins when the first call finished, has passed, whatever the two calls otherwise
  -- are, and whatever rows and reservations other calls have added to the ledger in between.
  pub answered_once :
      (c again : Call) (l l' : Ledger) (more : List Row) (sha : String)
      → c.brief ≡ some sha
      → again.brief ≡ some sha
      → (handle cfg day0 month0 dedupe c l).reply ≡ completed
      → 0 < dedupe
      → c.now ≤ again.now
      → again.now ≤ max c.now c.done_ts + dedupe
      → l'.rows ≡ (handle cfg day0 month0 dedupe c l).ledger.rows ++ more
      → (handle cfg day0 month0 dedupe again l').sends ≡ 0
  unfolding duplicate_age
  answered_once c again l l' more sha b b' reply window le within grown =
      let (cost, rows) = handle-IsStored c l cfg day0 month0 dedupe reply in
      let row = row_of c cost answered_ok (some (pos c.done_ts)) in
      let (a, e) = row_age-answered c cost dedupe again.now sha b le within in
      let (age, f) = ages-append (pos again.now) dedupe sha l.rows row more a e in
      let all : l'.rows ≡ l.rows ++ row ∷ more =
        grown ∙ ap (λ rs. rs ++ more) rows ∙ append_assoc l.rows (row ∷ []) more in
      handle-sends again l' cfg day0 month0 dedupe sha age
        (if_open dedupe (ages (pos again.now) dedupe sha l'.rows) age window
          (ap (ages (pos again.now) dedupe sha) all ∙ f))
        b'

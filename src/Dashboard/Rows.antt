-- ===== src/Dashboard/Rows.antt =====
-- What `Tracker._finish`, `_new_row` and a change of a row keep, in
-- scripts/files/live_dashboard/tracker.py.
use local_gpu_cluster.Prelude.{
  ℕ, ◌+◌, ◌-◌, ◌≤◌, ◌≡◌, ◌≢◌, refl, ◌∙◌, max, Option, none, some, List, [], ◌∷◌, ◌++◌, ◌==◌,
  if◌then◌else◌, All, arith, Option-cases, inl, inr,
}
use local_gpu_cluster.Dashboard.Slots.{find, assign, drop}
use local_gpu_cluster.Dashboard.Row.{
  Status, reading, generating, Timing, Entry, Row, new_entry, finished_entry, is_slow, raise_prompt,
  cached_of, prompt_of, add_prefill, add_eval,
}
use local_gpu_cluster.Dashboard.Tracker.{Tracker, run_or, fresh_row, new_row, finish}

-- The status of a row that is open, and of one that is stored.
abbrev pub IsRunning : Status → Type 0
IsRunning reading = Unit
IsRunning generating = Unit
IsRunning _ = ⊥

abbrev pub IsFinal : Status → Type 0
IsFinal reading = ⊥
IsFinal generating = ⊥
IsFinal _ = Unit

-- An open row stands under its slot and has no numbers of a finished request yet.
pub record IsOpen (slot : ℕ) (e : Entry) : Type 0 where
  pub placed : e.slot ≡ slot
  pub running : IsRunning e.status
  pub unfinished : e.finished ≡ none
  pub no_prompt : e.prompt_tokens ≡ none
  pub no_new : e.new_prompt_tokens ≡ none
  pub no_cached : e.cached_tokens ≡ none

-- Where the prompt and its new part are known, the cached part is the rest of the prompt;
-- otherwise it is not known.
abbrev pub TokensAdd : Option ℕ → Option ℕ → Option ℕ → Type 0
TokensAdd (some p) (some n) cached = (c : ℕ) × (cached ≡ some c) × (c + n ≡ p)
TokensAdd _ _ cached = cached ≡ none

pub record IsStored (e : Entry) : Type 0 where
  pub final : IsFinal e.status
  pub ended : e.finished ≢ none
  pub tokens : TokensAdd e.prompt_tokens e.new_prompt_tokens e.cached_tokens
  pub slow : e.slow ≡ is_slow e.new_prompt_tokens

abbrev pub AllOpen : List (ℕ × Row) → Type 0
AllOpen [] = Unit
AllOpen ((slot, r) ∷ rows) = IsOpen slot r.entry × AllOpen rows

-- No slot has two rows.
abbrev pub Distinct : List (ℕ × Row) → Type 0
Distinct [] = Unit
Distinct ((slot, r) ∷ rows) = (find slot rows ≡ none) × Distinct rows

pub record GoodRows (rows : List (ℕ × Row)) (finished : List Entry) : Type 0 where
  pub open_rows : AllOpen rows
  pub distinct : Distinct rows
  pub stored : All IsStored finished

abbrev pub IsGood : Tracker → Type 0
IsGood t = GoodRows t.rows t.finished

find-assign :
    (k j : ℕ) (a : Row) (d : List (ℕ × Row))
    → find j (assign k a d) ≡ (if k == j then some a else find j d)
unfolding find assign
find-assign k j a [] = refl
find-assign k j a ((i, b) ∷ d) = ground (arith, find-assign k j a d)

find-drop-none : (k j : ℕ) (d : List (ℕ × Row)) → find j d ≡ none → find j (drop k d) ≡ none
unfolding find drop
find-drop-none k j [] h = refl
find-drop-none k j ((i, b) ∷ d) h = ground (arith, find-drop-none k j d)

pub find-drop_self : (k : ℕ) (d : List (ℕ × Row)) → Distinct d → find k (drop k d) ≡ none
unfolding find drop
find-drop_self k [] h = refl
find-drop_self k ((i, b) ∷ d) (new, h) = ground (arith, find-drop_self k d h)

assign-Distinct : (k : ℕ) (a : Row) (d : List (ℕ × Row)) → Distinct d → Distinct (assign k a d)
unfolding find assign
assign-Distinct k a [] h = (refl, tt)
assign-Distinct k a ((i, b) ∷ d) (new, h) =
    ground (arith, assign-Distinct k a d h, find-assign k i a d)

drop-Distinct : (k : ℕ) (d : List (ℕ × Row)) → Distinct d → Distinct (drop k d)
unfolding drop
drop-Distinct k [] h = tt
drop-Distinct k ((i, b) ∷ d) (new, h) = ground (arith, drop-Distinct k d h, find-drop-none k i d)

assign-AllOpen :
    (k : ℕ) (a : Row) (d : List (ℕ × Row)) → IsOpen k a.entry → AllOpen d → AllOpen (assign k a d)
unfolding assign
assign-AllOpen k a [] p h = (p, tt)
assign-AllOpen k a ((i, b) ∷ d) p (q, h) = ground (arith, assign-AllOpen k a d p h)

drop-AllOpen : (k : ℕ) (d : List (ℕ × Row)) → AllOpen d → AllOpen (drop k d)
unfolding drop
drop-AllOpen k [] h = tt
drop-AllOpen k ((i, b) ∷ d) (q, h) = ground (arith, drop-AllOpen k d h)

pub find-IsOpen :
    (k : ℕ) (a : Row) (d : List (ℕ × Row)) → AllOpen d → find k d ≡ some a → IsOpen k a.entry
unfolding find
find-IsOpen k a [] h e = cc
find-IsOpen k a ((i, b) ∷ d) (q, h) e = ground (arith, find-IsOpen k a d h)

All-snoc :
    (es : List Entry) (e : Entry) → All IsStored es → IsStored e → All IsStored (es ++ e ∷ [])
All-snoc [] e h p = (p, tt)
All-snoc (x ∷ es) e (q, h) p = (q, All-snoc es e h p)

tokens_add : (p n c : Option ℕ) → c ≡ none → TokensAdd (raise_prompt p n) n (cached_of p n c)
tokens_add none n c h = h
tokens_add (some p) none c h = h
tokens_add (some p) (some n) c h = (max p n - n, refl, omega arith)

timings_cached :
    (ev pe : Option Timing) (e : Entry)
    → (add_eval ev (add_prefill pe e)).cached_tokens ≡ e.cached_tokens
timings_cached none none e = refl
timings_cached none (some pe) e = refl
timings_cached (some ev) none e = refl
timings_cached (some ev) (some pe) e = refl

pub finished_entry-IsStored :
    (slot now : ℕ) (status : Status) (r : Row)
    → IsFinal status
    → IsOpen slot r.entry
    → IsStored (finished_entry r status now)
unfolding finished_entry
finished_entry-IsStored slot now status r f o = record {
  final = f;
  ended = λ e. cc;
  tokens =
      tokens_add (prompt_of r.live r.live.rel_n r.live.prompt_est r.entry.prompt_tokens)
        (add_eval r.live.eval (add_prefill r.live.pe r.entry)).new_prompt_tokens
        (add_eval r.live.eval (add_prefill r.live.pe r.entry)).cached_tokens
        (timings_cached r.live.eval r.live.pe r.entry ∙ o.no_cached);
  slow = refl;
}

module _ (w : ℕ → ℕ → ℕ → ℕ) where
  -- A weight of the key of a row.
  abbrev pub of_key : Entry → ℕ
  of_key e = w e.server_run e.slot e.task

  unfoldable pub weigh_open : List (ℕ × Row) → ℕ
  weigh_open [] = 0
  weigh_open ((slot, r) ∷ rows) = of_key r.entry + weigh_open rows

  unfoldable pub weigh_stored : List Entry → ℕ
  weigh_stored [] = 0
  weigh_stored (e ∷ es) = of_key e + weigh_stored es

  -- The weight of all rows, open and stored.
  abbrev pub weigh : Tracker → ℕ
  weigh t = weigh_open t.rows + weigh_stored t.finished

  weigh-snoc :
      (es : List Entry) (e : Entry) → weigh_stored (es ++ e ∷ []) ≡ weigh_stored es + of_key e
  unfolding weigh_stored
  weigh-snoc [] e = omega arith
  weigh-snoc (x ∷ es) e = omega (arith, weigh-snoc es e)

  weigh-drop :
      (k : ℕ) (a : Row) (d : List (ℕ × Row))
      → find k d ≡ some a
      → weigh_open (drop k d) + of_key a.entry ≡ weigh_open d
  unfolding find drop weigh_open
  weigh-drop k a [] e = cc
  weigh-drop k a ((i, b) ∷ d) e = ground (arith, weigh-drop k a d)

  weigh-assign_new :
      (k : ℕ) (a : Row) (d : List (ℕ × Row))
      → find k d ≡ none
      → weigh_open (assign k a d) ≡ weigh_open d + of_key a.entry
  unfolding find assign weigh_open
  weigh-assign_new k a [] e = omega arith
  weigh-assign_new k a ((i, b) ∷ d) e = ground (arith, weigh-assign_new k a d)

  weigh-assign_old :
      (k : ℕ) (a old : Row) (d : List (ℕ × Row))
      → find k d ≡ some old
      → of_key a.entry ≡ of_key old.entry
      → weigh_open (assign k a d) ≡ weigh_open d
  unfolding find assign weigh_open
  weigh-assign_old k a old [] e h = cc
  weigh-assign_old k a old ((i, b) ∷ d) e h = ground (arith, weigh-assign_old k a old d)

  timings_key :
      (ev pe : Option Timing) (e : Entry) → of_key (add_eval ev (add_prefill pe e)) ≡ of_key e
  timings_key none none e = refl
  timings_key none (some pe) e = refl
  timings_key (some ev) none e = refl
  timings_key (some ev) (some pe) e = refl

  finished-key :
      (r : Row) (status : Status) (now : ℕ) → of_key (finished_entry r status now) ≡ of_key r.entry
  unfolding finished_entry
  finished-key r status now = timings_key r.live.eval r.live.pe r.entry

-- A step that leaves a good state and loses no row, whatever the keys weigh.
abbrev pub Kept : Tracker → Tracker → Type 0
Kept t u = IsGood u × ((w : ℕ → ℕ → ℕ → ℕ) → weigh w t ≤ weigh w u)

pub finish-Kept :
    (slot now : ℕ) (status : Status) (t : Tracker)
    → IsFinal status
    → IsGood t
    → Kept t (finish slot status now t)
unfolding finish
finish-Kept slot now status t f g = elim (Option-cases (find slot t.rows)) [
  | inl e ↦ rw e (g, λ w. omega arith)
  | inr (r, e) ↦ rw e (
    record {
      open_rows = drop-AllOpen slot t.rows g.open_rows;
      distinct = drop-Distinct slot t.rows g.distinct;
      stored =
          All-snoc t.finished (finished_entry r status now) g.stored
            (finished_entry-IsStored slot now status r f (find-IsOpen slot r t.rows g.open_rows e));
    },
    λ w. omega (
      arith,
      weigh-drop w slot r t.rows e,
      weigh-snoc w t.finished (finished_entry r status now),
      finished-key w r status now,
    ),
  )
]

-- Once a slot's row is finished, none is open for it.
pub finish-clears :
    (slot now : ℕ) (status : Status) (t : Tracker)
    → IsGood t
    → find slot (finish slot status now t).rows ≡ none
unfolding finish
finish-clears slot now status t g = elim (Option-cases (find slot t.rows)) [
  | inl e ↦ rw e e
  | inr (r, e) ↦ rw e (find-drop_self slot t.rows g.distinct)
]

pub new_row-Kept :
    (slot task now : ℕ) (t : Tracker)
    → find slot t.rows ≡ none
    → IsGood t
    → Kept t (new_row slot task now t)
unfolding new_row new_entry
new_row-Kept slot task now t e g =
    let run = run_or t.server_run now in
    (
      record {
        open_rows =
            assign-AllOpen slot (fresh_row run slot task now) t.rows
              (record {
                placed = refl;
                running = tt;
                unfinished = refl;
                no_prompt = refl;
                no_new = refl;
                no_cached = refl;
              })
              g.open_rows;
        distinct = assign-Distinct slot (fresh_row run slot task now) t.rows g.distinct;
        stored = g.stored;
      },
      λ w. omega (arith, weigh-assign_new w slot (fresh_row run slot task now) t.rows e),
    )

-- A change of an open row that leaves it an open row of the same key.
pub change-Kept :
    (slot : ℕ) (old new : Row) (t : Tracker)
    → find slot t.rows ≡ some old
    → new.entry.server_run ≡ old.entry.server_run
    → new.entry.task ≡ old.entry.task
    → IsOpen slot new.entry
    → IsGood t
    → Kept t (record t { rows = assign slot new t.rows })
change-Kept slot old new t e run task o g =
    let was = find-IsOpen slot old t.rows g.open_rows e in
    (
      record {
        open_rows = assign-AllOpen slot new t.rows o g.open_rows;
        distinct = assign-Distinct slot new t.rows g.distinct;
        stored = g.stored;
      },
      λ w.
          let key : of_key w new.entry ≡ of_key w old.entry =
            cc (o.placed, was.placed, run, task) in
          omega (arith, weigh-assign_old w slot new old t.rows e key),
    )

pub Kept-trans : (t u v : Tracker) → Kept t u → (IsGood u → Kept u v) → Kept t v
Kept-trans t u v (g, h) k = let (g', h') = k g in (g', λ w. omega (arith, h w, h' w))

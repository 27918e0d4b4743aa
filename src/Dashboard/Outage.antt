-- ===== src/Dashboard/Outage.antt =====
-- What scripts/files/live_dashboard/history.py keeps while the database is out of order, and
-- writes when it is back.
use mathlib.Core.List.{append_assoc, append-nil}
use local_gpu_cluster.Prelude.{
  ℕ, zero, suc, ◌-◌, ◌≤◌, ◌≡◌, refl, sym, ap, ◌∙◌, Bool, true, false, ◌||◌, List, [], ◌∷◌, ◌++◌,
  length, length-append, leb, ltb, ◌==◌, if◌then◌else◌, Bool-cases, inl, inr, arith,
}
use local_gpu_cluster.Dashboard.Row.{Entry}
use local_gpu_cluster.Dashboard.History.{
  Attempt, written, Transaction, raised, History, retries, run, drop_first, keep, after_add,
  handle_add, drain, try_recover, Step, add, recover, step, steps,
}
use local_gpu_cluster.Dashboard.Drained.{if_true, if_false, inserts, drain_writes}

abbrev pub drop_n : ℕ → List Entry → List Entry
drop_n zero xs = xs
drop_n (suc n) [] = []
drop_n (suc n) (x ∷ xs) = drop_n n xs

-- The last n, or all where there are fewer.
abbrev pub last_n : ℕ → List Entry → List Entry
last_n n xs = drop_n (length xs - n) xs

length-drop_n : (k : ℕ) (xs : List Entry) → length (drop_n k xs) ≡ length xs - k
length-drop_n zero xs = omega arith
length-drop_n (suc k) [] = omega arith
length-drop_n (suc k) (x ∷ xs) = omega (arith, length-drop_n k xs)

drop_n-nil : (k : ℕ) → drop_n k [] ≡ []
drop_n-nil zero = refl
drop_n-nil (suc k) = refl

drop_one_more :
    (k : ℕ) (xs : List Entry) (row : Entry)
    → k ≤ length xs
    → drop_first (drop_n k xs ++ row ∷ []) ≡ drop_n (suc k) (xs ++ row ∷ [])
drop_one_more zero [] row h = refl
drop_one_more zero (x ∷ xs) row h = refl
drop_one_more (suc k) [] row h = absurd (omega arith)
drop_one_more (suc k) (x ∷ xs) row h = drop_one_more k xs row (omega arith)

last-append :
    (m : ℕ) (xs : List Entry) (row : Entry)
    → last_n m (xs ++ row ∷ []) ≡ (
        if length (last_n m xs) == m
        then drop_first (last_n m xs ++ row ∷ [])
        else last_n m xs ++ row ∷ [])
last-append m xs row = elim (Bool-cases (leb m (length xs))) [
  | inl y ↦
      let e : length (xs ++ row ∷ []) - m ≡ suc (length xs - m) =
        ground (arith, length-append xs (row ∷ [])) in
      ap (λ k. drop_n k (xs ++ row ∷ [])) e
      ∙ rw (full y) (sym (drop_one_more (length xs - m) xs row (omega arith)))
  | inr n ↦
      let e : length (xs ++ row ∷ []) - m ≡ 0 = ground (arith, length-append xs (row ∷ [])) in
      let e' : length xs - m ≡ 0 = ground arith in
      ap (λ k. drop_n k (xs ++ row ∷ [])) e
      ∙ rw (not_full n) (sym (ap (λ k. drop_n k xs ++ row ∷ []) e'))
]
  where
    full : leb m (length xs) ≡ true → (length (last_n m xs) == m) ≡ true
    full y = ground (arith, length-drop_n (length xs - m) xs)

    not_full : leb m (length xs) ≡ false → (length (last_n m xs) == m) ≡ false
    not_full n = ground (arith, length-drop_n (length xs - m) xs)

or_true : (b : Bool) → (b || true) ≡ true
or_true true = refl
or_true false = refl

or_false : (b : Bool) → (b || false) ≡ b
or_false true = refl
or_false false = refl

-- Where the backlog is the end of what was seen, it stays so, and a loss is noted when it is
-- not all of it any more.
record Waiting (m : ℕ) (log : List Transaction) (lost : Bool) (seen : List Entry) (h : History)
    : Type 0 where
  out : h.ok ≡ false
  end : h.backlog ≡ last_n m seen
  same : h.log ≡ log
  noted : h.lost ≡ (lost || ltb m (length seen))

handle_out :
    (m : ℕ) (row : Entry) (attempts : ℕ → Attempt) (h : History)
    → h.ok ≡ false
    → handle_add m row attempts h ≡ keep m row h
unfolding handle_add
handle_out m row attempts h e = ground arith

keep_fields :
    (m : ℕ) (row : Entry) (h : History)
    → ((keep m row h).ok ≡ h.ok)
      × ((keep m row h).log ≡ h.log)
      × ((keep m row h).lost ≡ (h.lost || length h.backlog == m))
      × ((keep m row h).backlog ≡ (
          if length h.backlog == m
          then drop_first (h.backlog ++ row ∷ [])
          else h.backlog ++ row ∷ []))
unfolding keep
keep_fields m row h = elim (Bool-cases (length h.backlog == m)) [
  | inl y ↦ rw y (refl, refl, sym (or_true h.lost), refl)
  | inr n ↦ rw n (refl, refl, sym (or_false h.lost), refl)
]

keep-Waiting :
    (m : ℕ) (log : List Transaction) (lost : Bool) (seen : List Entry) (row : Entry) (h : History)
    → Waiting m log lost seen h
    → Waiting m log lost (seen ++ row ∷ []) (keep m row h)
keep-Waiting m log lost seen row h w =
    let (ok, same_log, noted, backlog) = keep_fields m row h in
    let size : length h.backlog ≡ length seen - (length seen - m) =
      ap length w.end ∙ length-drop_n (length seen - m) seen in
    record {
      out = ok ∙ w.out;
      end =
          backlog
          ∙ ap (λ b. if length b == m then drop_first (b ++ row ∷ []) else b ++ row ∷ []) w.end
          ∙ sym (last-append m seen row);
      same = same_log ∙ w.same;
      noted =
          noted
          ∙ ap (λ l. l || length h.backlog == m) w.noted
          ∙ ground (arith, size, length-append seen (row ∷ []));
    }

abbrev pub adds : (Entry → ℕ → Attempt) → List Entry → List Step
adds attempts [] = []
adds attempts (row ∷ rows) = add row (attempts row) ∷ adds attempts rows

adds-Waiting :
    (m : ℕ) (log : List Transaction) (lost : Bool) (seen rows : List Entry)
    (attempts : Entry → ℕ → Attempt) (h : History)
    → Waiting m log lost seen h
    → Waiting m log lost (seen ++ rows) (steps m (adds attempts rows) h)
unfolding steps
adds-Waiting m log lost seen [] attempts h w = rw (append-nil seen) w
adds-Waiting m log lost seen (row ∷ rows) attempts h w = rw (← append_assoc seen (row ∷ []) rows) (
    adds-Waiting m log lost (seen ++ row ∷ []) rows attempts (handle_add m row (attempts row) h)
      (rw (handle_out m row (attempts row) h w.out) (keep-Waiting m log lost seen row h w)))

with_ok : (h : History) (b : Bool) → h.ok ≡ b → record h { ok = b } ≡ h
with_ok h b e = ap (λ o. record h { ok = o }) (sym e)

-- The add that begins an outage, or the first one after its beginning, keeps its row.
first_add :
    (m : ℕ) (row : Entry) (attempts : ℕ → Attempt) (h : History)
    → (h.ok ≡ true → run retries attempts ≡ raised)
    → handle_add m row attempts h ≡ keep m row (record h { ok = false })
unfolding handle_add
first_add m row attempts h fails = elim (Bool-cases h.ok) [
  | inl y ↦
      if_true (after_add m row (run retries attempts) h) (keep m row h) y
      ∙ ap (λ r. after_add m row r h) (fails y)
  | inr n ↦
      if_false (after_add m row (run retries attempts) h) (keep m row h) n
      ∙ ap (keep m row) (sym (with_ok h false n))
]

-- An outage that finds the backlog empty, be the store out of order already or put out of order by
-- the first of these rows, whose write fails; more rows are added while it lasts, and then the
-- database comes back. At the recovery the last `backlog_max` of the rows, or all where there
-- are fewer, are committed in their order behind what was stored before, the backlog is empty
-- and the store is ok again; a loss is noted exactly if there were more rows, or if one was noted
-- before.
pub outage_writes :
    (backlog_max : ℕ) (row : Entry) (rows : List Entry) (attempts : Entry → ℕ → Attempt)
    (later : ℕ → ℕ → Attempt) (h : History)
    → (h.ok ≡ true → run retries (attempts row) ≡ raised)
    → h.backlog ≡ []
    → ((j : ℕ) → run retries (later j) ≡ written)
    → let u =
        step backlog_max (recover true later) (steps backlog_max (adds attempts (row ∷ rows)) h) in
      (u.ok ≡ true)
      × (u.backlog ≡ [])
      × (u.log ≡ h.log ++ inserts (last_n backlog_max (row ∷ rows)))
      × (u.lost ≡ (h.lost || ltb backlog_max (length (row ∷ rows))))
unfolding try_recover steps
outage_writes m row rows attempts later h fails e written_all =
    let first =
      keep-Waiting m h.log h.lost [] row (record h { ok = false })
        (record {
          out = refl;
          end = e ∙ sym (drop_n-nil (0 - m));
          same = refl;
          noted = ground (arith, or_false h.lost);
        }) in
    let w =
      adds-Waiting m h.log h.lost (row ∷ []) rows attempts (handle_add m row (attempts row) h)
        (rw (first_add m row (attempts row) h fails) first) in
    let mid = steps m (adds attempts (row ∷ rows)) h in
    let (ok, empty, lost, log) =
      drain_writes m later 0 mid.backlog (record mid { ok = true }) written_all refl refl in
    let back = if_false mid (drain m later 0 mid.backlog (record mid { ok = true })) w.out in
    (
      ap (λ u. u.ok) back ∙ ok,
      ap (λ u. u.backlog) back ∙ empty,
      ap (λ u. u.log) back
          ∙ log
          ∙ ap (λ l. l ++ inserts mid.backlog) w.same
          ∙ ap (λ b. h.log ++ inserts b) w.end,
      ap (λ u. u.lost) back ∙ lost ∙ w.noted,
    )

-- ===== src/Escalation/Accounts.antt =====
-- What a call of `handle` of scripts/files/escalation.py leaves in the ledger.
use local_gpu_cluster.Prelude.{
  if_either, none, ℕ, ◌≡◌, refl, ap, ◌⊎◌, inl, inr, String, Bool, true, false, Option, none, some,
  List, [], ◌∷◌, ◌++◌, ◌==◌, All, arith,
}
use local_gpu_cluster.Prelude.Int.{pos}
use local_gpu_cluster.Escalation.Budget.{Caps, Reason, check_budget}
use local_gpu_cluster.Escalation.Ledger.{
  Code, brief_missing, duplicate, budget, unpriced, no_key, Row, Reservation, Ledger, reserve,
  append, refused_with, reserve_on, hold, settle, drop_token, usage,
}
use local_gpu_cluster.Escalation.Breaker.{duplicate_age}
use local_gpu_cluster.Escalation.Post.{Posted, answered, failed, post}
use local_gpu_cluster.Escalation.Handle.{
  Reply, refused, raised, Handled, row_of, breaker_code, Call, refuse, on_usage, on_posted,
  on_cancelled, send, on_reserved, on_duplicate, on_config, on_valid, on_brief, handle,
}

-- The next token is none of those in use.
abbrev pub IsFresh : Ledger → Type 0
IsFresh l = All (λ p. (p.token == l.next_token) ≡ false) l.pending

abbrev pub reservation_of : Call → Ledger → Reservation
reservation_of c l = record { token = l.next_token; alias = c.alias; worst = c.worst }

-- One row more and the reservations as before; or, where the row could not be written, the rows as
-- before, and either the call's reservation kept or an exception with nothing sent.
abbrev pub IsAccounted : Call → Ledger → Handled → Type 0
IsAccounted c l h =
    ((row : Row) × (h.ledger.rows ≡ l.rows ++ row ∷ []) × (h.ledger.pending ≡ l.pending))
    ⊎ ((c.written ≡ false)
        × (h.ledger.rows ≡ l.rows)
        × ((h.ledger.pending ≡ l.pending ++ reservation_of c l ∷ [])
            ⊎ ((h.reply ≡ raised) × (h.sends ≡ 0) × (h.ledger.pending ≡ l.pending))))

drop_token-last :
    (ps : List Reservation) (r : Reservation)
    → All (λ p. (p.token == r.token) ≡ false) ps
    → drop_token r.token (ps ++ r ∷ []) ≡ ps
unfolding drop_token
drop_token-last [] r h = ground arith
drop_token-last (p ∷ ps) r (n, h) = rw n (ap (λ qs. p ∷ qs) (drop_token-last ps r h))

module _ (c : Call) (l : Ledger) (fresh : IsFresh l) where
  refuse-IsAccounted : (code : Code) → IsAccounted c l (refuse c code l)
  unfolding refuse
  refuse-IsAccounted code =
      let shown = breaker_code c.now code l.rows in
      if_either (IsAccounted c l) c.written
        (record {
          reply = refused shown;
          ledger = append (row_of c 0 (refused_with shown) none) l;
          sends = 0;
        })
        (record { reply = raised; ledger = l; sends = 0 })
        (λ e. inl (row_of c 0 (refused_with shown) none, refl, refl))
        (λ e. inr (e, refl, inr (refl, refl, refl)))

  abbrev held : Ledger
  held = hold c.alias c.worst l

  settle-IsAccounted :
      (written : Bool) (row : Row) (reply : Reply) (sends : ℕ)
      → c.written ≡ written
      → IsAccounted c l
          (record { reply = reply; ledger = settle written l.next_token row held; sends = sends })
  settle-IsAccounted true row reply sends w =
      inl (row, refl, drop_token-last l.pending (reservation_of c l) fresh)
  settle-IsAccounted false row reply sends w = inr (w, refl, inl refl)

  on_usage-IsAccounted :
      (sends : ℕ) (cost : Option ℕ) → IsAccounted c l (on_usage c l.next_token sends cost held)
  on_usage-IsAccounted sends none = settle-IsAccounted c.written _ _ _ refl
  on_usage-IsAccounted sends (some cost) = settle-IsAccounted c.written _ _ _ refl

  on_posted-IsAccounted :
      (p : Posted) (sends : ℕ) → IsAccounted c l (on_posted c l.next_token (p, sends) held)
  on_posted-IsAccounted answered sends = on_usage-IsAccounted sends c.usage_cost
  on_posted-IsAccounted (failed status err) sends = settle-IsAccounted c.written _ _ _ refl

  on_cancelled-IsAccounted : (o : Option ℕ) → IsAccounted c l (on_cancelled c l.next_token o held)
  on_cancelled-IsAccounted none =
      on_posted-IsAccounted (post c.first c.second).0 (post c.first c.second).1
  on_cancelled-IsAccounted (some begun) = settle-IsAccounted c.written _ _ _ refl

  reserved-IsAccounted :
      (o : Option Reason) → IsAccounted c l (on_reserved c (reserve_on o c.alias c.worst l))
  unfolding send
  reserved-IsAccounted none = on_cancelled-IsAccounted c.cancelled
  reserved-IsAccounted (some reason) = refuse-IsAccounted budget

  module _ (cfg : Caps) (day0 month0 dedupe : ℕ) where
    duplicate-IsAccounted :
        (o : Option ℕ) → IsAccounted c l (on_duplicate cfg day0 month0 dedupe c o l)
    unfolding reserve
    duplicate-IsAccounted (some age) = refuse-IsAccounted duplicate
    duplicate-IsAccounted none =
        reserved-IsAccounted (check_budget cfg (usage cfg day0 month0 c.now l) c.alias c.worst)

    config-IsAccounted :
        (priced has_key : Bool) (sha : String)
        → IsAccounted c l (on_config cfg day0 month0 dedupe priced has_key c sha l)
    config-IsAccounted false has_key sha = refuse-IsAccounted unpriced
    config-IsAccounted true false sha = refuse-IsAccounted no_key
    config-IsAccounted true true sha =
        duplicate-IsAccounted (duplicate_age (pos c.now) dedupe sha l.rows)

    valid-IsAccounted :
        (sha : String) (o : Option Code)
        → IsAccounted c l (on_valid cfg day0 month0 dedupe c sha o l)
    valid-IsAccounted sha (some code) = refuse-IsAccounted code
    valid-IsAccounted sha none = config-IsAccounted c.priced c.has_key sha

    brief-IsAccounted :
        (o : Option String) → IsAccounted c l (on_brief cfg day0 month0 dedupe c o l)
    brief-IsAccounted none = refuse-IsAccounted brief_missing
    brief-IsAccounted (some sha) = valid-IsAccounted sha c.invalid

    -- When the next token is a new one, a call, whatever becomes of it (refused, answered, failed or
    -- cancelled), adds exactly one row to the ledger and leaves no reservation. Only when its row
    -- cannot be written is there no row: then its reservation is kept, or the call, a refused one,
    -- has sent nothing and ends with an exception.
    pub handle-IsAccounted : IsAccounted c l (handle cfg day0 month0 dedupe c l)
    unfolding handle
    handle-IsAccounted = brief-IsAccounted c.brief

-- ===== src/Escalation/Post.antt =====
-- `_post` of scripts/files/escalation.py, its one retry, and what `handle` charges for what it returns. The
-- HTTP client is an argument: what each of the two attempts comes to.
use mathlib.Core.Path.{subst}
use local_gpu_cluster.Prelude.{
  Bool-cases, ℕ, ◌≡◌, refl, ◌⊎◌, inl, inr, Bool, true, false, not, ◌||◌, leb, ◌==◌, if◌then◌else◌,
  arith,
}

-- What one attempt comes to: the total timeout, an exception of the client, which is in `_NEVER_SENT` or
-- not, or a response, with whether its body is a JSON object.
pub data Attempt : Type 0 where
  total_timeout : Attempt
  http_error : (never_sent : Bool) → Attempt
  response : (status_code : ℕ) (is_object : Bool) → Attempt

-- The error class that `_post` returns.
pub data Failure : Type 0 where
  transport : (never_sent : Bool) → Failure
  http_status : ℕ → Failure

pub data Posted : Type 0 where
  answered : Posted
  failed : ℕ → Failure → Posted

-- What the body of the loop does: return, or go on to the next attempt with this error.
pub data Round : Type 0 where
  return : Posted → Round
  retry : ℕ → Failure → Round

abbrev pub on_response : ℕ → Bool → Round
on_response status_code is_object =
    if status_code == 200
    then if is_object then return answered else return (failed 502 (transport false))
    else if not (status_code == 429 || leb 500 status_code)
    then return (failed status_code (http_status status_code))
    else retry status_code (http_status status_code)

unfoldable pub attempt : Attempt → Round
attempt total_timeout = return (failed 502 (transport false))
attempt (http_error true) = retry 502 (transport true)
attempt (http_error false) = return (failed 502 (transport false))
attempt (response status_code is_object) = on_response status_code is_object

-- The second and last attempt: a retry falls out of the loop.
abbrev pub finish : Round → Posted × ℕ
finish (return p) = (p, 2)
finish (retry status err) = (failed status err, 2)

abbrev pub go_on : Round → Attempt → Posted × ℕ
go_on (return p) second = (p, 1)
go_on (retry status err) second = finish (attempt second)

-- `_post`: the result, and how many attempts were made.
unfoldable pub post : Attempt → Attempt → Posted × ℕ
post first second = go_on (attempt first) second

-- The cost of the row that `handle` settles for a failure; an answer is charged by its usage.
unfoldable pub failure_cost : ℕ → Failure → ℕ
failure_cost worst (transport never_sent) = if never_sent then 0 else worst
failure_cost worst (http_status code) = 0

-- Whether an attempt may have been billed: the request may have been sent, and the answer was not an error status.
abbrev pub MaybeBilled : Attempt → Type 0
MaybeBilled total_timeout = Unit
MaybeBilled (http_error never_sent) = never_sent ≡ false
MaybeBilled (response status_code is_object) = status_code ≡ 200

-- Whether an attempt was answered with a usable body.
abbrev pub Answered : Attempt → Type 0
Answered (response status_code is_object) = (status_code ≡ 200) × (is_object ≡ true)
Answered _ = ⊥

-- Of a first attempt that goes on, no bill can come.
retry-unbilled :
    (a : Attempt) (status : ℕ) (err : Failure) → attempt a ≡ retry status err → ¬ MaybeBilled a
unfolding attempt
retry-unbilled total_timeout status err h = λ b. ground arith
retry-unbilled (http_error true) status err h = λ b. ground arith
retry-unbilled (http_error false) status err h = λ b. ground arith
retry-unbilled (response code is_object) status err h = λ b. ground arith

-- At most two attempts are made, and there is a second only when no bill can come of the first: the request
-- provably never left, or it was answered with 429 or a server error.
pub retry_only_unbilled :
    (first second : Attempt)
    → ((post first second).1 ≡ 1) ⊎ (((post first second).1 ≡ 2) × (¬ MaybeBilled first))
unfolding post
retry_only_unbilled first second = by_round (attempt first) refl
  where
    by_round :
        (r : Round)
        → attempt first ≡ r
        → ((go_on r second).1 ≡ 1) ⊎ (((go_on r second).1 ≡ 2) × (¬ MaybeBilled first))
    by_round (return p) e = inl refl
    by_round (retry status err) e = inr (two (attempt second), retry-unbilled first status err e)
      where
        two : (r : Round) → (finish r).1 ≡ 2
        two (return p) = refl
        two (retry s f) = refl

-- What one round says of the bill: a failure it returns or goes on with is charged as it should be.
abbrev IsFair : Attempt → ℕ → Round → Type 0
IsFair a worst (return answered) = Unit
IsFair a worst (return (failed status err)) =
    (MaybeBilled a × (failure_cost worst err ≡ worst))
    ⊎ ((¬ MaybeBilled a) × (failure_cost worst err ≡ 0))
IsFair a worst (retry status err) = (¬ MaybeBilled a) × (failure_cost worst err ≡ 0)

on_response-IsFair :
    (code worst : ℕ) (is_object : Bool)
    → IsFair (response code is_object) worst (on_response code is_object)
unfolding failure_cost
on_response-IsFair code worst is_object = elim (Bool-cases (code == 200)) [
  | inl y ↦ rw y (object_or_not is_object (ground arith))
  | inr n ↦ elim (Bool-cases (code == 429 || leb 500 code)) [
    | inl busy ↦ rw (n, busy) ((λ b. ground arith), refl)
    | inr other ↦ rw (n, other) (inr ((λ b. ground arith), refl))
  ]
]
  where
    object_or_not :
        (b : Bool)
        → code ≡ 200
        → IsFair
            (response code is_object)
            worst
            (if b then return answered else return (failed 502 (transport false)))
    object_or_not true e = tt
    object_or_not false e = inl (e, refl)

attempt-IsFair : (a : Attempt) (worst : ℕ) → IsFair a worst (attempt a)
unfolding attempt failure_cost
attempt-IsFair total_timeout worst = inl (tt, refl)
attempt-IsFair (http_error true) worst = ((λ b. ground arith), refl)
attempt-IsFair (http_error false) worst = inl (refl, refl)
attempt-IsFair (response code is_object) worst = on_response-IsFair code worst is_object

-- What a failure that is charged `cost` says of the attempts of `_post`.
abbrev FairPost : Attempt → Attempt → ℕ → Posted × ℕ → Type 0
FairPost first second worst (answered, n) = Unit
FairPost first second worst (failed status err, n) =
    ((MaybeBilled first ⊎ ((n ≡ 2) × MaybeBilled second)) × (failure_cost worst err ≡ worst))
    ⊎ ((¬ (MaybeBilled first ⊎ ((n ≡ 2) × MaybeBilled second))) × (failure_cost worst err ≡ 0))

finish-Fair :
    (first second : Attempt) (worst : ℕ) (r : Round)
    → (¬ MaybeBilled first)
    → IsFair second worst r
    → FairPost first second worst (finish r)
finish-Fair first second worst (return answered) u f = tt
finish-Fair first second worst (return (failed status err)) u (inl (b, c)) = inl (inr (refl, b), c)
finish-Fair first second worst (return (failed status err)) u (inr (n, c)) =
    inr ((λ m. elim m [ inl b ↦ u b | inr (_, b) ↦ n b ]), c)
finish-Fair first second worst (retry status err) u (n, c) =
    inr ((λ m. elim m [ inl b ↦ u b | inr (_, b) ↦ n b ]), c)

go_on-Fair :
    (first second : Attempt) (worst : ℕ) (r : Round)
    → IsFair first worst r
    → FairPost first second worst (go_on r second)
go_on-Fair first second worst (return answered) f = tt
go_on-Fair first second worst (return (failed status err)) (inl (b, c)) = inl (inl b, c)
go_on-Fair first second worst (return (failed status err)) (inr (n, c)) =
    inr ((λ m. elim m [ inl b ↦ n b | inr (two, _) ↦ ground arith ]), c)
go_on-Fair first second worst (retry status err) (u, c) =
    finish-Fair first second worst (attempt second) u (attempt-IsFair second worst)

-- An attempt that was made may have been billed.
abbrev pub SomeBilled : Attempt → Attempt → Type 0
SomeBilled first second = MaybeBilled first ⊎ (((post first second).1 ≡ 2) × MaybeBilled second)

read_fair :
    (first second : Attempt) (worst n status : ℕ) (err : Failure) (p : Posted)
    → p ≡ failed status err
    → FairPost first second worst (p, n)
    → FairPost first second worst (failed status err, n)
read_fair first second worst n status err p e f =
    subst (λ q. FairPost first second worst (q, n)) e f

-- A failure of `_post` is charged the worst case when an attempt that was made may have been billed, and
-- nothing when none can have been.
pub failure_cost_exact :
    (first second : Attempt) (status worst : ℕ) (err : Failure)
    → (post first second).0 ≡ failed status err
    → (SomeBilled first second × (failure_cost worst err ≡ worst))
      ⊎ ((¬ SomeBilled first second) × (failure_cost worst err ≡ 0))
unfolding post
failure_cost_exact first second status worst err h =
    read_fair first second worst (go_on (attempt first) second).1 status err
      (go_on (attempt first) second).0 h
      (go_on-Fair first second worst (attempt first) (attempt-IsFair first worst))

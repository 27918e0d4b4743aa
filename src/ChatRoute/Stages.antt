-- ===== src/ChatRoute/Stages.antt =====
-- Under scripts/files/router-app.py.
-- How the stages of the chat handler in scripts/files/router-app.py go on and stop.
use local_gpu_cluster.Prelude.{◌≡◌, ◌≢◌, refl, ℕ, Bool, true, false, Option, none, some, arith}
use local_gpu_cluster.Prelude.Json.{Fields}
use local_gpu_cluster.AccessKeys.Principal.{Violation}
use local_gpu_cluster.VisionGuard.Check.{MediaCheck, Refusal}
use local_gpu_cluster.ChatRoute.Outcome.{
  Way, Verdict, refused, forwarded, Stage, Reason, go, stop, ◌>>=◌, guard,
}
use local_gpu_cluster.ChatRoute.Route.{or_raise, checked, without_violation}

pub >>=-go :
    {A B : Type 0} (m : Stage A) (f : A → Stage B) (b : B)
    → (m >>= f) ≡ go b
    → (a : A) × (m ≡ go a) × (f a ≡ go b)
>>=-go (go a) f b h = (a, refl, h)
>>=-go (stop v) f b h = absurd cc

pub go_stops : {A : Type 0} {a : A} {v : Verdict} → go a ≡ stop v → ⊥
go_stops h = cc

pub go-injective : {A : Type 0} {a b : A} → go a ≡ go b → a ≡ b
go-injective h = cc

-- A stage that sends nothing on when it stops.
abbrev pub HoldsBack : {A : Type 0} → Stage A → Type 0
HoldsBack m = (v : Verdict) (way : Way) (out : Fields) → m ≡ stop v → v ≢ forwarded way out

pub >>=-HoldsBack :
    {A B : Type 0} (m : Stage A) (f : A → Stage B)
    → HoldsBack m
    → ((a : A) → HoldsBack (f a))
    → HoldsBack (m >>= f)
>>=-HoldsBack (go a) f hm hf v' way out e = hf a v' way out e
>>=-HoldsBack (stop v) f hm hf v' way out e = hm v' way out cc

pub checked-HoldsBack : (c : MediaCheck) (e : Option Refusal) → HoldsBack (checked c e)
checked-HoldsBack c none v way out h k = cc
checked-HoldsBack c (some r) v way out h k = cc

pub checked-go :
    (c : MediaCheck) (e : Option Refusal) (n : ℕ) → checked c e ≡ go n → (e ≡ none) × (n ≡ c.images)
checked-go c none n h = (refl, ground arith)
checked-go c (some r) n h = absurd cc

pub without_violation-HoldsBack : (v : Option Violation) → HoldsBack (without_violation v)
without_violation-HoldsBack none v way out h k = cc
without_violation-HoldsBack (some r) v way out h k = cc

pub without_violation-go :
    (v : Option Violation) (u : Unit {0}) → without_violation v ≡ go u → v ≡ none
without_violation-go none u h = refl
without_violation-go (some v) u h = absurd cc

pub or_raise-HoldsBack : {A : Type 0} (o : Option A) → HoldsBack (or_raise o)
or_raise-HoldsBack none v way out h k = cc
or_raise-HoldsBack (some a) v way out h k = cc

pub or_raise-go : {A : Type 0} (o : Option A) (a : A) → or_raise o ≡ go a → o ≡ some a
or_raise-go none a h = absurd cc
or_raise-go (some a') a h = cc

pub guard-HoldsBack :
    (c : Bool) (status : ℕ) (why : Reason) → HoldsBack (guard c (refused status why))
guard-HoldsBack true status why v way out h k = cc
guard-HoldsBack false status why v way out h k = cc

pub guard-go : (c : Bool) (v : Verdict) (u : Unit {0}) → guard c v ≡ go u → c ≡ true
guard-go true v u h = refl
guard-go false v u h = absurd cc

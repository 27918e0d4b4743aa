-- ===== src/Prelude/Lists.antt =====
-- Lists measured and indexed by native numbers, and predicates on their elements by recursion.
use Prim.Native.Nat.{ℕ, zero, suc, ◌+◌, ◌≤◌}
use mathlib.Core.Path.{◌≡◌, refl}
use mathlib.Core.Bool.{Bool, true, false, ◌||◌, ◌&&◌}
use mathlib.Core.List.{List, [], ◌∷◌, ◌++◌, map}
use mathlib.Core.Option.{Option, none, some}
use mathlib.Core.Logic.{◌⊎◌, inl, inr}
use native.Mathlib.Omega.{arith}

module _ {ℓ} {A : Type ℓ} where
  abbrev pub length : List A → ℕ
  length [] = 0
  length (x ∷ xs) = suc (length xs)

  abbrev pub get_elem? : List A → ℕ → Option A
  get_elem? [] i = none
  get_elem? (x ∷ xs) zero = some x
  get_elem? (x ∷ xs) (suc i) = get_elem? xs i

  -- A write out of bounds changes nothing.
  abbrev pub set : List A → ℕ → A → List A
  set [] i v = []
  set (x ∷ xs) zero v = v ∷ xs
  set (x ∷ xs) (suc i) v = x ∷ set xs i v

  abbrev pub any : (A → Bool) → List A → Bool
  any p [] = false
  any p (x ∷ xs) = p x || any p xs

  abbrev pub all : (A → Bool) → List A → Bool
  all p [] = true
  all p (x ∷ xs) = p x && all p xs

  pub length-append : (xs ys : List A) → length (xs ++ ys) ≡ length xs + length ys
  length-append [] ys = omega arith
  length-append (x ∷ xs) ys = omega (arith, length-append xs ys)

-- A predicate on every element, by recursion.
abbrev pub All {ℓ κ} : {A : Type ℓ} → (A → Type κ) → List A → Type κ
All Holds [] = Unit
All Holds (first ∷ rest) = Holds first × All Holds rest

module _ {ℓ} {A : Type ℓ} (w : A → ℕ) where
  -- The sum of a weight over a list.
  unfoldable pub total : List A → ℕ
  total [] = 0
  total (x ∷ xs) = w x + total xs

  pub total-set :
      (xs : List A) (i : ℕ) (old new : A)
      → get_elem? xs i ≡ some old
      → total (set xs i new) + w old ≡ total xs + w new
  unfolding total
  total-set [] i old new h = ground arith
  total-set (x ∷ xs) zero old new h = ground arith
  total-set (x ∷ xs) (suc i) old new h = omega (arith, total-set xs i old new h)

  pub total-map :
      (f : A → A) (xs : List A) → ((x : A) → w (f x) ≡ w x) → total (map f xs) ≡ total xs
  unfolding total
  total-map f [] h = refl
  total-map f (x ∷ xs) h = omega (arith, h x, total-map f xs h)

  pub total-get-le : (xs : List A) (i : ℕ) (x : A) → get_elem? xs i ≡ some x → w x ≤ total xs
  unfolding total
  total-get-le [] i x h = ground arith
  total-get-le (y ∷ xs) zero x h = ground arith
  total-get-le (y ∷ xs) (suc i) x h = omega (arith, total-get-le xs i x h)

pub total_mono {ℓ} :
    {A : Type ℓ} (v w : A → ℕ) (xs : List A) → ((x : A) → v x ≤ w x) → total v xs ≤ total w xs
unfolding total
total_mono v w [] h = omega arith
total_mono v w (x ∷ xs) h = omega (arith, h x, total_mono v w xs h)

pub total_add {ℓ} :
    {A : Type ℓ} (u v w : A → ℕ) (xs : List A)
    → ((x : A) → w x ≡ u x + v x)
    → total w xs ≡ total u xs + total v xs
unfolding total
total_add u v w [] h = omega arith
total_add u v w (x ∷ xs) h = omega (arith, h x, total_add u v w xs h)

-- A predicate on some element, with the element kept.
abbrev pub Any {ℓ} : {A : Type ℓ} → (A → Type 0) → List A → Type 0
Any P [] = ⊥
Any P (x ∷ xs) = P x ⊎ Any P xs

pub Any-map {ℓ} :
    {A : Type ℓ} (P Q : A → Type 0) → ((x : A) → P x → Q x) → (xs : List A) → Any P xs → Any Q xs
Any-map P Q f (x ∷ xs) (inl p) = inl (f x p)
Any-map P Q f (x ∷ xs) (inr r) = inr (Any-map P Q f xs r)
Any-map P Q f [] h = absurd h

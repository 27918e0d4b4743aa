-- ===== src/TavilyCache/Ordered.antt =====
-- What scripts/files/tavily_cache.py uses of Python's `OrderedDict`: the entries in order, the oldest
-- first.
use mathlib.Core.Bool.{true≢false}
use local_gpu_cluster.Prelude.{
  ℕ, ◌≡◌, refl, sym, ap, ◌∙◌, inl, inr, String, true, false, Option, none, some, List, [], ◌∷◌,
  ◌++◌, arith, str_eq, eq_iff, Bool-cases, if◌then◌else◌,
}

pub record Entry (V : Type 0) : Type 0 where
  pub key : String
  pub stored_at : ℕ
  pub value : V

pub str_eq_refl : (k : String) → str_eq k k ≡ true
str_eq_refl k = (eq_iff k k).1 refl

pub differs_sym : (j k : String) → str_eq j k ≡ false → str_eq k j ≡ false
differs_sym j k h = elim (Bool-cases (str_eq k j)) [
  | inl y ↦ absurd (true≢false (sym (str_eq_refl k) ∙ ap (λ s. str_eq s k) ((eq_iff k j).0 y) ∙ h))
  | inr n ↦ n
]

module _ {V : Type 0} where
  -- d.get(key)
  unfoldable pub find : String → List (Entry V) → Option (Entry V)
  find k [] = none
  find k (e ∷ es) = if str_eq (e.key) k then some e else find k es

  -- del d[key]
  unfoldable pub delete : String → List (Entry V) → List (Entry V)
  delete k [] = []
  delete k (e ∷ es) = if str_eq (e.key) k then es else e ∷ delete k es

  -- d[key] = ..., which keeps the place of a key that is there.
  unfoldable pub assign : Entry V → List (Entry V) → List (Entry V)
  assign new [] = new ∷ []
  assign new (e ∷ es) = if str_eq (e.key) (new.key) then new ∷ es else e ∷ assign new es

  -- What find returns, as a list.
  abbrev pub singleton : Option (Entry V) → List (Entry V)
  singleton none = []
  singleton (some e) = e ∷ []

  -- d.move_to_end(key)
  abbrev pub move_to_end : String → List (Entry V) → List (Entry V)
  move_to_end k es = delete k es ++ singleton (find k es)

  -- An assignment and a move to the end put the new entry last, whatever was there.
  pub move_to_end-assign :
      (new : Entry V) (es : List (Entry V))
      → move_to_end (new.key) (assign new es) ≡ delete (new.key) es ++ new ∷ []
  unfolding assign delete find
  move_to_end-assign new [] = ground (arith, str_eq_refl (new.key))
  move_to_end-assign new (e ∷ es) = ground (arith, str_eq_refl (new.key), move_to_end-assign new es)

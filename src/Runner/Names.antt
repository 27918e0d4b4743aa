-- ===== src/Runner/Names.antt =====
-- Under scripts/files/agent_runner_dispatch.py.
-- Names in lists.
use local_gpu_cluster.Prelude.{
  ◌≡◌, refl, ap, inl, inr, Bool-cases, String, Bool, ◌&&◌, List, [], ◌∷◌, any, str_eq,
  if◌then◌else◌, arith, eq_iff,
}

abbrev pub has : String → List String → Bool
has l = any (str_eq l)

-- [x for x in xs if p(x)]
abbrev pub keep : (String → Bool) → List String → List String
keep p [] = []
keep p (x ∷ xs) = let rest = keep p xs in if p x then x ∷ rest else rest

pub has-keep :
    (l : String) (p : String → Bool) (xs : List String) → has l (keep p xs) ≡ (has l xs && p l)
has-keep l p [] = refl
has-keep l p (x ∷ xs) = elim (Bool-cases (str_eq l x)) [
  | inl e ↦
      let same : p l ≡ p x = ap p (ground (arith, eq_iff l x)) in
      elim (Bool-cases (p x)) [
        | inl y ↦ ground (arith, has-keep l p xs)
        | inr n ↦ ground (arith, has-keep l p xs)
      ]
  | inr e ↦ elim (Bool-cases (p x)) [
    | inl y ↦ ground (arith, has-keep l p xs)
    | inr n ↦ ground (arith, has-keep l p xs)
  ]
]

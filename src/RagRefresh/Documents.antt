-- ===== src/RagRefresh/Documents.antt =====
-- The documents that a handler collects and the state that scripts/rag/lib/state.py keeps of them: a dict
-- from the url, here an association list. The content is text that is split into codes, and SHA-256 is a
-- parameter.
use local_gpu_cluster.Prelude.{
  ℕ, ◌≡◌, refl, inl, inr, String, Bool, true, false, ◌||◌, ◌==◌, Option, none, some, List, [], ◌∷◌,
  ◌++◌, arith, str_eq, eq_iff, Bool-cases, if◌then◌else◌,
}
use local_gpu_cluster.Prelude.Text.{Codes, is_space, between}

-- `Document` of handlers/base.py without its metadata, and the hash that `compute` puts on it.
pub record Document : Type 0 where
  pub url : String
  pub content : Codes
  pub title : String
  pub hash : Option String

-- One entry of documents.json without its metadata and its display name. A key that is missing is `none`.
pub record Entry : Type 0 where
  pub hash : Option String
  pub last_fetched : Option String
  pub allm_doc_path : Option String

abbrev pub State : Type 0
State = List (String × Entry)

-- d.get(url)
unfoldable pub lookup : String → State → Option Entry
lookup u [] = none
lookup u ((k, e) ∷ s) = if str_eq k u then some e else lookup u s

-- d[url] = e
unfoldable pub assign : String → Entry → State → State
assign u e [] = (u, e) ∷ []
assign u e ((k, x) ∷ s) = if str_eq k u then (k, e) ∷ s else (k, x) ∷ assign u e s

-- d.pop(url, None); a dict has a key once.
unfoldable pub pop : String → State → State
pop u [] = []
pop u ((k, e) ∷ s) = if str_eq k u then pop u s else (k, e) ∷ pop u s

-- u in urls, for a set or a list of urls
unfoldable pub mem : String → List String → Bool
mem u [] = false
mem u (v ∷ vs) = if str_eq v u then true else mem u vs

abbrev pub keys : State → List String
keys [] = []
keys ((k, e) ∷ s) = k ∷ keys s

-- The characters that `str.split` splits at: Unicode's white space.
abbrev pub is_blank : ℕ → Bool
is_blank c =
    is_space c
    || c == 5760
    || between 8192 8202 c
    || c == 8232
    || c == 8233
    || c == 8239
    || c == 8287
    || c == 12288

-- " ".join(text.split()), given the word read so far.
unfoldable pub collapse : Codes → Codes → Codes
collapse word [] = word
collapse [] (c ∷ cs) = if is_blank c then collapse [] cs else collapse (c ∷ []) cs
collapse (w ∷ ws) (c ∷ cs) =
    if is_blank c then next (w ∷ ws) (collapse [] cs) else collapse (w ∷ ws ++ c ∷ []) cs
  where
    next : Codes → Codes → Codes
    next word [] = word
    next word rest = word ++ b' ' ∷ rest

pub lookup-assign : (u : String) (e : Entry) (s : State) → lookup u (assign u e s) ≡ some e
unfolding lookup assign
lookup-assign u e [] = rw ((eq_iff u u).1 refl) refl
lookup-assign u e ((k, x) ∷ s) = elim (Bool-cases (str_eq k u)) [
  | inl y ↦ rw (y, y) refl
  | inr n ↦ rw (n, n) (lookup-assign u e s)
]

pub lookup-assign_other :
    (u v : String) (e : Entry) (s : State)
    → str_eq v u ≡ false
    → lookup u (assign v e s) ≡ lookup u s
unfolding lookup assign
lookup-assign_other u v e [] d = rw d refl
lookup-assign_other u v e ((k, x) ∷ s) d =
    ground (arith, lookup-assign_other u v e s, eq_iff k u, eq_iff k v)

pub lookup-pop : (u : String) (s : State) → lookup u (pop u s) ≡ none
unfolding lookup pop
lookup-pop u [] = refl
lookup-pop u ((k, e) ∷ s) = ground (arith, lookup-pop u s)

pub lookup-pop_other :
    (u v : String) (s : State) → str_eq v u ≡ false → lookup u (pop v s) ≡ lookup u s
unfolding lookup pop
lookup-pop_other u v [] d = refl
lookup-pop_other u v ((k, e) ∷ s) d = ground (arith, lookup-pop_other u v s, eq_iff k u, eq_iff k v)

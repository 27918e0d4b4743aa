-- ===== src/AccessKeys/Entries.antt =====
-- What the entries are that `KeyStore` of scripts/files/access_keys.py keeps and matches.
use local_gpu_cluster.Prelude.{
  ◌<◌, ◌≡◌, ◌≢◌, refl, sym, ◌⊎◌, inl, inr, String, true, false, Option, none, some, List, [], ◌∷◌,
  ◌++◌, ap, arith, All, Any, length, if◌then◌else◌, Bool-cases,
}
use mathlib.Core.Path.{subst}
use mathlib.Core.Option.{some-injective}
use local_gpu_cluster.Prelude.Text.{Codes, codes_eq, codes_eq_iff}
use local_gpu_cluster.Prelude.Json.{Value, str, arr, nil, cons}
use local_gpu_cluster.AccessKeys.Principal.{Principal, scoped}
use local_gpu_cluster.AccessKeys.Store.{
  Attempt, ok, skipped, crashed, Entry, valid_name, valid_sha256, check_entry, parse_name,
  parse_sha256, parse_aliases, item, parse_entry, Content, unreadable, parsed, raw_entries,
  parse_entries, parse_content, find_match, ◌>>=◌, alias_items, keep,
}

-- The JSON values that a keys file offers as entries.
abbrev pub file_entries : Content → List Value
file_entries unreadable = []
file_entries (parsed v) = raw_entries v

parse_aliases-nonempty : (v : Value) (a : List String) → parse_aliases v ≡ ok a → 0 < length a
unfolding parse_aliases alias_items
parse_aliases-nonempty (arr (cons (str s) vs)) a h = ground arith
parse_aliases-nonempty (arr nil) a h = ground arith
parse_aliases-nonempty v a h = ground arith

parse_name-valid : (v : Value) (name : String) → parse_name v ≡ ok name → valid_name name ≡ true
unfolding parse_name
parse_name-valid (str s) name h = ground arith
parse_name-valid v name h = ground arith

parse_sha256-length : (v : Value) (d : Codes) → parse_sha256 v ≡ ok d → valid_sha256 d ≡ true
unfolding parse_sha256
parse_sha256-length (str s) d h = ground arith
parse_sha256-length v d h = ground arith

-- What a valid entry is.
pub record IsScoped (digest : Codes) (p : Principal) : Type 0 where
  pub kind : p.kind ≡ scoped
  pub name : valid_name p.name ≡ true
  pub hash : valid_sha256 digest ≡ true
  pub has_alias : 0 < length p.aliases
  pub expires : p.expires ≢ none

module _ (name_item sha256_item aliases_item expires_item : Value) (d : Codes) (p : Principal) where
  check_entry-IsScoped :
      check_entry name_item sha256_item aliases_item expires_item ≡ ok (d, p) → IsScoped d p
  unfolding check_entry
  check_entry-IsScoped h =
      let name = parse_name-valid name_item p.name in
      let hash = parse_sha256-length sha256_item d in
      let has_alias = parse_aliases-nonempty aliases_item p.aliases in ground arith

-- A successful chain has a successful rest.
pub bind_ind {ℓ κ μ} :
    {A : Type ℓ} {B : Type κ} {P : Type μ} (m : Attempt A) (f : A → Attempt B) (b : B)
    → ((a : A) → m ≡ ok a → f a ≡ ok b → P)
    → (m >>= f) ≡ ok b
    → P
bind_ind (ok a) f b k h = k a refl h
bind_ind skipped f b k h = cc
bind_ind crashed f b k h = cc

-- Whatever the JSON value, an entry that is accepted has a scoped principal, whose name is not
-- the owner's, with at least one alias, an expiry and a digest of 64 characters.
pub parse_entry-IsScoped :
    (v : Value) (d : Codes) (p : Principal) → parse_entry v ≡ ok (d, p) → IsScoped d p
unfolding parse_entry
parse_entry-IsScoped v d p =
    bind_ind (item "name" v) _ (d, p)
      λ n _.
        bind_ind (item "sha256" v) _ (d, p)
          λ s _.
            bind_ind (item "aliases" v) _ (d, p)
              λ a _. bind_ind (item "expires" v) _ (d, p) (λ e _. check_entry-IsScoped n s a e d p)

module _ (d : Codes) (p : Principal) where
  abbrev pub IsTheirs : Entry → Type 0
  IsTheirs e = e ≡ (d, p)

  abbrev pub ParsesTo : Value → Type 0
  ParsesTo v = parse_entry v ≡ ok (d, p)

  keep-Any :
      (a : Attempt Entry) (rest : Option (List Entry)) {es : List Entry}
      → keep a rest ≡ some es
      → Any IsTheirs es
      → (a ≡ ok (d, p)) ⊎ ((r : List Entry) × (rest ≡ some r) × Any IsTheirs r)
  keep-Any (ok e) none h m = cc
  keep-Any (ok e) (some r) h m = elim (subst (Any IsTheirs) (some-injective _ _ (sym h)) m) [
    | inl q ↦ inl (ap ok q)
    | inr q ↦ inr (r, refl, q)
  ]
  keep-Any skipped none h m = cc
  keep-Any skipped (some r) h m = inr (r, refl, subst (Any IsTheirs) (some-injective _ _ (sym h)) m)
  keep-Any crashed rest h m = cc

  -- What the reload keeps was parsed from one of the values.
  parse_entries-Any :
      (vs : List Value) (es : List Entry)
      → parse_entries vs ≡ some es
      → Any IsTheirs es
      → Any ParsesTo vs
  unfolding parse_entries
  parse_entries-Any [] es h m = subst (Any IsTheirs) (some-injective _ _ (sym h)) m
  parse_entries-Any (v ∷ vs) es h m = elim (keep-Any (parse_entry v) (parse_entries vs) h m) [
    | inl q ↦ inl q
    | inr (r, e, q) ↦ inr (parse_entries-Any vs r e q)
  ]

  -- The match is an entry with this digest, or the one that was found before.
  pub find_match-Any :
      (es : List Entry) (found : Option Principal)
      → find_match d es found ≡ some p
      → Any IsTheirs es ⊎ (found ≡ some p)
  unfolding find_match
  find_match-Any [] found h = inr h
  find_match-Any ((stored, q) ∷ es) found h =
      elim (find_match-Any es (if codes_eq d stored then some q else found) h) [
        | inl m ↦ inl (inr m)
        | inr e ↦ elim (Bool-cases (codes_eq d stored)) [
          | inl same ↦ inl (inl (ground (arith, codes_eq_iff d stored)))
          | inr other ↦ inr (ground arith)
        ]
      ]

pub find_match-absent :
    (d : Codes) (es : List Entry) (found : Option Principal)
    → All (λ e. codes_eq d e.0 ≡ false) es
    → find_match d es found ≡ found
unfolding find_match
find_match-absent d [] found h = refl
find_match-absent d ((stored, q) ∷ es) found h = rw h.0 (find_match-absent d es found h.1)

pub find_match-last :
    (d : Codes) (p : Principal) (es : List Entry) (found : Option Principal)
    → find_match d (es ++ (d, p) ∷ []) found ≡ some p
unfolding find_match
find_match-last d p [] found = rw ((codes_eq_iff d d).1 refl)
find_match-last d p ((stored, q) ∷ es) found =
    find_match-last d p es (if codes_eq d stored then some q else found)

module _ (d : Codes) (p : Principal) where
  pub content-Any :
      (c : Content) (es : List Entry)
      → parse_content c ≡ some es
      → Any (IsTheirs d p) es
      → Any (ParsesTo d p) (file_entries c)
  unfolding parse_content
  content-Any unreadable es h m = subst (Any (IsTheirs d p)) (some-injective _ _ (sym h)) m
  content-Any (parsed v) es h m = parse_entries-Any d p (raw_entries v) es h m

-- ===== src/AccessKeys/Revocation.antt =====
-- `router-keys revoke` against the router's reader of the keys file.
use mathlib.Core.Path.{subst}
use mathlib.Core.Option.{some-injective}
use local_gpu_cluster.Prelude.{
  ◌≡◌, refl, sym, ap, ◌∙◌, ◌⊎◌, inl, inr, String, Bool, true, false, Option, none, some, List, [],
  ◌∷◌, arith, str_eq, if◌then◌else◌,
}
use local_gpu_cluster.Prelude.Text.{Codes}
use local_gpu_cluster.Prelude.Json.{
  Value, null, str, arr, obj, Items, nil, cons, Fields, to_list, get, put,
}
use local_gpu_cluster.AccessKeys.Principal.{Principal}
use local_gpu_cluster.AccessKeys.Store.{
  Attempt, ok, skipped, crashed, item, parse_name, check_entry, parse_entry, Entry, Content, parsed,
  keep, parse_entries,
}
use local_gpu_cluster.AccessKeys.Entries.{bind_ind}
use local_gpu_cluster.AccessKeys.RouterKeys.{
  loaded, load, named, equals, without_named, keep_item, by_name, cmd_revoke,
}

item-get :
    (k : String) (v w : Value)
    → item k v ≡ ok w
    → (fs : Fields) × (v ≡ obj fs) × (get k fs ≡ some w)
unfolding item
item-get k (obj fs) w h = (fs, refl, ground arith)
item-get k null w h = cc
item-get k v w h = cc

parse_name-str : (v : Value) (n : String) → parse_name v ≡ ok n → v ≡ str n
unfolding parse_name
parse_name-str (str s) n h = ground arith
parse_name-str null n h = cc
parse_name-str v n h = cc

check_entry-name :
    (n s a e : Value) (d : Codes) (p : Principal) → check_entry n s a e ≡ ok (d, p) → n ≡ str p.name
unfolding check_entry
check_entry-name n s a e d p h = ground (arith, parse_name-str n p.name)

parse_entry-item :
    (v : Value) (d : Codes) (p : Principal)
    → parse_entry v ≡ ok (d, p)
    → item "name" v ≡ ok (str p.name)
unfolding parse_entry
parse_entry-item v d p =
    bind_ind (item "name" v) _ (d, p)
      λ n hn.
        bind_ind (item "sha256" v) _ (d, p)
          λ s _.
            bind_ind (item "aliases" v) _ (d, p)
              λ a _.
                bind_ind (item "expires" v) _ (d, p)
                  λ e _ h. subst (λ x. item "name" v ≡ ok x) (check_entry-name n s a e d p h) hn

-- A valid entry is named as its principal is.
pub parse_entry-named :
    (v : Value) (d : Codes) (p : Principal) (name : String)
    → parse_entry v ≡ ok (d, p)
    → named name v ≡ some (str_eq p.name name)
parse_entry-named v d p name h =
    let (fs, e, g) = item-get "name" v (str p.name) (parse_entry-item v d p h) in
    rw e (ap (λ o. some (equals name o)) g)

-- The entries of the other principals, in their order.
abbrev pub drop_named : String → List Entry → List Entry
drop_named name [] = []
drop_named name ((d, p) ∷ es) =
    if str_eq p.name name then drop_named name es else (d, p) ∷ drop_named name es

module _ (name : String) where
  -- One round of the filter, against one round of the reload loop.
  keep-drop :
      (b : Bool) (a : Attempt Entry) (old new : Option (List Entry)) (es : List Entry)
      → ((d : Codes) (p : Principal) → a ≡ ok (d, p) → str_eq p.name name ≡ b)
      → ((r : List Entry) → old ≡ some r → new ≡ some (drop_named name r))
      → keep a old ≡ some es
      → (if b then new else keep a new) ≡ some (drop_named name es)
  keep-drop b (ok (d, p)) none new es fits ih h = cc
  keep-drop true (ok (d, p)) (some r) new es fits ih h =
      ih r refl
      ∙ ap some (sym (ap (drop_named name) (some-injective _ _ (sym h)) ∙ rw (fits d p refl)))
  keep-drop false (ok (d, p)) (some r) new es fits ih h =
      ap (keep (ok (d, p))) (ih r refl)
      ∙ ap some (sym (ap (drop_named name) (some-injective _ _ (sym h)) ∙ rw (fits d p refl)))
  keep-drop true skipped old new es fits ih h = ih es h
  keep-drop false skipped old new es fits ih h = ih es h
  keep-drop b crashed old new es fits ih h = cc

  keep_item-cases :
      (b : Option Bool) (e : Value) (rest : Option Items) (kept : Items)
      → keep_item b e rest ≡ some kept
      → ((b ≡ some true) × (rest ≡ some kept))
        ⊎ ((k : Items) × (b ≡ some false) × (rest ≡ some k) × (kept ≡ cons e k))
  keep_item-cases none e rest kept h = cc
  keep_item-cases (some true) e rest kept h = inl (refl, h)
  keep_item-cases (some false) e none kept h = cc
  keep_item-cases (some false) e (some k) kept h = inr (k, refl, refl, ground arith)

  fits_of :
      (v : Value) {b : Bool}
      → named name v ≡ some b
      → (d : Codes) (p : Principal) → parse_entry v ≡ ok (d, p)
      → str_eq p.name name ≡ b
  fits_of v n d p h = some-injective _ _ (sym (parse_entry-named v d p name h) ∙ n)

  -- What the router loads after the filter: the entries of the other names, and all of those.
  pub without_named-entries :
      (keys kept : Items) (es : List Entry)
      → without_named name keys ≡ some kept
      → parse_entries (to_list keys) ≡ some es
      → parse_entries (to_list kept) ≡ some (drop_named name es)
  unfolding without_named parse_entries
  without_named-entries nil kept es h p =
      rw (← some-injective _ _ h)
        (ap (λ (l : List Entry). some (drop_named name l)) (some-injective _ _ p))
  without_named-entries (cons v vs) kept es h p =
      elim (keep_item-cases (named name v) v (without_named name vs) kept h) [
        | inl (n, r) ↦
            keep-drop true (parse_entry v) (parse_entries (to_list vs))
              (parse_entries (to_list kept)) es (fits_of v n)
              (λ q e. without_named-entries vs kept q r e) p
        | inr (k, n, r, e) ↦ rw e (
            keep-drop false (parse_entry v) (parse_entries (to_list vs)) (parse_entries (to_list k))
              es (fits_of v n) (λ q i. without_named-entries vs k q r i) p)
      ]

module _ (file : Option Content) (name : String) where
  record Revoked : Type 0 where
    fs : Fields
    keys : Items
    kept : Items
    read : load file ≡ loaded fs keys
    filtered : without_named name keys ≡ some kept
    left : (cmd_revoke file (by_name name)).file ≡ some (parsed (obj (put "keys" (arr kept) fs)))

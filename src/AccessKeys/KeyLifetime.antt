-- ===== src/AccessKeys/KeyLifetime.antt =====
-- The keys file's writer and its reader together: a key that `router-keys add` issues lets its
-- holder in at the router's next request, and one that `router-keys revoke` removes does not.
use local_gpu_cluster.Prelude.{
  ◌≡◌, ◌≢◌, refl, sym, ap, ◌∙◌, ◌⊎◌, inl, inr, String, Bool, true, false, Option, none, some, List,
  [], ◌∷◌, ◌++◌, map, arith, All, all, length, str_eq,
}
use mathlib.Core.Option.{some-injective}
use local_gpu_cluster.Prelude.Int.{ℤ, ◌+ℤ◌, ◌<ℤ◌}
use local_gpu_cluster.Prelude.Text.{Codes, codes, lower_ascii}
use local_gpu_cluster.Prelude.Json.{
  Value, str, arr, obj, Float, Items, nil, cons, Fields, to_list, get, put, get-put,
}
use local_gpu_cluster.AccessKeys.Principal.{Principal, scoped}
use local_gpu_cluster.AccessKeys.Store.{
  Attempt, ok, skipped, crashed, item, is_hex, valid_name, valid_sha256, parse_name, parse_sha256,
  parse_aliases, parse_expires, alias_items, check_entry, parse_entry, Entry, Content, unreadable,
  parsed, KeysFile, Cache, raw_entries, keep, parse_entries, parse_content, cached, someone,
  authenticate,
}
use local_gpu_cluster.AccessKeys.Authentication.{added_at_once}
use local_gpu_cluster.AccessKeys.RouterKeys.{
  Loaded, failed, loaded, load, load_object, push_item, strip_words, split_comma, to_items,
  new_entry, ticks, Outcome, write_key, cmd_add,
}

map-lower_ascii-hex : (cs : Codes) → all is_hex cs ≡ true → map lower_ascii cs ≡ cs
map-lower_ascii-hex [] h = refl
map-lower_ascii-hex (c ∷ cs) h = ground (arith, map-lower_ascii-hex cs)

parse_sha256-hex :
    (d : String) → valid_sha256 (codes d) ≡ true → parse_sha256 (str d) ≡ ok (codes d)
unfolding parse_sha256 valid_sha256
parse_sha256-hex d h = rw (map-lower_ascii-hex (codes d) (ground arith)) (ground arith)

alias_items-to_items :
    (words : List String)
    → All (λ a. str_eq a "" ≡ false) words
    → alias_items (to_list (to_items words)) ≡ ok words
unfolding alias_items
alias_items-to_items [] h = refl
alias_items-to_items (w ∷ ws) h = rw (h.0, alias_items-to_items ws h.1)

parse_aliases-to_items :
    (words : List String)
    → All (λ a. str_eq a "" ≡ false) words
    → length words ≢ 0
    → parse_aliases (arr (to_items words)) ≡ ok words
unfolding parse_aliases
parse_aliases-to_items [] h ne = absurd (ne refl)
parse_aliases-to_items (w ∷ ws) h ne = alias_items-to_items (w ∷ ws) h

strip_words-nonempty : (ws : List String) → All (λ a. str_eq a "" ≡ false) (strip_words ws)
unfolding strip_words
strip_words-nonempty [] = tt
strip_words-nonempty (w ∷ ws) = ground (arith, strip_words-nonempty ws)

-- The principal of an issued key.
abbrev pub issued : String → List String → ℤ → Principal
issued name aliases expires = record {
  name = name;
  kind = scoped;
  aliases = aliases;
  expires = some expires;
}

parse_entry-new_entry :
    (name digest : String) (words : List String) (expires : ℤ)
    → valid_name name ≡ true
    → valid_sha256 (codes digest) ≡ true
    → All (λ a. str_eq a "" ≡ false) words
    → length words ≢ 0
    → parse_entry (new_entry name digest words expires)
      ≡ ok (codes digest, issued name words expires)
unfolding parse_entry check_entry item get parse_name parse_expires
parse_entry-new_entry name digest words expires hn hd ha ne =
    rw (hn, parse_sha256-hex digest hd, parse_aliases-to_items words ha ne)

keep-push :
    (a : Attempt Entry) (rest rest' : Option (List Entry)) (e : Entry) (es : List Entry)
    → keep a rest ≡ some es
    → ((r : List Entry) → rest ≡ some r → rest' ≡ some (r ++ e ∷ []))
    → keep a rest' ≡ some (es ++ e ∷ [])
keep-push (ok x) none rest' e es h k = cc
keep-push (ok x) (some r) rest' e es h k =
    rw (k r refl) (ap (λ (l : List Entry). some (l ++ e ∷ [])) (some-injective _ _ h))
keep-push skipped rest rest' e es h k = k es h
keep-push crashed rest rest' e es h k = cc

parse_entries-push :
    (keys : Items) (v : Value) (e : Entry) (es : List Entry)
    → parse_entries (to_list keys) ≡ some es
    → parse_entry v ≡ ok e
    → parse_entries (to_list (push_item keys v)) ≡ some (es ++ e ∷ [])
unfolding parse_entries
parse_entries-push nil v e es h p =
    rw p (ap (λ (l : List Entry). some (l ++ e ∷ [])) (some-injective _ _ h))
parse_entries-push (cons k ks) v e es h p =
    keep-push (parse_entry k) (parse_entries (to_list ks))
      (parse_entries (to_list (push_item ks v))) e es h (λ r q. parse_entries-push ks v e r q p)

pub raw_entries-put :
    (ks : Items) (fs : Fields) → raw_entries (obj (put "keys" (arr ks) fs)) ≡ to_list ks
raw_entries-put ks fs = ground (arith, get-put "keys" "keys" (arr ks) fs)

pub Loaded-cases :
    (l : Loaded) → (l ≡ failed) ⊎ ((fs : Fields) × (keys : Items) × (l ≡ loaded fs keys))
Loaded-cases failed = inl refl
Loaded-cases (loaded fs keys) = inr (fs, keys, refl)

-- What the router would load from the file before the change; a missing file has no entries.
abbrev pub entries_of : Option Content → Option (List Entry)
entries_of none = some []
entries_of (some c) = parse_content c

raw_entries-load :
    (o : Fields) {fs : Fields} {keys : Items} (v : Option Value)
    → get "keys" o ≡ v
    → load_object o v ≡ loaded fs keys
    → raw_entries (obj o) ≡ to_list keys
raw_entries-load o none e h = cc
raw_entries-load o (some (arr ks)) e h = ground arith
raw_entries-load o (some v) e h = cc

pub load-entries :
    (file : Option Content) (fs : Fields) (keys : Items)
    → load file ≡ loaded fs keys
    → entries_of file ≡ parse_entries (to_list keys)
unfolding load parse_content
load-entries none fs keys h = let e : keys ≡ nil = ground arith in rw e refl
load-entries (some unreadable) fs keys h = cc
load-entries (some (parsed (obj o))) fs keys h =
    ap parse_entries (raw_entries-load o (get "keys" o) refl h)
load-entries (some (parsed v)) fs keys h = cc

module _ (sha256 : String → String) (file : Option Content) (now : ℤ) (key : String)
    (out_exists : Bool) (name aliases : String) (ttl : Float) where
  abbrev words : List String
  words = strip_words (split_comma aliases)

  abbrev outcome : Outcome
  outcome = cmd_add sha256 file now key out_exists name aliases ttl

  -- What a successful `add` has seen and left.
  record Added : Type 0 where
    fs : Fields
    keys : Items
    read : load file ≡ loaded fs keys
    good_name : valid_name name ≡ true
    some_word : length words ≢ 0
    left :
        outcome.file
        ≡ some (
            parsed (
              obj (
                put "keys"
                  (arr (push_item keys (new_entry name (sha256 key) words (now +ℤ ticks ttl))))
                  fs)))

  cmd_add-Added : outcome.status ≡ some 0 → Added
  unfolding cmd_add write_key valid_name
  cmd_add-Added h = elim (Loaded-cases (load file)) [
    | inl e ↦ absurd (ground arith)
    | inr (fs, keys, e) ↦ record {
      fs = fs;
      keys = keys;
      read = e;
      good_name = ground arith;
      some_word = ground arith;
      left = ground arith;
    }
  ]

  -- A key that `add` has issued (exit status 0) lets its holder in at the next request, with the
  -- name and the aliases of the command, until its lifetime has passed; if SHA-256 prints 64
  -- lower-case hex digits, the replaced file has a new signature, and the file before the change
  -- had no entry that makes the reload raise.
  pub issued_key_works :
      (owner_key : String) (before : List Entry) (f : KeysFile) (c : Cache) (later : ℤ)
      → ((s : String) → valid_sha256 (codes (sha256 s)) ≡ true)
      → outcome.status ≡ some 0
      → outcome.file ≡ some f.content
      → entries_of file ≡ some before
      → cached c.sig f.sig ≡ false
      → key ≢ owner_key
      → key ≢ ""
      → later <ℤ now +ℤ ticks ttl
      → (authenticate (λ s. codes (sha256 s)) owner_key (some f) later key c).1
        ≡ someone (issued name words (now +ℤ ticks ttl))
  issued_key_works owner_key before f c later hex done written old changed other given live =
      let a = cmd_add-Added done in
      let expires = now +ℤ ticks ttl in
      let entry = new_entry name (sha256 key) words expires in
      let parses =
        parse_entry-new_entry name (sha256 key) words expires a.good_name (hex key)
          (strip_words-nonempty (split_comma aliases)) a.some_word in
      let keys_parse = sym (load-entries file a.fs a.keys a.read) ∙ old in
      let now_parse =
        parse_entries-push a.keys entry (codes (sha256 key), issued name words expires) before
          keys_parse parses in
      let content : f.content ≡ parsed (obj (put "keys" (arr (push_item a.keys entry)) a.fs)) =
        some-injective _ _ (sym written ∙ a.left) in
      added_at_once (λ s. codes (sha256 s)) owner_key f later key c before
        (issued name words expires) changed
        (ap parse_content content
          ∙ unfold parse_content in
            (ap parse_entries (raw_entries-put (push_item a.keys entry) a.fs) ∙ now_parse))
        live other given

-- ===== src/AccessKeys/Store.antt =====
-- `_parse_entry` and `KeyStore` of scripts/files/access_keys.py. The file system and the clock
-- are arguments, and SHA-256 is a parameter.
use local_gpu_cluster.Prelude.{
  ℕ, ◌+◌, ◌-◌, ◌*◌, ◌^◌, String, Bool, true, false, not, ◌&&◌, ◌||◌, Option, none, some, List, [],
  ◌∷◌, map, all, length, leb, ltb, ◌==◌, str_eq, if◌then◌else◌,
}
use local_gpu_cluster.Prelude.Int.{ℤ, pos, negsuc, leb_ℤ, pos_part, neg_part}
use local_gpu_cluster.Prelude.Text.{Codes, codes, between, codes_eq, lower_ascii}
use local_gpu_cluster.Prelude.Json.{Value, int, float, str, arr, obj, finite, cons, to_list, get}
use local_gpu_cluster.AccessKeys.Principal.{Principal, scoped, owner_principal}

-- One step of `_parse_entry`: a value, an exception that the reload loop catches (`KeyError`,
-- `TypeError`, `ValueError`), or one that it does not (`OverflowError`).
pub data Attempt {ℓ} (A : Type ℓ) : Type ℓ where
  ok : A → Attempt A
  skipped crashed : Attempt A

infixl 5 ◌>>=◌
abbrev pub ◌>>=◌ {ℓ κ} : {A : Type ℓ} {B : Type κ} → Attempt A → (A → Attempt B) → Attempt B
ok a >>= f = f a
skipped >>= f = skipped
crashed >>= f = crashed

abbrev pub check : Bool → Attempt (Unit {0})
check true = ok tt
check false = skipped

infixl 5 ◌>>◌
abbrev pub ◌>>◌ {ℓ} : {B : Type ℓ} → Attempt (Unit {0}) → Attempt B → Attempt B
m >> k = m >>= λ _. k

-- e[k], for any JSON value e
unfoldable pub item : String → Value → Attempt Value
item k (obj fs) = elim (get k fs) [ none ↦ skipped | some v ↦ ok v ]
item k _ = skipped

abbrev pub is_alnum : ℕ → Bool
is_alnum c = between b'a' b'z' c || between b'0' b'9' c

abbrev pub is_name_char : ℕ → Bool
is_name_char c = is_alnum c || c == b'.' || c == b'_' || c == b'-'

-- NAME_RE.fullmatch: [a-z0-9][a-z0-9._-]{0,63}
abbrev pub name_matches : Codes → Bool
name_matches [] = false
name_matches (c ∷ cs) = is_alnum c && all is_name_char cs && leb (length cs) 63

unfoldable pub valid_name : String → Bool
valid_name name = name_matches (codes name) && not (str_eq name "owner")

abbrev pub is_hex : ℕ → Bool
is_hex c = between b'0' b'9' c || between b'a' b'f' c

-- _SHA256_RE.fullmatch: [0-9a-f]{64}
unfoldable pub valid_sha256 : Codes → Bool
valid_sha256 digest = all is_hex digest && length digest == 64

unfoldable pub parse_name : Value → Attempt String
parse_name (str name) = check (valid_name name) >> ok name
parse_name _ = skipped

unfoldable pub parse_sha256 : Value → Attempt Codes
parse_sha256 (str digest) =
    let lowered = map lower_ascii (codes digest) in check (valid_sha256 lowered) >> ok lowered
parse_sha256 _ = skipped

-- Every element is a non-empty string.
unfoldable pub alias_items : List Value → Attempt (List String)
alias_items [] = ok []
alias_items (str a ∷ vs) = do check (not (str_eq a "")); rest ← alias_items vs; ok (a ∷ rest)
alias_items (_ ∷ vs) = skipped

unfoldable pub parse_aliases : Value → Attempt (List String)
parse_aliases (arr (cons v vs)) = alias_items (v ∷ to_list vs)
parse_aliases _ = skipped

-- The length of a second in ticks, and the first integer that no float can hold.
abbrev pub second : ℕ
second = 1000000

abbrev pub float_limit : ℕ
float_limit = 2 ^ 1024 - 2 ^ 970

abbrev pub magnitude : ℤ → ℕ
magnitude z = pos_part z + neg_part z

abbrev pub seconds : ℤ → ℤ
seconds (pos n) = pos (n * second)
seconds (negsuc n) = negsuc (n * second + second - 1)

-- `math.isfinite` of an integer beyond the floats raises OverflowError.
unfoldable pub parse_expires : Value → Attempt ℤ
parse_expires (int z) = if ltb (magnitude z) float_limit then ok (seconds z) else crashed
parse_expires (float (finite t)) = ok t
parse_expires _ = skipped

abbrev pub Entry : Type 0
Entry = Codes × Principal

-- The checks, in the order in which the code makes them.
unfoldable pub check_entry : Value → Value → Value → Value → Attempt Entry
check_entry name_item sha256_item aliases_item expires_item = do
  name ← parse_name name_item
  digest ← parse_sha256 sha256_item
  aliases ← parse_aliases aliases_item
  expires ← parse_expires expires_item
  ok (digest, record { name = name; kind = scoped; aliases = aliases; expires = some expires })

-- All four fields are read before the first is checked.
unfoldable pub parse_entry : Value → Attempt Entry
parse_entry e = do
  name_item ← item "name" e
  sha256_item ← item "sha256" e
  aliases_item ← item "aliases" e
  expires_item ← item "expires" e
  check_entry name_item sha256_item aliases_item expires_item

-- (st_ino, st_mtime_ns, st_size)
pub record Signature : Type 0 where
  pub inode : ℕ
  pub mtime : ℕ
  pub size : ℕ

abbrev pub same_signature : Signature → Signature → Bool
same_signature a b = a.inode == b.inode && a.mtime == b.mtime && a.size == b.size

-- What `open` and `json.load` make of the file.
pub data Content : Type 0 where
  unreadable : Content
  parsed : Value → Content

pub record KeysFile : Type 0 where
  pub sig : Signature
  pub content : Content

-- json.load(f).get("keys", []); only a list is gone through.
abbrev pub raw_entries : Value → List Value
raw_entries (obj fs) = elim (get "keys" fs) [ some (arr vs) ↦ to_list vs | _ ↦ [] ]
raw_entries _ = []

-- One round of the reload loop: what the entry and the rest of the loop come to.
abbrev pub keep : Attempt Entry → Option (List Entry) → Option (List Entry)
keep (ok e) none = none
keep (ok e) (some es) = some (e ∷ es)
keep skipped rest = rest
keep crashed rest = none

-- The reload loop. `none` is the exception that it does not catch.
unfoldable pub parse_entries : List Value → Option (List Entry)
parse_entries [] = some []
parse_entries (v ∷ vs) = keep (parse_entry v) (parse_entries vs)

unfoldable pub parse_content : Content → Option (List Entry)
unfolding parse_entries
parse_content unreadable = some []
parse_content (parsed v) = parse_entries (raw_entries v)

-- `_sig` and `_entries`.
pub record Cache : Type 0 where
  pub sig : Option Signature
  pub entries : List Entry

abbrev pub empty_cache : Cache
empty_cache = record { sig = none; entries = [] }

abbrev pub cached : Option Signature → Signature → Bool
cached none sig = false
cached (some old) sig = same_signature sig old

-- `_reload_if_changed`. The flag is set where an exception leaves it: then the new signature
-- is stored beside the old entries.
unfoldable pub reload_if_changed : Option KeysFile → Cache → Cache × Bool
reload_if_changed none c = (empty_cache, false)
reload_if_changed (some f) c =
    if cached c.sig f.sig then (c, false) else elim (parse_content f.content) [
      | none ↦ (record c { sig = some f.sig }, true)
      | some entries ↦ (record { sig = some f.sig; entries = entries }, false)
    ]

-- The loop of `authenticate` over the entries: the last match wins.
unfoldable pub find_match : Codes → List Entry → Option Principal → Option Principal
find_match digest [] found = found
find_match digest ((stored, p) ∷ es) found =
    find_match digest es (if codes_eq digest stored then some p else found)

pub data Answer : Type 0 where
  raises nobody : Answer
  someone : Principal → Answer

-- match.expires is not None and self._clock() >= match.expires
abbrev pub has_expired : ℤ → Option ℤ → Bool
has_expired now none = false
has_expired now (some t) = leb_ℤ t now

abbrev pub unexpired : ℤ → Option Principal → Answer
unexpired now none = nobody
unexpired now (some p) = if has_expired now p.expires then nobody else someone p

-- self._owner and hmac.compare_digest(presented, self._owner)
abbrev pub is_owner_key : String → String → Bool
is_owner_key owner_key presented = not (str_eq owner_key "") && str_eq presented owner_key

module _ (sha256_hex : String → Codes) (owner_key : String) where
  -- The answer once the entries are loaded.
  abbrev pub match_entries : String → ℤ → List Entry → Answer
  match_entries presented now entries =
      unexpired now (find_match (sha256_hex presented) entries none)

  unfoldable pub authenticate : Option KeysFile → ℤ → String → Cache → Cache × Answer
  authenticate file now presented c =
      if str_eq presented ""
      then (c, nobody)
      else if is_owner_key owner_key presented
      then (c, someone owner_principal)
      else let (c', failed) = reload_if_changed file c in
        (c', if failed then raises else match_entries presented now c'.entries)

-- ===== src/AccessKeys/RouterKeys.antt =====
-- scripts/files/router-keys.py: `add`, `revoke` and `list` on the keys file. The file's lock is
-- held across each of them, so one invocation is one step. SHA-256, the random key and the clock
-- are arguments.
use Prim.Native.Char.{Char, code}
use local_gpu_cluster.Prelude.{
  ℕ, ◌+◌, ◌*◌, String, Bool, true, false, not, ◌&&◌, ◌||◌, Option, none, some, List, [], ◌∷◌,
  length, ◌==◌, str_eq, if◌then◌else◌,
}
use local_gpu_cluster.Prelude.Int.{ℤ, pos, ◌+ℤ◌, ltb_ℤ, leb_ℤ}
use local_gpu_cluster.Prelude.Text.{codes, strip}
use local_gpu_cluster.Prelude.Json.{
  Value, float, str, arr, obj, Float, finite, not_finite, Items, nil, cons, Fields, end, field, get,
  put,
}
use local_gpu_cluster.AccessKeys.Store.{Content, parsed, name_matches, second}

-- What `_load` gives: the parsed object and its list of keys, or an exception.
pub data Loaded : Type 0 where
  failed : Loaded
  loaded : Fields → Items → Loaded

abbrev pub load_object : Fields → Option Value → Loaded
load_object fs (some (arr keys)) = loaded fs keys
load_object fs _ = failed

-- `none` is a missing file.
unfoldable pub load : Option Content → Loaded
load none = loaded (field "keys" (arr nil) end) nil
load (some (parsed (obj fs))) = load_object fs (get "keys" fs)
load (some _) = failed

-- e.get("name") == name, or `none` where `e` is no dict and the call raises
abbrev pub equals : String → Option Value → Bool
equals name (some (str s)) = str_eq s name
equals name _ = false

abbrev pub named : String → Value → Option Bool
named name (obj fs) = some (equals name (get "name" fs))
named name _ = none

-- any(e.get("name") == name for e in keys), which stops at the first match
unfoldable pub any_named : String → Items → Option Bool
any_named name nil = some false
any_named name (cons e es) =
    let rest = any_named name es in
    elim (named name e) [ none ↦ none | some b ↦ if b then some true else rest ]

abbrev pub keep_item : Option Bool → Value → Option Items → Option Items
keep_item none e rest = none
keep_item (some true) e rest = rest
keep_item (some false) e none = none
keep_item (some false) e (some es) = some (cons e es)

-- [e for e in keys if e.get("name") != name]
unfoldable pub without_named : String → Items → Option Items
without_named name nil = some nil
without_named name (cons e es) = keep_item (named name e) e (without_named name es)

abbrev pub push_item : Items → Value → Items
push_item nil v = cons v nil
push_item (cons w ws) v = cons w (push_item ws v)

abbrev pub count_items : Items → ℕ
count_items nil = 0
count_items (cons v vs) = count_items vs + 1

-- text.split(",")
abbrev pub push_char : Char → List String → List String
push_char c [] = String.◌∷◌ c String.[] ∷ []
push_char c (w ∷ ws) = String.◌∷◌ c w ∷ ws

unfoldable pub split_comma : String → List String
split_comma String.[] = "" ∷ []
split_comma (String.◌∷◌ c s) =
    let rest = split_comma s in if code c == b',' then "" ∷ rest else push_char c rest

-- [x.strip() for x in words if x.strip()]
unfoldable pub strip_words : List String → List String
strip_words [] = []
strip_words (w ∷ ws) =
    let rest = strip_words ws in if str_eq (strip w) "" then rest else strip w ∷ rest

abbrev pub max_ttl_hours : ℕ
max_ttl_hours = 24 * 14

-- An hour in ticks.
abbrev pub hour : ℕ
hour = 3600 * second

-- 0 < ttl_hours <= MAX_TTL_HOURS, on the lifetime in ticks; a NaN fails both tests.
abbrev pub ttl_ok : Float → Bool
ttl_ok (finite t) = ltb_ℤ (pos 0) t && leb_ℤ t (pos (max_ttl_hours * hour))
ttl_ok not_finite = false

abbrev pub ticks : Float → ℤ
ticks (finite t) = t
ticks not_finite = pos 0

-- An exit status, or an exception; the keys file; and what was written to the --out file.
pub record Outcome : Type 0 where
  pub status : Option ℕ
  pub file : Option Content
  pub out : Option String

abbrev unchanged : Option ℕ → Option Content → Outcome
unchanged status file = record { status = status; file = file; out = none }

abbrev pub to_items : List String → Items
to_items [] = nil
to_items (a ∷ as') = cons (str a) (to_items as')

abbrev pub new_entry : String → String → List String → ℤ → Value
new_entry name digest aliases expires = obj (
    field "name" (str name) (
      field "sha256" (str digest)
        (field "aliases" (arr (to_items aliases)) (field "expires" (float (finite expires)) end))))

module _ (sha256 : String → String) where
  -- `_add_locked` once the name is known to be free. The key goes to the --out file, which is
  -- created before the keys file is replaced.
  unfoldable pub write_key :
      Fields
      → Items
      → Option Content
      → (now : ℤ) (key : String) (out_exists : Bool) (name : String) (aliases : List String)
        (ttl : ℤ)
      → Outcome
  write_key fs keys file now key out_exists name aliases ttl =
      if out_exists
      then unchanged (some 2) file
      else let entry = new_entry name (sha256 key) aliases (now +ℤ ttl) in
        record {
          status = some 0;
          file = some (parsed (obj (put "keys" (arr (push_item keys entry)) fs)));
          out = some key;
        }

  abbrev pub add_loaded :
      Loaded
      → Option Content
      → (now : ℤ) (key : String) (out_exists : Bool) (name : String) (aliases : List String)
        (ttl : ℤ)
      → Outcome
  add_loaded failed file now key out_exists name aliases ttl = unchanged none file
  add_loaded (loaded fs keys) file now key out_exists name aliases ttl =
      elim (any_named name keys) [
        | none ↦ unchanged none file
        | some true ↦ unchanged (some 2) file
        | some false ↦ write_key fs keys file now key out_exists name aliases ttl
      ]

  -- `cmd_add`: `aliases` is the text of --aliases.
  unfoldable pub cmd_add :
      Option Content
      → (now : ℤ) (key : String) (out_exists : Bool) (name : String) (aliases : String)
        (ttl : Float)
      → Outcome
  cmd_add file now key out_exists name aliases ttl =
      let words = strip_words (split_comma aliases) in
      if not (name_matches (codes name)) || str_eq name "owner"
      then unchanged (some 2) file
      else if length words == 0
      then unchanged (some 2) file
      else if not (ttl_ok ttl)
      then unchanged (some 2) file
      else add_loaded (load file) file now key out_exists name words (ticks ttl)

-- What `revoke` is asked to remove.
pub data Target : Type 0 where
  all_keys : Target
  by_name : String → Target

abbrev pub save_keys : Fields → Items → Outcome
save_keys fs keys = record {
  status = some 0;
  file = some (parsed (obj (put "keys" (arr keys) fs)));
  out = none;
}

abbrev pub revoke_loaded : Loaded → Option Content → Target → Outcome
revoke_loaded failed file target = unchanged none file
revoke_loaded (loaded fs keys) file all_keys = save_keys fs nil
revoke_loaded (loaded fs keys) file (by_name name) = elim (without_named name keys) [
  | none ↦ unchanged none file
  | some kept ↦
      if count_items kept == count_items keys then unchanged (some 1) file else save_keys fs kept
]

-- `cmd_revoke`
unfoldable pub cmd_revoke : Option Content → Target → Outcome
cmd_revoke file target = revoke_loaded (load file) file target

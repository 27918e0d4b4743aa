-- ===== src/Swap/Profiles.antt =====
-- `_discover_profiles` and `current_valid_profiles` of scripts/files/swap-webhook.py. The look at
-- the file's time and the reading of the file are one step here.
use Prim.Native.Char.{code}
use local_gpu_cluster.Prelude.{
  ℕ, String, Bool, false, Option, none, some, List, [], ◌∷◌, ◌++◌, map, starts_with, ◌==◌,
  if◌then◌else◌,
}
use local_gpu_cluster.Prelude.Text.{is_space, drop_chars, unquoted}

-- swap-chat-model.sh on the disk: its lines, or an OSError of `open`.
pub record Script : Type 0 where
  pub mtime : ℕ
  pub lines : Option (List String)

pub record ProfilesCache : Type 0 where
  pub key : Option ℕ
  pub profiles : List String

abbrev pub fallback_profiles : List String
fallback_profiles =
    "qwen3.6" ∷ "qwen3.6-fast" ∷ "coder" ∷ "devstral" ∷ "devstral-large" ∷ "qwen3.8" ∷ []

-- s.split(")", 1)[0]
abbrev pub before_paren : String → String
before_paren String.[] = String.[]
before_paren (String.◌∷◌ c s) =
    let rest = before_paren s in if code c == 41 then String.[] else String.◌∷◌ c rest

abbrev pub close_word : String → List String → List String
close_word String.[] ws = ws
close_word (String.◌∷◌ c w) ws = String.◌∷◌ c w ∷ ws

-- s.split(), as the word that s begins with and the others.
unfoldable pub split_words : String → String × List String
split_words String.[] = (String.[], [])
split_words (String.◌∷◌ c s) =
    let (w, ws) = split_words s in
    if is_space (code c) then (String.[], close_word w ws) else (String.◌∷◌ c w, ws)

abbrev pub words : String → List String
words s = let (w, ws) = split_words s in close_word w ws

-- The names in a line that begins with "PROFILE_NAMES=(".
unfoldable pub names_of : String → List String
names_of line = map unquoted (words (before_paren (drop_chars 15 line)))

abbrev pub or_next : List String → List String → List String
or_next [] rest = rest
or_next (n ∷ ns) rest = n ∷ ns

unfoldable pub discover_lines : List String → List String
discover_lines [] = fallback_profiles
discover_lines (line ∷ lines) =
    let rest = discover_lines lines in
    if starts_with line "PROFILE_NAMES=(" then or_next (names_of line) rest else rest

-- `_discover_profiles`
unfoldable pub discover_profiles : Option (List String) → List String
discover_profiles none = fallback_profiles
discover_profiles (some lines) = discover_lines lines

abbrev pub same_time : ℕ → Option ℕ → Bool
same_time mtime none = false
same_time mtime (some key) = mtime == key

-- The profiles and the cache, where `none` is an OSError of `stat`.
unfoldable pub current_valid_profiles : Option Script → ProfilesCache → List String × ProfilesCache
current_valid_profiles none c = (fallback_profiles, c)
current_valid_profiles (some script) c =
    if same_time script.mtime c.key
    then (c.profiles, c)
    else let profiles = discover_profiles script.lines ++ fallback_profiles in
      (profiles, record { key = some script.mtime; profiles = profiles })

abbrev pub new_cache : ProfilesCache
new_cache = record { key = none; profiles = fallback_profiles }

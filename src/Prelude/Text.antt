-- ===== src/Prelude/Text.antt =====
-- Text as its code points, for the code that looks at characters.
use Prim.Native.Nat.{ℕ, zero, suc, ◌+◌, ◌-◌}
use Prim.Native.Char.{code}
use Prim.Native.String.{String}
use mathlib.Core.Path.{◌≡◌}
use mathlib.Core.Logic.{◌↔◌}
use mathlib.Core.Bool.{Bool, true, false, ◌&&◌, ◌||◌}
use mathlib.Core.List.{List, [], ◌∷◌}
use native.Mathlib.Omega.{arith}
use local_gpu_cluster.Prelude.Tests.{leb, ◌==◌, if◌then◌else◌}

abbrev pub Codes : Type 0
Codes = List ℕ

abbrev pub codes : String → Codes
codes String.[] = []
codes (String.◌∷◌ c s) = code c ∷ codes s

abbrev pub between : ℕ → ℕ → ℕ → Bool
between lo hi c = leb lo c && leb c hi

unfoldable pub codes_eq : Codes → Codes → Bool
codes_eq [] [] = true
codes_eq [] (d ∷ ds) = false
codes_eq (c ∷ cs) [] = false
codes_eq (c ∷ cs) (d ∷ ds) = c == d && codes_eq cs ds

pub codes_eq_iff : (a b : Codes) → (codes_eq a b ≡ true) ↔ (a ≡ b)
unfolding codes_eq
codes_eq_iff [] [] = ground arith
codes_eq_iff [] (d ∷ ds) = ground arith
codes_eq_iff (c ∷ cs) [] = ground arith
codes_eq_iff (c ∷ cs) (d ∷ ds) = ground (arith, codes_eq_iff cs ds)

-- `str.lower` on ASCII letters. Other characters never pass the tests that follow it here.
abbrev pub lower_ascii : ℕ → ℕ
lower_ascii c = if between 65 90 c then c + 32 else c

abbrev pub upper_ascii : ℕ → ℕ
upper_ascii c = if between 97 122 c then c - 32 else c

-- The characters that `str.strip` removes, among those that a header can hold (Latin-1).
abbrev pub is_space : ℕ → Bool
is_space c = between 9 13 c || between 28 32 c || c == 133 || c == 160

abbrev pub strip_left : String → String
strip_left String.[] = String.[]
strip_left (String.◌∷◌ c s) = if is_space (code c) then strip_left s else String.◌∷◌ c s

abbrev pub push_right : ℕ → String → String → String
push_right n String.[] whole = if is_space n then String.[] else whole
push_right n (String.◌∷◌ c s) whole = whole

abbrev pub strip_right : String → String
strip_right String.[] = String.[]
strip_right (String.◌∷◌ c s) =
    let rest = strip_right s in push_right (code c) rest (String.◌∷◌ c rest)

unfoldable pub strip : String → String
strip s = strip_right (strip_left s)

-- s[n:]
unfoldable pub drop_chars : ℕ → String → String
drop_chars zero s = s
drop_chars (suc n) String.[] = String.[]
drop_chars (suc n) (String.◌∷◌ c s) = drop_chars n s

-- s.lower().startswith(prefix), for a prefix in lower case
unfoldable pub lower_starts_with : Codes → String → Bool
lower_starts_with [] s = true
lower_starts_with (p ∷ ps) String.[] = false
lower_starts_with (p ∷ ps) (String.◌∷◌ c s) =
    let rest = lower_starts_with ps s in if p == lower_ascii (code c) then rest else false

-- s.strip("'\"")
abbrev pub is_quote : ℕ → Bool
is_quote c = c == 39 || c == 34

abbrev pub strip_left_quotes : String → String
strip_left_quotes String.[] = String.[]
strip_left_quotes (String.◌∷◌ c s) =
    if is_quote (code c) then strip_left_quotes s else String.◌∷◌ c s

abbrev pub keep_unless_quote : ℕ → String → String → String
keep_unless_quote n String.[] whole = if is_quote n then String.[] else whole
keep_unless_quote n (String.◌∷◌ c s) whole = whole

abbrev pub strip_right_quotes : String → String
strip_right_quotes String.[] = String.[]
strip_right_quotes (String.◌∷◌ c s) =
    let rest = strip_right_quotes s in keep_unless_quote (code c) rest (String.◌∷◌ c rest)

abbrev pub unquoted : String → String
unquoted p = strip_right_quotes (strip_left_quotes p)

-- ===== src/ToolLoop/Events.antt =====
-- The reading of server-sent events in `tool_loop_stream` of scripts/files/router-app.py: the
-- buffer, its blank lines, the lines of an event and the payload of one.
use local_gpu_cluster.Prelude.{
  ℕ, zero, suc, ◌&&◌, Option, none, some, List, [], ◌∷◌, ◌++◌, length, ◌==◌, if◌then◌else◌,
}
use local_gpu_cluster.Prelude.Text.{Codes, codes, codes_eq, is_space}

abbrev pub push : ℕ → Option (Codes × Codes) → Option (Codes × Codes)
push c none = none
push c (some (event, rest)) = some (c ∷ event, rest)

-- "\n\n" in buf, and buf.split("\n\n", 1) where it is.
unfoldable pub split_blank : Codes → Option (Codes × Codes)
split_blank [] = none
split_blank (c ∷ []) = none
split_blank (c ∷ d ∷ cs) =
    let later = split_blank (d ∷ cs) in
    if c == b'\n' && d == b'\n' then some ([], cs) else push c later

-- while "\n\n" in buf, with fuel: the events, and the buffer that is left.
unfoldable pub drain : ℕ → Codes → List Codes × Codes
drain zero buf = ([], buf)
drain (suc fuel) buf = elim (split_blank buf) [
  | none ↦ ([], buf)
  | some (event, rest) ↦ let (events, left) = drain fuel rest in (event ∷ events, left)
]

unfoldable pub drain_all : Codes → List Codes × Codes
drain_all buf = drain (suc (length buf)) buf

-- The loop over the stream's chunks.
unfoldable pub read_events : Codes → List Codes → List Codes × Codes
read_events buf [] = ([], buf)
read_events buf (raw ∷ stream) =
    let (events, left) = drain_all (buf ++ raw) in
    let (more, last) = read_events left stream in (events ++ more, last)

abbrev pub onto_first : ℕ → List Codes → List Codes
onto_first c [] = (c ∷ []) ∷ []
onto_first c (l ∷ ls) = (c ∷ l) ∷ ls

-- event.split("\n")
unfoldable pub split_lines : Codes → List Codes
split_lines [] = [] ∷ []
split_lines (c ∷ cs) =
    let rest = split_lines cs in if c == b'\n' then [] ∷ rest else onto_first c rest

-- line[len(prefix):], where the line starts with it.
abbrev pub after_prefix : Codes → Codes → Option Codes
after_prefix [] line = some line
after_prefix (p ∷ ps) [] = none
after_prefix (p ∷ ps) (c ∷ line) = if p == c then after_prefix ps line else none

abbrev pub strip_left : Codes → Codes
strip_left [] = []
strip_left (c ∷ cs) = if is_space c then strip_left cs else c ∷ cs

abbrev pub push_right : ℕ → Codes → Codes
push_right c [] = if is_space c then [] else c ∷ []
push_right c (d ∷ ds) = c ∷ d ∷ ds

abbrev pub strip_right : Codes → Codes
strip_right [] = []
strip_right (c ∷ cs) = push_right c (strip_right cs)

pub data Line : Type 0 where
  skipped : Line
  done_mark : Line
  payload : (json : Codes) → Line

abbrev pub line_of : Option Codes → Line
line_of none = skipped
line_of (some rest) =
    let stripped = strip_right (strip_left rest) in
    if codes_eq stripped (codes "[DONE]") then done_mark else payload stripped

unfoldable pub read_line : Codes → Line
read_line line = line_of (after_prefix (codes "data: ") line)

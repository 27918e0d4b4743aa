-- ===== src/Swap/Webhook.antt =====
-- `SwapHandler.do_POST` of scripts/files/swap-webhook.py. One move is the code between two points
-- at which the threads of the server meet: the profiles, the taking of the lock, the script's end.
use local_gpu_cluster.Prelude.{
  ℕ, zero, suc, String, Bool, true, false, not, Option, none, some, List, [], ◌∷◌, ◌++◌, any, all,
  ltb, ◌&&◌, str_eq, starts_with, if◌then◌else◌,
}
use local_gpu_cluster.Prelude.Text.{codes, strip, drop_chars}
use local_gpu_cluster.Prelude.Int.{ℤ, pos, negsuc}
use local_gpu_cluster.Swap.Profiles.{Script, ProfilesCache, new_cache, current_valid_profiles}

-- The path, the header ("" where there is none) and the first `profile` of the parsed query.
pub record Post : Type 0 where
  pub path : String
  pub authorization : String
  pub profile : Option String

-- What becomes of the script.
pub data Result : Type 0 where
  exited : (returncode : ℤ) → Result
  timed_out raised : Result

-- `no_answer` is the end of a connection whose handler raised.
pub data Answer : Type 0 where
  no_answer not_found not_configured unauthorized unknown_profile swap_in_progress : Answer
  completed : (profile : String) → Answer
  swap_failed : (profile : String) (returncode : ℤ) → Answer
  swap_timeout swap_exception : (profile : String) → Answer

pub data Pc : Type 0 where
  arrived : Pc
  checked running : (profile : String) → Pc
  ended : (profile : String) (result : Result) → Pc
  answered : (answer : Answer) → Pc

pub record Thread : Type 0 where
  pub post : Post
  pub pc : Pc

-- What the threads share: the lock, the cache, and the script on the disk.
pub record Shared : Type 0 where
  pub lock : Bool
  pub cache : ProfilesCache
  pub script : Option Script

pub record Server : Type 0 where
  pub shared : Shared
  pub threads : List Thread

abbrev pub status_of : Answer → Option ℕ
status_of no_answer = none
status_of not_found = some 404
status_of not_configured = some 503
status_of unauthorized = some 401
status_of unknown_profile = some 400
status_of swap_in_progress = some 409
status_of (completed p) = some 200
status_of _ = some 500

-- params.get("profile", []), stripped
abbrev pub stripped : Option String → String
stripped none = ""
stripped (some p) = strip p

abbrev pub answer_of : String → Result → Answer
answer_of p (exited (pos zero)) = completed p
answer_of p (exited (pos (suc n))) = swap_failed p (pos (suc n))
answer_of p (exited (negsuc n)) = swap_failed p (negsuc n)
answer_of p timed_out = swap_timeout p
answer_of p raised = swap_exception p

pub data Move : Type 0 where
  connect : (post : Post) → Move
  edit : (script : Option Script) → Move
  go_on : (thread : ℕ) (result : Result) → Move

abbrev pub is_ascii : String → Bool
is_ascii s = all (λ c. ltb c 128) (codes s)

module _ (swap_webhook_key : String) where
  -- hmac.compare_digest, which raises TypeError on a text that is not ASCII.
  abbrev pub compare_digest : String → String → Option Bool
  compare_digest a b = if is_ascii a && is_ascii b then some (str_eq a b) else none

  unfoldable pub authorized : Post → Option Bool
  authorized r =
      if str_eq swap_webhook_key ""
      then some false
      else if not (starts_with r.authorization "Bearer ")
      then some false
      else compare_digest (strip (drop_chars 7 r.authorization)) swap_webhook_key

  abbrev pub look_up : String → List String → Pc
  look_up p valid = if any (str_eq p) valid then checked p else answered unknown_profile

  abbrev pub ask : Shared → Post → Shared × Pc
  ask s r =
      let (valid, cache) = current_valid_profiles s.script s.cache in
      (record s { cache = cache }, look_up (stripped r.profile) valid)

  abbrev pub ask_if : Option Bool → Shared → Post → Shared × Pc
  ask_if none s r = (s, answered no_answer)
  ask_if (some false) s r = (s, answered unauthorized)
  ask_if (some true) s r = ask s r

  unfoldable pub check : Shared → Post → Shared × Pc
  check s r =
      if not (str_eq r.path "/swap")
      then (s, answered not_found)
      else if str_eq swap_webhook_key ""
      then (s, answered not_configured)
      else ask_if (authorized r) s r

  unfoldable pub act : Result → Shared → Post → Pc → Shared × Pc
  act result s r arrived = check s r
  act result s r (checked p) =
      if s.lock then (s, answered swap_in_progress) else (record s { lock = true }, running p)
  act result s r (running p) = (record s { lock = false }, ended p result)
  act result s r (ended p result') = (s, answered (answer_of p result'))
  act result s r (answered a) = (s, answered a)

  -- A move of the thread at an index.
  unfoldable pub act_at : ℕ → Result → Shared → List Thread → Shared × List Thread
  act_at i result s [] = (s, [])
  act_at zero result s (t ∷ ts) =
      let (s', pc) = act result s t.post t.pc in (s', record { post = t.post; pc = pc } ∷ ts)
  act_at (suc i) result s (t ∷ ts) = let (s', ts') = act_at i result s ts in (s', t ∷ ts')

  unfoldable pub move : Move → Server → Server
  move (connect r) v = record v { threads = v.threads ++ record { post = r; pc = arrived } ∷ [] }
  move (edit script) v = record v { shared = record v.shared { script = script } }
  move (go_on i result) v =
      let (s, ts) = act_at i result v.shared v.threads in record { shared = s; threads = ts }

  unfoldable pub moves : List Move → Server → Server
  moves [] v = v
  moves (m ∷ ms) v = moves ms (move m v)

abbrev pub new_server : Option Script → Server
new_server script = record {
  shared = record { lock = false; cache = new_cache; script = script };
  threads = [];
}

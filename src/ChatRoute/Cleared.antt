-- ===== src/ChatRoute/Cleared.antt =====
-- Under scripts/files/router-app.py.
-- What the chat handler of scripts/files/router-app.py has made sure of once it sends a request on.
use local_gpu_cluster.Prelude.{◌≡◌, refl, String, Bool, true, false, Option, none, some}
use local_gpu_cluster.Prelude.Json.{Value, obj, Fields, get}
use local_gpu_cluster.AccessKeys.Principal.{Principal}
use local_gpu_cluster.VisionGuard.Body.{Bytes, Reading, too_large, bad_request, body}
use local_gpu_cluster.ChatRoute.Alias.{handles}
use local_gpu_cluster.ChatRoute.Outcome.{Way, forwarded, Stage, go, stop, ◌>>=◌}
use local_gpu_cluster.ChatRoute.Route.{
  Setting, Prepared, read_json_body, parsed_object, apply_policy, prepare, mismatched, can_swap,
  route, settle, on_alias, with_body, chat,
}
use local_gpu_cluster.ChatRoute.Routed.{IsRouted, on_profile-IsRouted}
use local_gpu_cluster.ChatRoute.Prepared.{
  IsPermitted, IsPrepared, apply_policy-HoldsBack, apply_policy-IsPermitted, prepare-HoldsBack,
  prepare-IsPrepared,
}
use local_gpu_cluster.ChatRoute.Stages.{HoldsBack}

-- The way of a request with the body b of the principal p.
pub record IsCleared (s : Setting) (p : Principal) (b : Fields) (way : Way) (out : Fields)
    (asked : Option String) : Type 0 where
  pub local : handles (get "model" b) ≡ false
  pub after : Fields
  pub permitted : IsPermitted s p b after
  pub request : Prepared
  pub prepared : IsPrepared s after request
  pub routed : IsRouted s p request way out asked

prepared-IsCleared :
    (s : Setting) (p : Principal) (b after : Fields) (header : Option String) (way : Way)
    (out : Fields) (m : Stage Prepared)
    → handles (get "model" b) ≡ false
    → IsPermitted s p b after
    → prepare s header after ≡ m
    → (settle s p m).verdict ≡ forwarded way out
    → IsCleared s p b way out (settle s p m).swapped
unfolding route
prepared-IsCleared s p b after header way out (stop v) l k e h =
    absurd (prepare-HoldsBack s header after v way out e h)
prepared-IsCleared s p b after header way out (go r) l k e h = record {
  local = l;
  after = after;
  permitted = k;
  request = r;
  prepared = prepare-IsPrepared s header after r e;
  routed = on_profile-IsRouted s p r way out (mismatched s r) (can_swap s p r) refl refl h;
}

permitted-IsCleared :
    (s : Setting) (p : Principal) (b : Fields) (header : Option String) (way : Way) (out : Fields)
    (m : Stage Fields)
    → handles (get "model" b) ≡ false
    → apply_policy s p b ≡ m
    → (settle s p (m >>= prepare s header)).verdict ≡ forwarded way out
    → IsCleared s p b way out (settle s p (m >>= prepare s header)).swapped
permitted-IsCleared s p b header way out (stop v) l e h =
    absurd (apply_policy-HoldsBack s p b v way out e h)
permitted-IsCleared s p b header way out (go after) l e h =
    prepared-IsCleared s p b after header way out (prepare s header after) l
      (apply_policy-IsPermitted s p b after e) refl h

on_alias-IsCleared :
    (s : Setting) (p : Principal) (b : Fields) (header : Option String) (way : Way) (out : Fields)
    (escalates : Bool)
    → handles (get "model" b) ≡ escalates
    → (on_alias s p header b escalates).verdict ≡ forwarded way out
    → IsCleared s p b way out (on_alias s p header b escalates).swapped
on_alias-IsCleared s p b header way out true e h = absurd cc
on_alias-IsCleared s p b header way out false e h =
    permitted-IsCleared s p b header way out (apply_policy s p b) e refl h

-- What was read is an object.
abbrev pub IsRead : (Bytes → Option Value) → Reading → Fields → Type 0
IsRead json_loads reading b = (raw : Bytes) × (reading ≡ body raw) × (json_loads raw ≡ some (obj b))

parsed_object-HoldsBack : (v : Option Value) → HoldsBack (parsed_object v)
parsed_object-HoldsBack (some (obj b)) w way out h k = cc
parsed_object-HoldsBack none w way out h k = cc
parsed_object-HoldsBack (some v) w way out h k = cc

parsed_object-go : (v : Option Value) (b : Fields) → parsed_object v ≡ go b → v ≡ some (obj b)
parsed_object-go (some (obj b')) b h = cc
parsed_object-go none b h = absurd cc
parsed_object-go (some v) b h = absurd cc

read_json_body-HoldsBack :
    (json_loads : Bytes → Option Value) (reading : Reading)
    → HoldsBack (read_json_body json_loads reading)
unfolding read_json_body
read_json_body-HoldsBack json_loads too_large v way out h k = cc
read_json_body-HoldsBack json_loads bad_request v way out h k = cc
read_json_body-HoldsBack json_loads (body raw) v way out h k =
    parsed_object-HoldsBack (json_loads raw) v way out h k

read_json_body-IsRead :
    (json_loads : Bytes → Option Value) (reading : Reading) (b : Fields)
    → read_json_body json_loads reading ≡ go b
    → IsRead json_loads reading b
unfolding read_json_body
read_json_body-IsRead json_loads too_large b h = absurd cc
read_json_body-IsRead json_loads bad_request b h = absurd cc
read_json_body-IsRead json_loads (body raw) b h = (raw, refl, parsed_object-go (json_loads raw) b h)

with_body-IsCleared :
    (s : Setting) (json_loads : Bytes → Option Value) (reading : Reading) (p : Principal)
    (header : Option String) (way : Way) (out : Fields) (m : Stage Fields)
    → read_json_body json_loads reading ≡ m
    → (with_body s p header m).verdict ≡ forwarded way out
    → (b : Fields) × IsRead json_loads reading b
      × IsCleared s p b way out (with_body s p header m).swapped
with_body-IsCleared s json_loads reading p header way out (stop v) e h =
    absurd (read_json_body-HoldsBack json_loads reading v way out e h)
with_body-IsCleared s json_loads reading p header way out (go b) e h = (
  b,
  read_json_body-IsRead json_loads reading b e,
  on_alias-IsCleared s p b header way out (handles (get "model" b)) refl h,
)

-- A chat request that is sent on, in whatever way, has a principal, a body that is a JSON object
-- with acceptable keys, and a model that no escalation handles. The principal's policy allows it,
-- and a lane is open to a principal that is not the owner. The alias's defaults are filled in, the
-- media are acceptable, and the text that is counted is that of its messages. Where the guard is
-- on, the model known and not exempt, and it is known which backend is loaded, the backend of the
-- model is that one, or the request is the owner's and asked for a swap to it; where the loaded
-- backend is not known, since it cannot be asked, the request goes on unchecked. Unless it streams after such a swap, what
-- was counted is within the budget, images included, and the body or the default decides whether
-- the router runs the tools.
pub chat-IsCleared :
    (s : Setting) (json_loads : Bytes → Option Value) (principal : Option Principal)
    (header : Option String) (reading : Reading) (way : Way) (out : Fields)
    → (chat s json_loads principal header reading).verdict ≡ forwarded way out
    → (p : Principal) × (b : Fields) × (principal ≡ some p)
      × IsRead json_loads reading b
      × IsCleared s p b way out (chat s json_loads principal header reading).swapped
unfolding chat
chat-IsCleared s json_loads none header reading way out h = absurd cc
chat-IsCleared s json_loads (some p) header reading way out h =
    let (b, r, c) =
      with_body-IsCleared s json_loads reading p header way out (read_json_body json_loads reading)
        refl h in
    (p, b, refl, r, c)

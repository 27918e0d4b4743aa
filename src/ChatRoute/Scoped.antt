-- ===== src/ChatRoute/Scoped.antt =====
-- Under scripts/files/router-app.py.
-- What becomes of the chat requests of scoped principals.
use mathlib.Core.Path.{subst}
use local_gpu_cluster.Prelude.{
  ◌≡◌, ◌≢◌, str_eq, ◌⊎◌, inl, inr, refl, ap, sym, ◌∙◌, String, Bool, true, false, Option, none,
  some, arith, eq_iff,
}
use local_gpu_cluster.Prelude.Json.{Value, str, Fields, get}
use local_gpu_cluster.AccessKeys.Principal.{Principal, scoped, is_owner, is_server, member}
use local_gpu_cluster.AccessKeys.Policy.{scoped_chat-IsContained}
use local_gpu_cluster.AliasDefaults.Filled.{or_else}
use local_gpu_cluster.VisionGuard.Body.{Bytes, Reading}
use local_gpu_cluster.ChatRoute.Outcome.{Way, stream, post, forwarded}
use local_gpu_cluster.ChatRoute.Route.{Setting, Prepared, way_of, tool_execution, chat}
use local_gpu_cluster.ChatRoute.Routed.{IsDispatched, IsRouted, as_loaded, swapped, swapping}
use local_gpu_cluster.ChatRoute.Cleared.{IsRead, IsCleared, chat-IsCleared}

-- The way of a scoped principal's body.
pub record IsConfined (p : Principal) (b : Fields) (w : Way) (out : Fields) (asked : Option String)
    : Type 0 where
  pub model : String
  pub names : get "model" b ≡ some (str model)
  pub listed : member model p.aliases ≡ true
  pub tools : get "tool_execution" out ≡ some (str "client")
  pub ways : (w ≡ stream) ⊎ (w ≡ post)
  pub kept : asked ≡ none

some-injective : {A : Type 0} {a b : A} → some a ≡ some b → a ≡ b
some-injective h = cc

names-differ : (a b : String) → str_eq a b ≡ false → a ≢ b
names-differ a b h e = ground (arith, eq_iff a b)

scoped-owner : (p : Principal) → p.kind ≡ scoped → is_owner p ≡ false
scoped-owner p k = ground arith

way_of-client : (streams : Bool) (w : Way) → w ≡ way_of streams false → (w ≡ stream) ⊎ (w ≡ post)
way_of-client true w e = inl e
way_of-client false w e = inr e

dispatched-ways :
    (s : Setting) (r : Prepared) (w : Way) (out : Fields)
    → get "tool_execution" r.out ≡ some (str "client")
    → IsDispatched s r w out
    → (w ≡ stream) ⊎ (w ≡ post)
dispatched-ways s r w out t d =
    way_of-client r.streams w
      (d.sent ∙ ap (λ o. way_of r.streams (is_server (tool_execution s o))) t)

routed-ways :
    (s : Setting) (p : Principal) (r : Prepared) (w : Way) (out : Fields) (asked : Option String)
    → is_owner p ≡ false
    → get "tool_execution" r.out ≡ some (str "client")
    → IsRouted s p r w out asked
    → ((w ≡ stream) ⊎ (w ≡ post)) × (asked ≡ none) × (out ≡ r.out)
routed-ways s p r w out _ n t (as_loaded m d) = (dispatched-ways s r w out t d, refl, d.body)
routed-ways s p r w out _ n t (swapped o g d) = absurd cc
routed-ways s p r w out _ n t (swapping o g e b) = absurd cc

cleared-IsConfined :
    (s : Setting) (p : Principal) (b : Fields) (w : Way) (out : Fields) (asked : Option String)
    → p.kind ≡ scoped
    → IsCleared s p b w out asked
    → IsConfined p b w out asked
cleared-IsConfined s p b w out asked k c =
    let contained = scoped_chat-IsContained p b k c.permitted.violation in
    let r = c.request in
    let after : get "tool_execution" c.after ≡ some (str "client") =
      ap (get "tool_execution") c.permitted.policy ∙ contained.tools in
    let client : get "tool_execution" r.out ≡ some (str "client") =
      c.prepared.filled.others "tool_execution" (names-differ "tool_execution" "model" refl)
        (names-differ "tool_execution" "chat_template_kwargs" refl)
      ∙ ap (λ v. or_else v (get "tool_execution" r.info.sampling)) after in
    let (ways, kept, body) = routed-ways s p r w out asked (scoped-owner p k) client c.routed in
    record {
      model = contained.model;
      names =
          sym (contained.others "model" (names-differ "model" "tool_execution" refl))
          ∙ contained.names;
      listed = contained.listed;
      tools = ap (get "tool_execution") body ∙ client;
      ways = ways;
      kept = kept;
    }

-- A chat request of a scoped principal that is sent on names one of the principal's aliases, runs
-- no tool on the router and asks for no swap, whatever the configuration, the alias's defaults and
-- the loaded profile are.
pub scoped_request-IsConfined :
    (s : Setting) (json_loads : Bytes → Option Value) (p : Principal) (header : Option String)
    (reading : Reading) (way : Way) (out : Fields)
    → p.kind ≡ scoped
    → (chat s json_loads (some p) header reading).verdict ≡ forwarded way out
    → (b : Fields) × IsRead json_loads reading b
      × IsConfined p b way out (chat s json_loads (some p) header reading).swapped
scoped_request-IsConfined s json_loads p header reading way out k h =
    let (q, b, e, r, c) = chat-IsCleared s json_loads (some p) header reading way out h in
    let same : q ≡ p = some-injective (sym e) in
    let asked = (chat s json_loads (some p) header reading).swapped in
    (
      b,
      r,
      cleared-IsConfined s p b way out asked k
          (subst (λ p'. IsCleared s p' b way out asked) same c),
    )

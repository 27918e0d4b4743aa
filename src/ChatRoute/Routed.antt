-- ===== src/ChatRoute/Routed.antt =====
-- Under scripts/files/router-app.py.
-- The profile guard and the token budget of the chat handler.
use local_gpu_cluster.Prelude.{
  ◌≡◌, ◌≢◌, inl, inr, refl, ℕ, ◌+◌, ◌≤◌, String, Bool, true, false, Option, none, some, arith,
  eq_iff, if◌then◌else◌, Option-cases, starts_with,
}
use local_gpu_cluster.Prelude.Int.{pos}
use local_gpu_cluster.Prelude.Json.{Fields, get}
use local_gpu_cluster.AccessKeys.Principal.{Principal, is_owner, is_server}
use local_gpu_cluster.VisionGuard.Completions.{image_token_estimate}
use local_gpu_cluster.ChatRoute.Alias.{is_swap_exempt}
use local_gpu_cluster.ChatRoute.Outcome.{
  Way, swap_then_stream, Verdict, refused, too_many_tokens, forwarded,
}
use local_gpu_cluster.ChatRoute.Route.{
  Setting, Prepared, mismatched, can_swap, exceeds, way_of, tool_execution, dispatch, on_swap,
  on_profile,
}

-- Sent on after the token budget.
pub record IsDispatched (s : Setting) (r : Prepared) (w : Way) (out : Fields) : Type 0 where
  pub budget :
      (n : ℕ)
      → s.count_tokens r.text ≡ some n
      → n + image_token_estimate (pos r.images) s.image_token_estimate ≤ s.max_chat_input_tokens
  pub sent : w ≡ way_of r.streams (is_server (tool_execution s (get "tool_execution" r.out)))
  pub body : out ≡ r.out

exceeds-budget :
    (s : Setting) (image_tokens n : ℕ) (o : Option ℕ)
    → exceeds s image_tokens o ≡ false
    → o ≡ some n
    → n + image_tokens ≤ s.max_chat_input_tokens
exceeds-budget s i n none h e = absurd cc
exceeds-budget s i n (some m) h e = ground arith

if-forwarded :
    (c : Bool) (why : Verdict) (w way : Way) (b out : Fields)
    → ((way' : Way) (out' : Fields) → why ≢ forwarded way' out')
    → (if c then why else forwarded w b) ≡ forwarded way out
    → (c ≡ false) × (way ≡ w) × (out ≡ b)
if-forwarded true why w way b out n h = absurd (n way out h)
if-forwarded false why w way b out n h = (refl, cc, cc)

pub dispatch-IsDispatched :
    (s : Setting) (r : Prepared) (way : Way) (out : Fields)
    → dispatch s r ≡ forwarded way out
    → IsDispatched s r way out
unfolding dispatch
dispatch-IsDispatched s r way out h =
    let image_tokens = image_token_estimate (pos r.images) s.image_token_estimate in
    let over = exceeds s image_tokens (s.count_tokens r.text) in
    let (within, sends, b) =
      if-forwarded over (refused 413 too_many_tokens) _ way r.out out (λ way' out' e. cc) h in
    record {
      budget = λ n. exceeds-budget s image_tokens n (s.count_tokens r.text) within;
      sent = sends;
      body = b;
    }

matched-active :
    (s : Setting) (r : Prepared) (active : String)
    → mismatched s r ≡ false
    → s.active_backend ≡ some active
    → s.strict_profile_match ≡ true
    → s.alias_map r.model ≢ none
    → starts_with r.model "rag-" ≡ false
    → active ≡ r.info.backend
unfolding mismatched is_swap_exempt
matched-active s r active h ha hs hk hx = elim (Option-cases (s.alias_map r.model)) [
  | inl e ↦ absurd (hk e)
  | inr (known, e) ↦ ground (arith, eq_iff r.info.backend active)
]

-- The loaded model answers and the request is dispatched, or a swap was asked for.
pub data IsRouted (s : Setting) (p : Principal) (r : Prepared) (way : Way) (out : Fields)
    : Option String → Type 0 where
  as_loaded :
      ((active : String)
        → s.active_backend ≡ some active
        → s.strict_profile_match ≡ true
        → s.alias_map r.model ≢ none
        → starts_with r.model "rag-" ≡ false
        → active ≡ r.info.backend)
      → IsDispatched s r way out
      → IsRouted s p r way out none
  swapped :
      is_owner p ≡ true
      → s.swap_succeeds ≡ true
      → IsDispatched s r way out
      → IsRouted s p r way out (some r.info.backend)
  swapping :
      is_owner p ≡ true
      → r.streams ≡ true
      → way ≡ swap_then_stream
      → out ≡ r.out
      → IsRouted s p r way out (some r.info.backend)

can_swap-owner :
    (s : Setting) (p : Principal) (r : Prepared) → can_swap s p r ≡ true → is_owner p ≡ true
unfolding can_swap
can_swap-owner s p r h = ground arith

on_swap-IsRouted :
    (s : Setting) (p : Principal) (r : Prepared) (way : Way) (out : Fields)
    (streams succeeds : Bool)
    → is_owner p ≡ true
    → r.streams ≡ streams
    → s.swap_succeeds ≡ succeeds
    → (on_swap s r streams succeeds).verdict ≡ forwarded way out
    → IsRouted s p r way out (on_swap s r streams succeeds).swapped
on_swap-IsRouted s p r way out true c o e e' h =
    let w : way ≡ swap_then_stream = cc in let b : out ≡ r.out = cc in swapping o e w b
on_swap-IsRouted s p r way out false true o e e' h =
    swapped o e' (dispatch-IsDispatched s r way out h)
on_swap-IsRouted s p r way out false false o e e' h = absurd cc

pub on_profile-IsRouted :
    (s : Setting) (p : Principal) (r : Prepared) (way : Way) (out : Fields) (other may : Bool)
    → mismatched s r ≡ other
    → can_swap s p r ≡ may
    → (on_profile s r other may).verdict ≡ forwarded way out
    → IsRouted s p r way out (on_profile s r other may).swapped
on_profile-IsRouted s p r way out false may e c h =
    as_loaded (λ active. matched-active s r active e) (dispatch-IsDispatched s r way out h)
on_profile-IsRouted s p r way out true false e c h = absurd cc
on_profile-IsRouted s p r way out true true e c h =
    on_swap-IsRouted s p r way out r.streams s.swap_succeeds (can_swap-owner s p r c) refl refl h

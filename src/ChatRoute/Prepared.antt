-- ===== src/ChatRoute/Prepared.antt =====
-- Under scripts/files/router-app.py.
-- What the stages before the profile guard of the chat handler establish.
use mathlib.Core.Path.{subst}
use local_gpu_cluster.Prelude.{
  ◌≡◌, ◌≢◌, sym, ◌⊎◌, inl, inr, refl, String, true, Option, none, some, arith, Bool-cases,
}
use local_gpu_cluster.Prelude.Json.{obj, Fields, get}
use local_gpu_cluster.AccessKeys.Principal.{Principal, is_owner, chat_violation, apply_chat_policy}
use local_gpu_cluster.AliasDefaults.Fill.{apply_alias_defaults}
use local_gpu_cluster.AliasDefaults.Filled.{IsFilled, apply_alias_defaults-IsFilled}
use local_gpu_cluster.VisionGuard.Chat.{check_media, check_chat_body}
use local_gpu_cluster.ChatRoute.Alias.{resolve_alias}
use local_gpu_cluster.ChatRoute.Text.{approx_text, should_strip_thinking}
use local_gpu_cluster.ChatRoute.Outcome.{refused, lane_closed, go, guard}
use local_gpu_cluster.ChatRoute.Route.{
  Setting, Prepared, or_raise, checked, without_violation, model_name, apply_policy, has_lane,
  prepare,
}
use local_gpu_cluster.ChatRoute.Stages.{
  >>=-go, go_stops, go-injective, HoldsBack, >>=-HoldsBack, checked-HoldsBack, checked-go,
  without_violation-HoldsBack, without_violation-go, or_raise-HoldsBack, or_raise-go,
  guard-HoldsBack, guard-go,
}

-- A principal's body that the policy lets through.
pub record IsPermitted (s : Setting) (p : Principal) (b after : Fields) : Type 0 where
  pub keys : (check_chat_body (obj b)).error ≡ none
  pub violation : chat_violation p b ≡ none
  pub lane : (is_owner p ≡ true) ⊎ (s.lane_capacity ≢ 0)
  pub policy : after ≡ apply_chat_policy p b

pub apply_policy-HoldsBack :
    (s : Setting) (p : Principal) (b : Fields) → HoldsBack (apply_policy s p b)
unfolding apply_policy
apply_policy-HoldsBack s p b =
    let c = check_chat_body (obj b) in
    >>=-HoldsBack (checked c c.error) _ (checked-HoldsBack c c.error) λ keys.
      >>=-HoldsBack (without_violation (chat_violation p b)) _
        (without_violation-HoldsBack (chat_violation p b))
        λ u.
          >>=-HoldsBack (guard (has_lane s p) (refused 503 lane_closed)) _
            (guard-HoldsBack (has_lane s p) 503 lane_closed) λ w v way out h k. go_stops h

pub apply_policy-IsPermitted :
    (s : Setting) (p : Principal) (b after : Fields)
    → apply_policy s p b ≡ go after
    → IsPermitted s p b after
unfolding apply_policy
apply_policy-IsPermitted s p b after h =
    let c = check_chat_body (obj b) in
    let (n, k, h1) = >>=-go (checked c c.error) _ after h in
    let (u, v, h2) = >>=-go (without_violation (chat_violation p b)) _ after h1 in
    let (w, g, h3) = >>=-go (guard (has_lane s p) (refused 503 lane_closed)) _ after h2 in
    let (e, i) = checked-go c c.error n k in
    let open_lane = guard-go (has_lane s p) (refused 503 lane_closed) w g in
    record {
      keys = e;
      violation = without_violation-go (chat_violation p b) u v;
      lane = elim (Bool-cases (is_owner p)) [ inl o ↦ inl o | inr n ↦ inr (ground arith) ];
      policy = sym (go-injective h3);
    }

-- A body that the alias's defaults are filled into, with what was found in it.
pub record IsPrepared (s : Setting) (b : Fields) (r : Prepared) : Type 0 where
  pub model : model_name (get "model" b) ≡ some r.model
  pub info : r.info ≡ (resolve_alias s.alias_map s.rag_model r.model).info
  pub filled : IsFilled r.info b r.out
  pub media : (check_media (get "messages" r.out) s.vision_enabled).error ≡ none
  pub images : r.images ≡ (check_media (get "messages" r.out) s.vision_enabled).images
  pub text : approx_text (get "messages" r.out) ≡ some r.text

pub prepare-HoldsBack :
    (s : Setting) (header : Option String) (b : Fields) → HoldsBack (prepare s header b)
unfolding prepare
prepare-HoldsBack s header b = >>=-HoldsBack (or_raise _) _ (or_raise-HoldsBack _) λ strip.
    >>=-HoldsBack (or_raise (model_name (get "model" b))) _ (or_raise-HoldsBack _) λ model.
      let info = (resolve_alias s.alias_map s.rag_model model).info in
      >>=-HoldsBack (or_raise (apply_alias_defaults b info)) _ (or_raise-HoldsBack _) λ out.
        let c = check_media (get "messages" out) s.vision_enabled in
        >>=-HoldsBack (checked c c.error) _ (checked-HoldsBack c c.error) λ images.
          >>=-HoldsBack (or_raise (approx_text (get "messages" out))) _ (or_raise-HoldsBack _)
            λ text v way out h k. go_stops h

pub prepare-IsPrepared :
    (s : Setting) (header : Option String) (b : Fields) (r : Prepared)
    → prepare s header b ≡ go r
    → IsPrepared s b r
unfolding prepare
prepare-IsPrepared s header b r h =
    let strips = should_strip_thinking s.alias_map s.rag_model s.nothink_hint b header in
    let (strip, k0, h0) = >>=-go (or_raise strips) _ r h in
    let (model, k1, h1) = >>=-go (or_raise (model_name (get "model" b))) _ r h0 in
    let info = (resolve_alias s.alias_map s.rag_model model).info in
    let (out, k2, h2) = >>=-go (or_raise (apply_alias_defaults b info)) _ r h1 in
    let c = check_media (get "messages" out) s.vision_enabled in
    let (images, k3, h3) = >>=-go (checked c c.error) _ r h2 in
    let (text, k4, h4) = >>=-go (or_raise (approx_text (get "messages" out))) _ r h3 in
    let (accepted, counted) = checked-go c c.error images k3 in
    subst (IsPrepared s b) (go-injective h4) (record {
      model = or_raise-go (model_name (get "model" b)) model k1;
      info = refl;
      filled = apply_alias_defaults-IsFilled info b out (or_raise-go _ out k2);
      media = accepted;
      images = counted;
      text = or_raise-go _ text k4;
    })

-- ===== src/AccessKeys/Policy.antt =====
-- What a principal may do: the middleware's verdicts and the policy of the chat handler.
use local_gpu_cluster.Prelude.{
  ◌≡◌, ◌≢◌, refl, ◌⊎◌, inl, inr, String, true, Option, none, some, List, All, arith, eq_iff, Any,
  Option-cases,
}
use local_gpu_cluster.Prelude.Int.{ℤ}
use local_gpu_cluster.Prelude.Text.{Codes}
use local_gpu_cluster.Prelude.Json.{Value, str, Fields, get, get-put}
use local_gpu_cluster.AccessKeys.Principal.{
  Principal, scoped, owner_principal, member, scoped_endpoint, endpoint_allowed, chat_violation,
  apply_chat_policy, allowed_model,
}
use local_gpu_cluster.AccessKeys.Store.{KeysFile, Cache, empty_cache, Answer, someone, authenticate}
use local_gpu_cluster.AccessKeys.Served.{Request, IsTame, serve}
use local_gpu_cluster.AccessKeys.Authentication.{IsUnexpired, authenticate_sound}
use local_gpu_cluster.AccessKeys.Entries.{ParsesTo, file_entries}
use local_gpu_cluster.AccessKeys.Bearer.{
  HttpRequest, forwarded, bearer_token, judge, require_bearer,
}

judge-forwarded :
    (r : HttpRequest) (a : Answer) (p : Principal)
    → judge r a ≡ forwarded p
    → (a ≡ someone p) × (endpoint_allowed p r.method r.path ≡ true)
judge-forwarded r a p h = ground arith

module _ (sha256_hex : String → Codes) (owner_key : String) (f : KeysFile) (before : List Request)
    (now : ℤ) (r : HttpRequest) (p : Principal) where
  -- The cache as the requests before left it.
  abbrev served : Cache
  served = serve sha256_hex owner_key before empty_cache

  -- Let the router have started without a cache and served any requests, of which none made the
  -- reload raise and none found a file with the signature of the present one and another content.
  -- A request then reaches its handler with a principal only if it carries a bearer token that is the
  -- owner's key, or that belongs to an unexpired entry of the keys file; and then, if the
  -- principal is a scoped one, only at one of the two endpoints that scoped keys may call.
  pub forwarded_sound :
      All (λ q. IsTame f q.file) before
      → (require_bearer sha256_hex owner_key (some f) now r served).1 ≡ forwarded p
      → (token : String) × (bearer_token r ≡ some token)
        × (((p ≡ owner_principal) × (token ≡ owner_key) × (token ≢ ""))
            ⊎ (Any (ParsesTo (sha256_hex token) p) (file_entries f.content)
                × IsUnexpired now p.expires))
        × (p.kind ≡ scoped → scoped_endpoint r.method r.path ≡ true)
  unfolding require_bearer endpoint_allowed
  forwarded_sound tame h = elim (Option-cases (bearer_token r)) [
    | inl e ↦ absurd (ground arith)
    | inr (token, e) ↦
        let answer = (authenticate sha256_hex owner_key (some f) now token served).1 in
        let (known, allowed) = judge-forwarded r answer p (ground arith) in
        (
          token,
          e,
          authenticate_sound sha256_hex owner_key f before now token p tame known,
          ground arith,
        )
  ]

-- A chat body that passes the policy, for a scoped principal.
pub record IsContained (p : Principal) (before after : Fields) : Type 0 where
  pub model : String
  pub names : get "model" after ≡ some (str model)
  pub listed : member model p.aliases ≡ true
  pub tools : get "tool_execution" after ≡ some (str "client")
  pub others : (k : String) → k ≢ "tool_execution" → get k after ≡ get k before

allowed_model-str :
    (p : Principal) (v : Option Value)
    → allowed_model p v ≡ true
    → (m : String) × (v ≡ some (str m)) × (member m p.aliases ≡ true)
allowed_model-str p (some (str m)) h = (m, refl, h)
allowed_model-str p none h = cc
allowed_model-str p (some v) h = cc

-- A chat request of a scoped principal that is not refused is forwarded with a model among the
-- principal's aliases and with client-side tools, whatever `tool_execution` the client or the
-- default asks for; nothing else of the body changes.
pub scoped_chat-IsContained :
    (p : Principal) (body : Fields)
    → p.kind ≡ scoped
    → chat_violation p body ≡ none
    → IsContained p body (apply_chat_policy p body)
unfolding chat_violation apply_chat_policy
scoped_chat-IsContained p body k h =
    let allowed : allowed_model p (get "model" body) ≡ true = ground arith in
    let (m, e, listed) = allowed_model-str p (get "model" body) allowed in
    record {
      model = m;
      names = ground (arith, get-put "tool_execution" "model" (str "client") body);
      listed = listed;
      tools = ground (arith, get-put "tool_execution" "tool_execution" (str "client") body);
      others = λ j ne.
          ground (arith, get-put "tool_execution" j (str "client") body, eq_iff "tool_execution" j);
    }

-- ===== src/AccessKeys/Principal.antt =====
-- `Principal` and the policy functions of scripts/files/access_keys.py.
use local_gpu_cluster.Prelude.{
  String, Bool, true, false, not, ◌&&◌, ◌||◌, Option, none, some, List, [], any, map, str_eq,
  if◌then◌else◌,
}
use local_gpu_cluster.Prelude.Text.{codes, codes_eq, upper_ascii}
use local_gpu_cluster.Prelude.Int.{ℤ}
use local_gpu_cluster.Prelude.Json.{Value, str, Fields, get, put}

pub data Kind : Type 0 where
  owner scoped : Kind

-- `aliases` is a frozenset, of which only membership is used.
pub record Principal : Type 0 where
  pub name : String
  pub kind : Kind
  pub aliases : List String
  pub expires : Option ℤ

abbrev pub is_owner : Principal → Bool
is_owner p = elim p.kind [ owner ↦ true | scoped ↦ false ]

-- OWNER
abbrev pub owner_principal : Principal
owner_principal = record { name = "owner"; kind = owner; aliases = []; expires = none }

-- `x in xs` on strings
abbrev pub member : String → List String → Bool
member x = any (λ y. str_eq x y)

-- method.upper() == name, for an ASCII method
abbrev pub method_is : String → String → Bool
method_is method name = codes_eq (map upper_ascii (codes method)) (codes name)

-- (method.upper(), path) in SCOPED_ENDPOINTS
unfoldable pub scoped_endpoint : String → String → Bool
scoped_endpoint method path =
    (method_is method "POST" && str_eq path "/v1/chat/completions")
    || (method_is method "GET" && str_eq path "/v1/models")

unfoldable pub endpoint_allowed : Principal → String → String → Bool
endpoint_allowed p method path = is_owner p || scoped_endpoint method path

pub data Violation : Type 0 where
  model_not_allowed server_tools_not_allowed : Violation

-- isinstance(model, str) and model in aliases
abbrev pub allowed_model : Principal → Option Value → Bool
allowed_model p (some (str model)) = member model p.aliases
allowed_model p _ = false

-- v == "server"
abbrev pub is_server : Option Value → Bool
is_server (some (str mode)) = str_eq mode "server"
is_server _ = false

unfoldable pub chat_violation : Principal → Fields → Option Violation
chat_violation p body =
    if is_owner p
    then none
    else if not (allowed_model p (get "model" body))
    then some model_not_allowed
    else if is_server (get "tool_execution" body)
    then some server_tools_not_allowed
    else none

unfoldable pub apply_chat_policy : Principal → Fields → Fields
apply_chat_policy p body = if is_owner p then body else put "tool_execution" (str "client") body

abbrev pub may_swap : Principal → Bool
may_swap p = is_owner p

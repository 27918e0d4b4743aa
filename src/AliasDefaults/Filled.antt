-- ===== src/AliasDefaults/Filled.antt =====
-- What `apply_alias_defaults` of scripts/files/alias_defaults.py leaves under each key.
use local_gpu_cluster.Prelude.{
  ◌≡◌, ◌≢◌, refl, String, Option, none, some, arith, eq_iff, sym, ap, ◌∙◌, Bool, true, false,
  if◌then◌else◌,
}
use local_gpu_cluster.Prelude.Json.{Value, str, obj, Fields, end, field, get, put, get-put}
use local_gpu_cluster.AliasDefaults.Fill.{
  AliasInfo, set_default, set_defaults, set_model, other_model, template_defaults, kwargs_of,
  store_kwargs, fill_template, fill_sampling, apply_alias_defaults,
}

abbrev model_name : String
model_name = "model"

abbrev kwargs_name : String
kwargs_name = "chat_template_kwargs"

-- The client's value, or else the default.
abbrev pub or_else : Option Value → Option Value → Option Value
or_else none d = d
or_else (some v) d = some v

or_else-none : (o : Option Value) → or_else o none ≡ o
or_else-none none = refl
or_else-none (some v) = refl

get-set_default :
    (j k : String) (v : Value) (d : Fields)
    → get j (set_default k v d) ≡ or_else (get j d) (get j (field k v end))
unfolding set_default get
get-set_default j k v d = ground (arith, get-put k j v d, eq_iff k j)

pub get-set_defaults :
    (j : String) (ds d : Fields) → get j (set_defaults ds d) ≡ or_else (get j d) (get j ds)
unfolding set_defaults get
get-set_defaults j end d = sym (or_else-none (get j d))
get-set_defaults j (field k v ds) d =
    ground (arith, get-set_defaults j ds (set_default k v d), get-set_default j k v d, eq_iff k j)

pub get-set_model :
    (j b : String) (body : Fields) → j ≢ "model" → get j (set_model b body) ≡ get j body
unfolding set_model
get-set_model j b body n = ground (arith, get-put "model" j (str b) body, eq_iff "model" j)

-- The value under `chat_template_kwargs` that the template defaults ds turn an entry into.
abbrev pub template_kwargs : Fields → Option Value → Option Value
template_kwargs end old = old
template_kwargs ds none = some (obj (set_defaults ds end))
template_kwargs ds (some (obj kwargs)) = some (obj (set_defaults ds kwargs))
template_kwargs ds (some v) = some v

-- The value under "model" that the backend b turns an entry into.
abbrev pub renamed : String → Option Value → Option Value
renamed b none = none
renamed b (some v) = some (str b)

-- A body after the defaults of an alias.
pub record IsFilled (info : AliasInfo) (body out : Fields) : Type 0 where
  pub model :
      get "model" out
      ≡ or_else (renamed info.backend (get "model" body)) (get "model" info.sampling)
  pub kwargs :
      get "chat_template_kwargs" out
      ≡ or_else
          (template_kwargs (template_defaults info) (get "chat_template_kwargs" body))
          (get "chat_template_kwargs" info.sampling)
  pub others :
      (k : String)
      → k ≢ "model"
      → k ≢ "chat_template_kwargs"
      → get k out ≡ or_else (get k body) (get k info.sampling)

other_model-renames :
    (b : String) (v : Option Value) → (if other_model b v then some (str b) else v) ≡ renamed b v
other_model-renames b none = refl
other_model-renames b (some (str m)) = ground (arith, eq_iff b m)
other_model-renames b (some v) = refl

get-if :
    (k : String) (c : Bool) (x y : Fields)
    → get k (if c then x else y) ≡ (if c then get k x else get k y)
get-if k true x y = refl
get-if k false x y = refl

set_model-renames :
    (b : String) (body : Fields) → get "model" (set_model b body) ≡ renamed b (get "model" body)
unfolding set_model
set_model-renames b body =
    get-if "model" (other_model b (get "model" body)) (put "model" (str b) body) body
    ∙ ap (λ v. if other_model b (get "model" body) then v else get "model" body)
        (get-put "model" "model" (str b) body)
    ∙ other_model-renames b (get "model" body)

store_kwargs-others :
    (ds body out : Fields) (kwargs : Option Fields) (k : String)
    → store_kwargs ds body kwargs ≡ some out
    → k ≢ "chat_template_kwargs"
    → get k out ≡ get k body
store_kwargs-others ds body out none k h n = cc
store_kwargs-others ds body out (some kw) k h n = ground (
  arith,
  get-put "chat_template_kwargs" k (obj (set_defaults ds kw)) body,
  eq_iff "chat_template_kwargs" k,
)

fill_template-others :
    (ds body out : Fields) (k : String)
    → fill_template ds body ≡ some out
    → k ≢ "chat_template_kwargs"
    → get k out ≡ get k body
fill_template-others end body out k h n = ground arith
fill_template-others (field j v ds) body out k h n =
    store_kwargs-others (field j v ds) body out (kwargs_of (get "chat_template_kwargs" body)) k h n

store_kwargs-kwargs :
    (j : String) (w : Value) (ds body out : Fields) (old : Option Value)
    → store_kwargs (field j w ds) body (kwargs_of old) ≡ some out
    → get "chat_template_kwargs" out ≡ template_kwargs (field j w ds) old
store_kwargs-kwargs j w ds body out none h = ground (
  arith,
  get-put "chat_template_kwargs" "chat_template_kwargs" (obj (set_defaults (field j w ds) end))
      body,
)
store_kwargs-kwargs j w ds body out (some (obj kw)) h = ground (
  arith,
  get-put "chat_template_kwargs" "chat_template_kwargs" (obj (set_defaults (field j w ds) kw)) body,
)
store_kwargs-kwargs j w ds body out (some v) h = cc

fill_template-kwargs :
    (ds body out : Fields)
    → fill_template ds body ≡ some out
    → get "chat_template_kwargs" out ≡ template_kwargs ds (get "chat_template_kwargs" body)
fill_template-kwargs end body out h = ground arith
fill_template-kwargs (field j w ds) body out h =
    store_kwargs-kwargs j w ds body out (get "chat_template_kwargs" body) h

fill_sampling-some :
    (sampling out : Fields) (filled : Option Fields)
    → fill_sampling sampling filled ≡ some out
    → (mid : Fields) × (filled ≡ some mid) × (set_defaults sampling mid ≡ out)
fill_sampling-some sampling out none h = cc
fill_sampling-some sampling out (some mid) h = (mid, refl, ground arith)

after_sampling :
    (sampling mid out : Fields)
    → set_defaults sampling mid ≡ out
    → (k : String) → get k out ≡ or_else (get k mid) (get k sampling)
after_sampling sampling mid out e k = sym (ap (get k) e) ∙ get-set_defaults k sampling mid

model_key : model_name ≢ kwargs_name
model_key h = ground (arith, eq_iff "model" "chat_template_kwargs")

pub kwargs_key : kwargs_name ≢ model_name
kwargs_key h = ground (arith, eq_iff "chat_template_kwargs" "model")

-- Filling in the defaults puts the backend's name in place of the client's model, where there is
-- one, adds to the template's arguments only those that the client left out, and leaves every
-- other value that the client sent, null included; a sampling default is used only under a key
-- that is then still missing.
pub apply_alias_defaults-IsFilled :
    (info : AliasInfo) (body out : Fields)
    → apply_alias_defaults body info ≡ some out
    → IsFilled info body out
unfolding apply_alias_defaults
apply_alias_defaults-IsFilled info body out h =
    let ds = template_defaults info in
    let renamed_body = set_model info.backend body in
    let (mid, filled, e) = fill_sampling-some info.sampling out (fill_template ds renamed_body) h in
    let under = after_sampling info.sampling mid out e in
    let before = fill_template-others ds renamed_body mid in
    record {
      model =
          under "model"
          ∙ ap (λ v. or_else v (get "model" info.sampling))
              (before "model" filled model_key ∙ set_model-renames info.backend body);
      kwargs =
          under "chat_template_kwargs"
          ∙ ap (λ v. or_else v (get "chat_template_kwargs" info.sampling))
              (fill_template-kwargs ds renamed_body mid filled
                ∙ ap (template_kwargs ds)
                    (get-set_model "chat_template_kwargs" info.backend body kwargs_key));
      others = λ k n n2.
          under k
          ∙ ap (λ v. or_else v (get k info.sampling))
              (before k filled n2 ∙ get-set_model k info.backend body n);
    }

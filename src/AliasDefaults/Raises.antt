-- ===== src/AliasDefaults/Raises.antt =====
-- When `apply_alias_defaults` of scripts/files/alias_defaults.py raises.
use local_gpu_cluster.Prelude.{◌≡◌, ◌≢◌, ◌↔◌, refl, ◌∙◌, ap, sym, Option, none, some}
use local_gpu_cluster.Prelude.Json.{Value, obj, Fields, end, field, get}
use local_gpu_cluster.AliasDefaults.Fill.{
  AliasInfo, set_model, template_defaults, kwargs_of, store_kwargs, fill_template, fill_sampling,
  apply_alias_defaults,
}
use local_gpu_cluster.AliasDefaults.Filled.{get-set_model, kwargs_key}

-- An entry that is there and is not a dict.
abbrev pub IsNotDict : Option Value → Type 0
IsNotDict entry = (v : Value) × (entry ≡ some v) × ((fs : Fields) → v ≢ obj fs)

kwargs_of-NotDict : (entry : Option Value) → kwargs_of entry ≡ none → IsNotDict entry
kwargs_of-NotDict none h = cc
kwargs_of-NotDict (some (obj fs)) h = cc
kwargs_of-NotDict (some v) h = (v, refl, λ fs e. cc)

kwargs_of_bad : (v : Value) → ((fs : Fields) → v ≢ obj fs) → kwargs_of (some v) ≡ none
kwargs_of_bad (obj fs) n = absurd (n fs refl)
kwargs_of_bad v n = refl

fill_sampling-none :
    (sampling : Fields) (filled : Option Fields)
    → fill_sampling sampling filled ≡ none
    → filled ≡ none
fill_sampling-none sampling none h = refl
fill_sampling-none sampling (some mid) h = cc

store_kwargs-none :
    (ds body : Fields) (kwargs : Option Fields) → store_kwargs ds body kwargs ≡ none → kwargs ≡ none
store_kwargs-none ds body none h = refl
store_kwargs-none ds body (some kw) h = cc

fill_template-raises :
    (ds body : Fields)
    → fill_template ds body ≡ none
    → (ds ≢ end) × (kwargs_of (get "chat_template_kwargs" body) ≡ none)
fill_template-raises end body h = cc
fill_template-raises (field k v ds) body h =
    (λ e. cc, store_kwargs-none (field k v ds) body (kwargs_of (get "chat_template_kwargs" body)) h)

fill_template-bad :
    (ds body : Fields)
    → ds ≢ end
    → kwargs_of (get "chat_template_kwargs" body) ≡ none
    → fill_template ds body ≡ none
fill_template-bad end body n h = absurd (n refl)
fill_template-bad (field k v ds) body n h = ap (store_kwargs (field k v ds) body) h

-- A body raises an error, in place of an answer, exactly when the alias has a default for the
-- template's arguments and the client sent `chat_template_kwargs` with a value that is not a
-- dict, such as null.
pub apply_alias_defaults_raises :
    (info : AliasInfo) (body : Fields)
    → apply_alias_defaults body info ≡ none
      ↔ (template_defaults info ≢ end) × IsNotDict (get "chat_template_kwargs" body)
unfolding apply_alias_defaults
apply_alias_defaults_raises info body =
    let ds = template_defaults info in
    let kept = get-set_model "chat_template_kwargs" info.backend body kwargs_key in
    (
      λ h.
          let filled =
            fill_sampling-none info.sampling (fill_template ds (set_model info.backend body)) h in
          let (n, bad) = fill_template-raises ds (set_model info.backend body) filled in
          (n, kwargs_of-NotDict (get "chat_template_kwargs" body) (sym (ap kwargs_of kept) ∙ bad)),
      λ (n, (v, e, not_dict)). ap (fill_sampling info.sampling) (
          fill_template-bad ds (set_model info.backend body) n
            (ap kwargs_of (kept ∙ e) ∙ kwargs_of_bad v not_dict)),
    )

-- ===== src/RagRefresh/Plan.antt =====
-- `Plan` and `compute` of scripts/rag/lib/plan.py. The threshold is a ratio of two numbers, compared exactly.
use local_gpu_cluster.Prelude.{
  ℕ, ◌+◌, ◌*◌, String, Bool, true, false, not, ◌==◌, Option, none, some, List, [], ◌∷◌, ◌++◌,
  str_eq, if◌then◌else◌, length, ltb,
}
use local_gpu_cluster.Prelude.Text.{Codes}
use local_gpu_cluster.RagRefresh.Documents.{Document, Entry, State, lookup, mem, keys, collapse}

pub record Plan : Type 0 where
  pub adds : List Document
  pub updates : List Document
  pub removes : List String
  pub errors : List String
  pub existing_count : ℕ

-- max_delete_pct, as `percent / scale`
pub record Ratio : Type 0 where
  pub percent : ℕ
  pub scale : ℕ

abbrev pub total_changes : Plan → ℕ
total_changes p = length p.adds + length p.updates + length p.removes

abbrev pub is_noop : Plan → Bool
is_noop p = total_changes p == 0

-- pct > max_delete_pct, where pct = removes / existing
abbrev pub exceeds : ℕ → ℕ → Ratio → Bool
exceeds removes existing r = ltb (r.percent * existing) (removes * r.scale)

-- The first component of what `safety_check` returns.
unfoldable pub safety_check : Plan → Ratio → Bool
safety_check p max_delete_pct =
    if length p.removes == 0
    then true
    else if p.existing_count == 0
    then true
    else if ltb (length p.removes) 5
    then true
    else not (exceeds (length p.removes) p.existing_count max_delete_pct)

-- prev.get("hash") != new_hash, negated
abbrev pub same_hash : Option String → Option String → Bool
same_hash none none = true
same_hash (some a) (some b) = str_eq a b
same_hash _ _ = false

-- What the loop's body does with the stamped document.
abbrev pub file_doc : Option Entry → Document → Plan → Plan
file_doc none doc p = record p { adds = p.adds ++ doc ∷ [] }
file_doc (some prev) doc p =
    if same_hash prev.hash doc.hash then p else record p { updates = p.updates ++ doc ∷ [] }

abbrev pub urls : List Document → List String
urls [] = []
urls (doc ∷ docs) = doc.url ∷ urls docs

-- The urls of the state that are not in `present`.
unfoldable pub missing : List String → List String → List String
missing present [] = []
missing present (u ∷ us) = if mem u present then missing present us else u ∷ missing present us

-- known_urls if known_urls is not None else collected_urls
abbrev pub present_urls : Option (List String) → List Document → List String
present_urls none docs = urls docs
present_urls (some known) docs = known

abbrev pub empty_plan : State → Plan
empty_plan persisted = record {
  adds = [];
  updates = [];
  removes = [];
  errors = [];
  existing_count = length persisted;
}

abbrev pub with_removes : Bool → List String → Plan → Plan
with_removes false us p = p
with_removes true us p = record p { removes = us }

module _ (sha256 : Codes → String) where
  unfoldable pub content_hash : Codes → String
  content_hash text = sha256 (collapse [] text)

  -- doc.hash = new_hash
  unfoldable pub stamp : Document → Document
  stamp doc = record doc { hash = some (content_hash doc.content) }

  unfoldable pub diff : State → List Document → Plan → Plan
  diff persisted [] p = p
  diff persisted (doc ∷ docs) p =
      diff persisted docs (file_doc (lookup doc.url persisted) (stamp doc) p)

  unfoldable pub compute : List Document → State → Bool → Option (List String) → Plan
  compute collected persisted remove_missing known =
      with_removes remove_missing (missing (present_urls known collected) (keys persisted))
        (diff persisted collected (empty_plan persisted))

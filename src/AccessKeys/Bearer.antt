-- ===== src/AccessKeys/Bearer.antt =====
-- The `require_bearer` middleware of scripts/files/router-app.py.
use local_gpu_cluster.Prelude.{
  ℕ, String, Bool, not, ◌||◌, Option, none, some, str_eq, if◌then◌else◌,
}
use local_gpu_cluster.Prelude.Int.{ℤ}
use local_gpu_cluster.Prelude.Text.{Codes, codes, strip, drop_chars, lower_starts_with}
use local_gpu_cluster.AccessKeys.Principal.{Principal, endpoint_allowed}
use local_gpu_cluster.AccessKeys.Store.{
  KeysFile, Cache, Answer, raises, nobody, someone, authenticate,
}

pub record HttpRequest : Type 0 where
  pub method : String
  pub path : String
  -- The authorization header, "" where there is none.
  pub authorization : String

-- `exempt` and `forwarded` call the next handler, without and with a principal in the request's
-- state; `audited` is the refusal that is written to the access log.
pub data Verdict : Type 0 where
  exempt server_error : Verdict
  forwarded : Principal → Verdict
  refused : ℕ → Verdict
  audited : String → ℕ → Verdict

unfoldable pub is_exempt : HttpRequest → Bool
is_exempt r = str_eq r.method "OPTIONS" || (str_eq r.path "/healthz" || str_eq r.path "/metrics")

-- auth[7:].strip(), where the header begins with "bearer " in any case
unfoldable pub bearer_token : HttpRequest → Option String
bearer_token r =
    if lower_starts_with (codes "bearer ") r.authorization
    then some (strip (drop_chars 7 r.authorization))
    else none

abbrev pub judge : HttpRequest → Answer → Verdict
judge r raises = server_error
judge r nobody = refused 403
judge r (someone p) =
    if not (endpoint_allowed p r.method r.path) then audited p.name 403 else forwarded p

module _ (sha256_hex : String → Codes) (owner_key : String) (file : Option KeysFile) (now : ℤ) where
  abbrev pub present : HttpRequest → Option String → Cache → Cache × Verdict
  present r none c = (c, refused 403)
  present r (some token) c =
      let (c', answer) = authenticate sha256_hex owner_key file now token c in (c', judge r answer)

  unfoldable pub require_bearer : HttpRequest → Cache → Cache × Verdict
  require_bearer r c =
      if is_exempt r
      then (c, exempt)
      else if str_eq owner_key ""
      then (c, refused 503)
      else present r (bearer_token r) c

-- ===== src/FetchGuard/Fetch.antt =====
-- `check_target` and `_fetch` of scripts/files/web_fetch_guard.py. Parsing of urls and addresses, the resolver and the
-- servers are arguments; the resolver and the servers may answer each hop as they like.
use local_gpu_cluster.Prelude.{
  ℕ, ◌+◌, ◌-◌, zero, suc, String, Bool, true, false, not, ◌||◌, Option, none, some, List, [], ◌∷◌,
  ◌++◌, length, ltb, ◌==◌, str_eq, if◌then◌else◌,
}
use local_gpu_cluster.FetchGuard.Address.{Ip, is_public}

-- `urlparse`, with the host in lower case and the default port.
pub record Parsed : Type 0 where
  pub scheme : String
  pub host : String
  pub port : ℕ

pub data Refusal : Type 0 where
  invalid_url scheme_not_allowed missing_host host_denied dns_resolution_failed unparseable_ip
        private_range :
      Refusal
  content_encoding_not_supported too_many_redirects : Refusal

-- A request that is made: the parsed url and the address that it connects to.
pub record Hop : Type 0 where
  pub parsed : Parsed
  pub ip : Ip

pub data Checked : Type 0 where
  refused : Refusal → Checked
  target : Hop → Checked

-- DENY_HOSTS
abbrev pub is_denied : String → Bool
is_denied h =
    str_eq h "169.254.169.254"
    || (str_eq h "metadata.google.internal"
        || (str_eq h "metadata"
            || (str_eq h "169.254.170.2"
                || (str_eq h "localhost"
                    || (str_eq h "127.0.0.1" || (str_eq h "::1" || str_eq h "0.0.0.0"))))))

abbrev pub is_web : String → Bool
is_web s = str_eq s "http" || str_eq s "https"

-- REDIRECT_STATUSES
abbrev pub is_redirect : ℕ → Bool
is_redirect n = n == 301 || (n == 302 || (n == 303 || (n == 307 || n == 308)))

pub record Response : Type 0 where
  pub status_code : ℕ
  -- The url that the location header leads to, if it has one that is not empty.
  pub location : Option String
  -- content-encoding, stripped and in lower case, or "identity"
  pub encoding : String
  pub chunks : List (List ℕ)

pub record Page : Type 0 where
  pub status : ℕ
  pub body : List ℕ
  pub truncated : Bool

pub data Fetched : Type 0 where
  error : Refusal → Fetched
  page : Page → Fetched

abbrev pub take : ℕ → List ℕ → List ℕ
take zero xs = []
take (suc n) [] = []
take (suc n) (x ∷ xs) = x ∷ take n xs

-- The loop over the chunks: the body with at most one byte more than the cap, and whether it broke off.
unfoldable pub read_capped : ℕ → List ℕ → List (List ℕ) → List ℕ × Bool
read_capped max_bytes body [] = (body, false)
read_capped max_bytes body (chunk ∷ stream) =
    let more = body ++ take (max_bytes + 1 - length body) chunk in
    let rest = read_capped max_bytes more stream in
    if ltb max_bytes (length more) then (more, true) else rest

abbrev pub page_of : ℕ → Response → Page
page_of max_bytes r =
    let (body, truncated) = read_capped max_bytes [] r.chunks in
    record { status = r.status_code; body = take max_bytes body; truncated = truncated }

abbrev pub plain : String → Bool
plain e = str_eq e "" || str_eq e "identity"

abbrev pub respond : ℕ → Response → Fetched
respond max_bytes r =
    if plain r.encoding then page (page_of max_bytes r) else error content_encoding_not_supported

module _ (is_global : Ip → Bool) (parse_ip : String → Option Ip) where
  abbrev pub check_ip : Option Ip → Option Refusal
  check_ip none = some unparseable_ip
  check_ip (some ip) = if is_public is_global ip then none else some private_range

  -- The loop over the addresses: every one must be public, and the first is the one that is used.
  unfoldable pub vet_all : List String → Option Refusal
  vet_all [] = none
  vet_all (a ∷ as') =
      let rest = vet_all as' in elim (check_ip (parse_ip a)) [ none ↦ rest | some r ↦ some r ]

  abbrev pub first_target : Parsed → Option Ip → Checked
  first_target p none = refused unparseable_ip
  first_target p (some ip) = target (record { parsed = p; ip = ip })

  abbrev pub vetted : Parsed → String → Option Refusal → Checked
  vetted p a (some r) = refused r
  vetted p a none = first_target p (parse_ip a)

  abbrev pub check_addresses : Parsed → Option (List String) → Checked
  check_addresses p none = refused dns_resolution_failed
  check_addresses p (some []) = refused dns_resolution_failed
  check_addresses p (some (a ∷ as')) = vetted p a (vet_all (a ∷ as'))

  -- A literal address is checked as it is; the resolver is `none` where it raises.
  abbrev pub addresses :
      Parsed → Option Ip → (String → ℕ → Option (List String)) → Option (List String)
  addresses p (some ip) resolve = some (p.host ∷ [])
  addresses p none resolve = resolve p.host p.port

  abbrev pub check_parsed : (String → ℕ → Option (List String)) → Option Parsed → Checked
  check_parsed resolve none = refused invalid_url
  check_parsed resolve (some p) =
      if not (is_web p.scheme)
      then refused scheme_not_allowed
      else if str_eq p.host ""
      then refused missing_host
      else if is_denied p.host
      then refused host_denied
      else check_addresses p (addresses p (parse_ip p.host) resolve)

  module _ (parse_url : String → Option Parsed) (resolve : ℕ → String → ℕ → Option (List String))
      (serve : ℕ → Hop → Response) (max_bytes : ℕ) where
    -- What a response comes to: a redirect goes on, with `rest`, at the next url.
    abbrev pub follow :
        Hop → Response → (String → List Hop × Fetched) → Option String → List Hop × Fetched
    follow hop r rest none = (hop ∷ [], respond max_bytes r)
    follow hop r rest (some next) =
        if is_redirect r.status_code
        then (hop ∷ (rest next).0, (rest next).1)
        else (hop ∷ [], respond max_bytes r)

    abbrev pub visit : ℕ → (String → List Hop × Fetched) → Checked → List Hop × Fetched
    visit left rest (refused r) = ([], error r)
    visit left rest (target hop) = let r = serve left hop in follow hop r rest r.location

    -- `_fetch`, with this many requests left: the requests made, in order, and the result.
    unfoldable pub fetch : ℕ → String → List Hop × Fetched
    fetch zero current = ([], error too_many_redirects)
    fetch (suc left) current =
        visit left (fetch left) (check_parsed (resolve left) (parse_url current))

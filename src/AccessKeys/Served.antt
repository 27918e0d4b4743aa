-- ===== src/AccessKeys/Served.antt =====
-- Under scripts/files/access_keys.py.
-- What the requests before leave in the cache of `KeyStore`.
use local_gpu_cluster.Prelude.{
  if_either, ◌≡◌, ◌≢◌, refl, sym, ◌∙◌, String, Bool, true, false, Option, none, some, List, [], ◌∷◌,
  ap, arith, All, str_eq, eq_iff, if◌then◌else◌,
}
use local_gpu_cluster.Prelude.Int.{ℤ}
use local_gpu_cluster.Prelude.Text.{Codes}
use local_gpu_cluster.AccessKeys.Principal.{owner_principal}
use local_gpu_cluster.AccessKeys.Store.{
  Entry, KeysFile, same_signature, empty_cache, Answer, parse_content, Cache, cached,
  reload_if_changed, raises, nobody, someone, is_owner_key, match_entries, authenticate,
}

-- A cache that was filled from a file with the signature of `f` holds the entries of `f`.
abbrev pub Coherent : Cache → KeysFile → Type 0
Coherent c f = cached c.sig f.sig ≡ true → parse_content f.content ≡ some c.entries

-- A request, and the keys file as it is then.
pub record Request : Type 0 where
  pub file : Option KeysFile
  pub now : ℤ
  pub presented : String

-- A file that makes no reload raise, and that is not taken for `f` unless it has the same content.
abbrev pub IsTame : KeysFile → Option KeysFile → Type 0
IsTame f none = Unit
IsTame f (some g) =
    (parse_content g.content ≢ none) × (same_signature f.sig g.sig ≡ true → g.content ≡ f.content)

module _ (sha256_hex : String → Codes) (owner_key : String) where
  -- The cache after requests.
  abbrev pub serve : List Request → Cache → Cache
  serve [] c = c
  serve (r ∷ rs) c = serve rs (authenticate sha256_hex owner_key r.file r.now r.presented c).0

  reload-Coherent :
      (f : KeysFile) (file : Option KeysFile) (c : Cache)
      → IsTame f file
      → Coherent c f
      → Coherent (reload_if_changed file c).0 f
  unfolding reload_if_changed
  reload-Coherent f none c t k = λ e. absurd cc
  reload-Coherent f (some g) c (parses, same) k =
      let loaded : Cache × Bool = elim (parse_content g.content) [
        | none ↦ (record c { sig = some g.sig }, true)
        | some entries ↦ (record { sig = some g.sig; entries = entries }, false)
      ] in
      if_either (λ (o : Cache × Bool). Coherent o.0 f) (cached c.sig g.sig) (c, false) loaded
        (λ e. k) (λ e. fresh (parse_content g.content) refl)
    where
      fresh :
          (o : Option (List Entry))
          → parse_content g.content ≡ o
          → (let loaded : Cache × Bool = elim o [
            | none ↦ (record c { sig = some g.sig }, true)
            | some entries ↦ (record { sig = some g.sig; entries = entries }, false)
          ] in
              Coherent loaded.0 f)
      fresh none e = absurd (parses e)
      fresh (some entries) e = λ k'. ap parse_content (sym (same k')) ∙ e

  authenticate-Coherent :
      (f : KeysFile) (r : Request) (c : Cache)
      → IsTame f r.file
      → Coherent c f
      → Coherent (authenticate sha256_hex owner_key r.file r.now r.presented c).0 f
  unfolding authenticate
  authenticate-Coherent f r c t k =
      let (c', failed) = reload_if_changed r.file c in
      let answered : Cache × Answer = (
        c',
        if failed then raises else match_entries sha256_hex owner_key r.presented r.now c'.entries,
      ) in
      if_either (λ (o : Cache × Answer). Coherent o.0 f) (str_eq r.presented "") (c, nobody)
        (if is_owner_key owner_key r.presented then (c, someone owner_principal) else answered)
        (λ e. k)
        (λ e.
          if_either (λ (o : Cache × Answer). Coherent o.0 f) (is_owner_key owner_key r.presented)
            (c, someone owner_principal) answered (λ e'. k) (λ e'. reload-Coherent f r.file c t k))

  serve-Coherent :
      (f : KeysFile) (rs : List Request) (c : Cache)
      → All (λ r. IsTame f r.file) rs
      → Coherent c f
      → Coherent (serve rs c) f
  serve-Coherent f [] c t k = k
  serve-Coherent f (r ∷ rs) c (t, ts) k =
      serve-Coherent f rs (authenticate sha256_hex owner_key r.file r.now r.presented c).0 ts
        (authenticate-Coherent f r c t k)

  -- The cache of a router that started without one.
  pub served-Coherent :
      (f : KeysFile) (rs : List Request)
      → All (λ r. IsTame f r.file) rs
      → Coherent (serve rs empty_cache) f
  served-Coherent f rs t = serve-Coherent f rs empty_cache t λ e. absurd cc

  -- Requests with the same file, each with its time and what it presents.
  abbrev pub requests_to : KeysFile → List (ℤ × String) → List Request
  requests_to f [] = []
  requests_to f ((now, presented) ∷ later) =
      record { file = some f; now = now; presented = presented } ∷ requests_to f later

  -- A cache with the signature of the file stays as it is.
  cached-same : (f : KeysFile) → cached (some f.sig) f.sig ≡ true
  cached-same f = ground arith

  reload-same :
      (f : KeysFile) (c : Cache) → c.sig ≡ some f.sig → reload_if_changed (some f) c ≡ (c, false)
  unfolding reload_if_changed
  reload-same f c h = let same : cached c.sig f.sig ≡ true = rw h (cached-same f) in rw same refl

  authenticate-same :
      (f : KeysFile) (now : ℤ) (presented : String) (c : Cache)
      → c.sig ≡ some f.sig
      → (authenticate sha256_hex owner_key (some f) now presented c).0 ≡ c
  unfolding authenticate
  authenticate-same f now presented c h = ground (arith, reload-same f c h)

  pub serve-same :
      (f : KeysFile) (later : List (ℤ × String)) (c : Cache)
      → c.sig ≡ some f.sig
      → serve (requests_to f later) c ≡ c
  serve-same f [] c h = refl
  serve-same f ((now, presented) ∷ later) c h =
      ap (serve (requests_to f later)) (authenticate-same f now presented c h)
      ∙ serve-same f later c h

  pub authenticate-cached :
      (f : KeysFile) (now : ℤ) (presented : String) (c : Cache)
      → c.sig ≡ some f.sig
      → presented ≢ owner_key
      → presented ≢ ""
      → (authenticate sha256_hex owner_key (some f) now presented c).1
        ≡ match_entries sha256_hex owner_key presented now c.entries
  unfolding authenticate
  authenticate-cached f now presented c h other given =
      ground (arith, reload-same f c h, eq_iff presented owner_key, eq_iff presented "")

  pub authenticate-raises :
      (f : KeysFile) (now : ℤ) (presented : String) (c : Cache)
      → cached c.sig f.sig ≡ false
      → parse_content f.content ≡ none
      → presented ≢ owner_key
      → presented ≢ ""
      → authenticate sha256_hex owner_key (some f) now presented c
        ≡ (record c { sig = some f.sig }, raises)
  unfolding authenticate reload_if_changed
  authenticate-raises f now presented c changed read other given =
      ground (arith, eq_iff presented owner_key, eq_iff presented "")

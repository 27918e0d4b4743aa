-- ===== src/AccessKeys/Authentication.antt =====
-- Whom `KeyStore.authenticate` lets in.
use local_gpu_cluster.Prelude.{
  ◌≡◌, ◌≢◌, refl, ◌↔◌, ◌⊎◌, inl, inr, String, false, Option, none, some, List, [], ◌∷◌, ◌++◌, ap,
  arith, All, Any, str_eq, eq_iff, Bool-cases,
}
use local_gpu_cluster.Prelude.Int.{ℤ, ◌<ℤ◌}
use local_gpu_cluster.Prelude.Text.{Codes, codes_eq}
use local_gpu_cluster.AccessKeys.Principal.{Principal, owner_principal}
use local_gpu_cluster.AccessKeys.Served.{Request, IsTame, Coherent, serve, served-Coherent}
use local_gpu_cluster.AccessKeys.Store.{
  Entry, KeysFile, parse_content, Cache, empty_cache, cached, reload_if_changed, find_match, nobody,
  someone, unexpired, has_expired, is_owner_key, match_entries, authenticate,
}
use local_gpu_cluster.AccessKeys.Entries.{
  file_entries, ParsesTo, find_match-absent, find_match-last, find_match-Any, content-Any,
}

abbrev pub IsUnexpired : ℤ → Option ℤ → Type 0
IsUnexpired now none = Unit
IsUnexpired now (some t) = now <ℤ t

IsUnexpired-iff : (now : ℤ) (t : Option ℤ) → (has_expired now t ≡ false) ↔ IsUnexpired now t
IsUnexpired-iff now none = (λ h. tt, λ h. refl)
IsUnexpired-iff now (some t) = (λ h. ground arith, λ h. ground arith)

unexpired-someone :
    (now : ℤ) (o : Option Principal) (p : Principal)
    → unexpired now o ≡ someone p
    → (o ≡ some p) × IsUnexpired now p.expires
unexpired-someone now none p h = cc
unexpired-someone now (some q) p h = elim (Bool-cases (has_expired now q.expires)) [
  | inl late ↦ absurd (ground arith)
  | inr live ↦
      let same : q ≡ p = ground arith in
      (ap some same, (IsUnexpired-iff now p.expires).0 (rw (← same) live))
]

module _ (f : KeysFile) (c : Cache) where
  -- A reload that raises nothing leaves the entries of the file.
  reload-content :
      Coherent c f
      → (reload_if_changed (some f) c).1 ≡ false
      → parse_content f.content ≡ some (reload_if_changed (some f) c).0.entries
  unfolding reload_if_changed
  reload-content coherent h = ground (arith, coherent)

module _ (sha256_hex : String → Codes) (owner_key : String) (f : KeysFile) (now : ℤ)
    (presented : String) (c : Cache) where
  abbrev loaded_entries : List Entry
  loaded_entries = (reload_if_changed (some f) c).0.entries

  scoped_sound :
      (p : Principal)
      → Coherent c f
      → (reload_if_changed (some f) c).1 ≡ false
      → match_entries sha256_hex owner_key presented now loaded_entries ≡ someone p
      → Any (ParsesTo (sha256_hex presented) p) (file_entries f.content) × IsUnexpired now p.expires
  scoped_sound p coherent loaded h =
      let digest = sha256_hex presented in
      let (found, live) = unexpired-someone now (find_match digest loaded_entries none) p h in
      elim (find_match-Any digest p loaded_entries none found) [
        | inl m ↦ (
          content-Any digest p f.content loaded_entries (reload-content f c coherent loaded) m,
          live,
        )
        | inr e ↦ absurd (ground arith)
      ]

  -- With a cache that holds what the file holds.
  Coherent-sound :
      (p : Principal)
      → Coherent c f
      → (authenticate sha256_hex owner_key (some f) now presented c).1 ≡ someone p
      → ((p ≡ owner_principal) × (presented ≡ owner_key) × (presented ≢ ""))
        ⊎ (Any (ParsesTo (sha256_hex presented) p) (file_entries f.content)
            × IsUnexpired now p.expires)
  unfolding authenticate
  Coherent-sound p coherent h = elim (Bool-cases (str_eq presented "")) [
    | inl empty ↦ absurd (ground arith)
    | inr given ↦ elim (Bool-cases (is_owner_key owner_key presented)) [
      | inl own ↦ inl (ground (arith, eq_iff presented owner_key, eq_iff presented ""))
      | inr other ↦ elim (Bool-cases (reload_if_changed (some f) c).1) [
        | inl failed ↦ absurd (ground arith)
        | inr loaded ↦ inr (scoped_sound p coherent loaded (ground arith))
      ]
    ]
  ]

  -- A key whose digest no entry of a readable, replaced file has is refused at the next request,
  -- whatever the cache held: a revocation takes effect at once.
  pub revoked_at_once :
      (es : List Entry)
      → cached c.sig f.sig ≡ false
      → parse_content f.content ≡ some es
      → All (λ e. codes_eq (sha256_hex presented) e.0 ≡ false) es
      → presented ≢ owner_key
      → (authenticate sha256_hex owner_key (some f) now presented c).1 ≡ nobody
  unfolding authenticate reload_if_changed
  revoked_at_once es changed read absent other =
      ground
        (arith, eq_iff presented owner_key, find_match-absent (sha256_hex presented) es none absent)

  -- A key that was just added, and stands last in the file, is let in until it expires, if the
  -- file has no entry that the reload cannot take.
  pub added_at_once :
      (before : List Entry) (p : Principal)
      → cached c.sig f.sig ≡ false
      → parse_content f.content ≡ some (before ++ (sha256_hex presented, p) ∷ [])
      → IsUnexpired now p.expires
      → presented ≢ owner_key
      → presented ≢ ""
      → (authenticate sha256_hex owner_key (some f) now presented c).1 ≡ someone p
  unfolding authenticate reload_if_changed
  added_at_once before p changed read live other given = ground (
    arith,
    eq_iff presented owner_key,
    eq_iff presented "",
    find_match-last (sha256_hex presented) p before none,
    (IsUnexpired-iff now p.expires).1 live,
  )

module _ (sha256_hex : String → Codes) (owner_key : String) where
  -- Let the router have started without a cache and served any requests, over any files, of which
  -- none made the reload raise and none had the signature of the present file and another content.
  -- Then whoever is let in is the owner, who presented the owner's key, or a principal of the
  -- present file: one of the values in its list of keys is a valid entry with the SHA-256 of the
  -- presented text, and has not expired.
  pub authenticate_sound :
      (f : KeysFile) (before : List Request) (now : ℤ) (presented : String) (p : Principal)
      → All (λ r. IsTame f r.file) before
      → (authenticate sha256_hex owner_key
          (some f)
          now
          presented
          (serve sha256_hex owner_key before empty_cache)).1
        ≡ someone p
      → ((p ≡ owner_principal) × (presented ≡ owner_key) × (presented ≢ ""))
        ⊎ (Any (ParsesTo (sha256_hex presented) p) (file_entries f.content)
            × IsUnexpired now p.expires)
  authenticate_sound f before now presented p tame h =
      Coherent-sound sha256_hex owner_key f now presented
        (serve sha256_hex owner_key before empty_cache) p
        (served-Coherent sha256_hex owner_key f before tame) h

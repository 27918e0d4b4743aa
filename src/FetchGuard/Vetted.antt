-- ===== src/FetchGuard/Vetted.antt =====
-- What scripts/files/web_fetch_guard.py promises: every request goes to a vetted address, there are only so many of
-- them, and the body is the start of what the server sent.
use mathlib.Core.List.{append_assoc, append-nil}
use local_gpu_cluster.Prelude.{
  ℕ, ◌+◌, ◌-◌, ◌≤◌, ◌≡◌, refl, sym, ap, ◌∙◌, inl, inr, zero, suc, min, String, Bool, true, false,
  Option, none, some, List, [], ◌∷◌, ◌++◌, length, length-append, ltb, str_eq, All, Bool-cases,
  arith,
}
use local_gpu_cluster.FetchGuard.Address.{Ip, is_public}
use local_gpu_cluster.FetchGuard.Fetch.{
  Parsed, Refusal, Hop, Checked, refused, target, is_denied, is_web, is_redirect, Response, Fetched,
  take, read_capped, page_of, vet_all, first_target, vetted, check_addresses, addresses,
  check_parsed, follow, visit, fetch,
}

module _ (is_global : Ip → Bool) (parse_ip : String → Option Ip) where
  -- A request over http or https, to a host that is not denied, at an address that is public.
  abbrev pub IsVetted : Hop → Type 0
  IsVetted h =
      (is_web h.parsed.scheme ≡ true)
      × (is_denied h.parsed.host ≡ false)
      × (is_public is_global h.ip ≡ true)

  abbrev pub TargetOk : Parsed → Checked → Type 0
  TargetOk p (refused r) = Unit
  TargetOk p (target h) = (h.parsed ≡ p) × (is_public is_global h.ip ≡ true)

  first-public :
      (a : String) (as' : List String) (ip : Ip)
      → parse_ip a ≡ some ip
      → vet_all is_global parse_ip (a ∷ as') ≡ none
      → is_public is_global ip ≡ true
  unfolding vet_all
  first-public a as' ip e h = elim (Bool-cases (is_public is_global ip)) [
    | inl y ↦ y
    | inr n ↦ absurd (ground arith)
  ]

  first-TargetOk :
      (p : Parsed) (a : String) (as' : List String) (i : Option Ip)
      → parse_ip a ≡ i
      → vet_all is_global parse_ip (a ∷ as') ≡ none
      → TargetOk p (first_target is_global parse_ip p i)
  first-TargetOk p a as' none e h = tt
  first-TargetOk p a as' (some ip) e h = (refl, first-public a as' ip e h)

  vetted-TargetOk :
      (p : Parsed) (a : String) (as' : List String) (o : Option Refusal)
      → vet_all is_global parse_ip (a ∷ as') ≡ o
      → TargetOk p (vetted is_global parse_ip p a o)
  vetted-TargetOk p a as' (some r) h = tt
  vetted-TargetOk p a as' none h = first-TargetOk p a as' (parse_ip a) refl h

  check_addresses-TargetOk :
      (p : Parsed) (o : Option (List String)) → TargetOk p (check_addresses is_global parse_ip p o)
  check_addresses-TargetOk p none = tt
  check_addresses-TargetOk p (some []) = tt
  check_addresses-TargetOk p (some (a ∷ as')) =
      vetted-TargetOk p a as' (vet_all is_global parse_ip (a ∷ as')) refl

  abbrev pub HopOk : Checked → Type 0
  HopOk (refused r) = Unit
  HopOk (target h) = IsVetted h

  target-HopOk :
      (p : Parsed) (c : Checked)
      → is_web p.scheme ≡ true
      → is_denied p.host ≡ false
      → TargetOk p c
      → HopOk c
  target-HopOk p (refused r) w d t = tt
  target-HopOk p (target h) w d (e, public) =
      (ap (λ q. is_web q.scheme) e ∙ w, ap (λ q. is_denied q.host) e ∙ d, public)

  check_parsed-HopOk :
      (resolve : String → ℕ → Option (List String)) (o : Option Parsed)
      → HopOk (check_parsed is_global parse_ip resolve o)
  check_parsed-HopOk resolve none = tt
  check_parsed-HopOk resolve (some p) = elim (Bool-cases (is_web p.scheme)) [
    | inr n ↦ rw n tt
    | inl w ↦ elim (Bool-cases (str_eq p.host "")) [
      | inl y ↦ rw (w, y) tt
      | inr o ↦ elim (Bool-cases (is_denied p.host)) [
        | inl y ↦ rw (w, o, y) tt
        | inr d ↦ if_HopOk w o d (
            target-HopOk p _ w d (
              check_addresses-TargetOk p
                (addresses is_global parse_ip p (parse_ip p.host) resolve)))
      ]
    ]
  ]
    where
      if_HopOk :
          is_web p.scheme ≡ true
          → str_eq p.host "" ≡ false
          → is_denied p.host ≡ false
          → HopOk (
              check_addresses is_global parse_ip p
                (addresses is_global parse_ip p (parse_ip p.host) resolve))
          → HopOk (check_parsed is_global parse_ip resolve (some p))
      if_HopOk w o d t = rw (w, o, d) t

  module _ (parse_url : String → Option Parsed) (resolve : ℕ → String → ℕ → Option (List String))
      (serve : ℕ → Hop → Response) (max_bytes : ℕ) where
    -- What the rest of the loop keeps, for every url.
    abbrev pub IsKept : ℕ → List Hop × Fetched → Type 0
    IsKept left r = All IsVetted r.0 × (length r.0 ≤ left)

    follow-IsKept :
        (left : ℕ) (hop : Hop) (r : Response) (rest : String → List Hop × Fetched)
        (o : Option String)
        → IsVetted hop
        → ((u : String) → IsKept left (rest u))
        → IsKept
            (left + 1)
            (follow is_global parse_ip parse_url resolve serve max_bytes hop r rest o)
    follow-IsKept left hop r rest none v k = ((v, tt), omega arith)
    follow-IsKept left hop r rest (some next) v k = elim (Bool-cases (is_redirect r.status_code)) [
      | inl y ↦ rw y ((v, (k next).0), omega (arith, (k next).1))
      | inr n ↦ rw n ((v, tt), omega arith)
    ]

    visit-IsKept :
        (left : ℕ) (rest : String → List Hop × Fetched) (c : Checked)
        → HopOk c
        → ((u : String) → IsKept left (rest u))
        → IsKept (left + 1) (visit is_global parse_ip parse_url resolve serve max_bytes left rest c)
    visit-IsKept left rest (refused r) v k = (tt, omega arith)
    visit-IsKept left rest (target hop) v k =
        follow-IsKept left hop (serve left hop) rest (serve left hop).location v k

    -- Whatever the resolver and the servers answer at each hop, every request that is made, the first and
    -- those after a redirect, is over http or https, to a host that is not denied, and connects to
    -- an address that was checked to be public; and there are at most as many as allowed.
    pub fetch-IsKept :
        (left : ℕ) (url : String)
        → IsKept left (fetch is_global parse_ip parse_url resolve serve max_bytes left url)
    unfolding fetch
    fetch-IsKept zero url = (tt, omega arith)
    fetch-IsKept (suc left) url =
        let (v, le) =
          visit-IsKept left (fetch is_global parse_ip parse_url resolve serve max_bytes left) _
            (check_parsed-HopOk (resolve left) (parse_url url)) (fetch-IsKept left) in
        (v, omega (arith, le))

abbrev pub join : List (List ℕ) → List ℕ
join [] = []
join (c ∷ cs) = c ++ join cs

take-all : (n : ℕ) (xs : List ℕ) → length xs ≤ n → take n xs ≡ xs
take-all zero [] le = refl
take-all zero (x ∷ xs) le = ground arith
take-all (suc n) [] le = refl
take-all (suc n) (x ∷ xs) le = ap (λ ys. x ∷ ys) (take-all n xs (omega arith))

length-take : (n : ℕ) (xs : List ℕ) → length (take n xs) ≡ min n (length xs)
length-take zero xs = ground arith
length-take (suc n) [] = ground arith
length-take (suc n) (x ∷ xs) = ground (arith, length-take n xs)

take-take :
    (n m : ℕ) (ys zs : List ℕ) → n ≤ m → n ≤ length ys → take n (take m ys) ≡ take n (ys ++ zs)
take-take zero m ys zs a b = refl
take-take (suc n) zero ys zs a b = ground arith
take-take (suc n) (suc m) [] zs a b = ground arith
take-take (suc n) (suc m) (y ∷ ys) zs a b =
    ap (λ xs. y ∷ xs) (take-take n m ys zs (omega arith) (omega arith))

take-append :
    (n m : ℕ) (xs ys zs : List ℕ)
    → n ≤ length xs + m
    → n ≤ length xs + length ys
    → take n (xs ++ take m ys) ≡ take n (xs ++ (ys ++ zs))
take-append zero m xs ys zs a b = refl
take-append (suc n) m [] ys zs a b = take-take (suc n) m ys zs (omega arith) (omega arith)
take-append (suc n) m (x ∷ xs) ys zs a b =
    ap (λ ws. x ∷ ws) (take-append n m xs ys zs (omega arith) (omega arith))

read_capped-take :
    (cap : ℕ) (body : List ℕ) (stream : List (List ℕ))
    → length body ≤ cap
    → let r = read_capped cap body stream in
      (take cap r.0 ≡ take cap (body ++ join stream))
      × (r.1 ≡ ltb cap (length (body ++ join stream)))
unfolding read_capped
read_capped-take cap body [] le =
    (ap (take cap) (sym (append-nil body)), ground (arith, length-append body []))
read_capped-take cap body (chunk ∷ stream) le =
    let more : List ℕ = body ++ take (cap + 1 - length body) chunk in
    let size = length-append body (take (cap + 1 - length body) chunk) in
    let part = length-take (cap + 1 - length body) chunk in
    elim (Bool-cases (ltb cap (length more))) [
      | inl y ↦ rw y (
        take-append cap (cap + 1 - length body) body chunk (join stream) (omega arith)
            (ground (arith, size, part)),
        ground (
          arith,
          size,
          part,
          length-append body (chunk ++ join stream),
          length-append chunk (join stream),
        ),
      )
      | inr n ↦
          let whole : take (cap + 1 - length body) chunk ≡ chunk =
            take-all (cap + 1 - length body) chunk (ground (arith, size, part)) in
          let (t, e) = read_capped-take cap more stream (ground arith) in
          let same : more ++ join stream ≡ body ++ (chunk ++ join stream) =
            ap (λ c. (body ++ c) ++ join stream) whole ∙ append_assoc body chunk (join stream) in
          rw n (t ∙ ap (take cap) same, e ∙ ap (λ b. ltb cap (length b)) same)
    ]

-- The body of a page is the start of what the server sent, up to the cap, and the page says that it was cut exactly
-- when there was more.
pub page_of-prefix :
    (max_bytes : ℕ) (r : Response)
    → ((page_of max_bytes r).body ≡ take max_bytes (join r.chunks))
      × ((page_of max_bytes r).truncated ≡ ltb max_bytes (length (join r.chunks)))
page_of-prefix max_bytes r = read_capped-take max_bytes [] r.chunks (omega arith)

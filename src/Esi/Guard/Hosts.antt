-- ===== src/Esi/Guard/Hosts.antt =====
-- esi/ssrf.go: the hosts that a pattern stands for.
use titip.Prelude.{
  subst, take-append-drop, length-take, ℕ, ◌-◌, ◌<◌, ◌≡◌, ◌≢◌, refl, sym, ap, ◌∙◌, ◌⊎◌, inl, inr,
  true, false, ◌&&◌, ◌||◌, Option, some, List, [], ◌∷◌, ◌++◌, any, ltb, arith, Bool-cases,
  Option-cases, length, take, drop,
}
use titip.Text.{Text, codes, ◌==ₜ◌, ==ₜ_iff, has_prefix}
use titip.Http.{is_empty}
use titip.Esi.Guard.{
  Ip, SsrfConfig, has_suffix, pattern_form, host_form, matches_pattern, match_host, control, dials,
  split_host_port,
}

-- A pattern stands for every host, for itself, or, behind `*.`, for a domain and what is below it.
pub data Stands (p h : Text) : Type 0 where
  everything : p ≡ codes "*" → Stands p h
  itself : p ≡ h → Stands p h
  root : p ≡ codes "*." ++ h → Stands p h
  below :
      (domain sub : Text)
      → p ≡ codes "*." ++ domain
      → sub ≢ []
      → h ≡ sub ++ (codes "." ++ domain)
      → Stands p h

has_prefix-split : (s t : Text) → has_prefix s t ≡ true → t ≡ s ++ drop (length s) t
unfolding has_prefix
has_prefix-split [] t h = refl
has_prefix-split (c ∷ s) [] h = cc
has_prefix-split (c ∷ s) (d ∷ t) h = ground (arith, has_prefix-split s t)

take_nonempty : (n : ℕ) (t : Text) → 0 < n → 0 < length t → take n t ≢ []
take_nonempty n t hn ht e = omega (arith, length-take n t, ap length e)

has_suffix-split : (s t : Text) → has_suffix s t ≡ true → t ≡ take (length t - length s) t ++ s
unfolding has_suffix
has_suffix-split s t h =
    sym (take-append-drop (length t - length s) t)
    ∙ ap (λ u. take (length t - length s) t ++ u)
        ((==ₜ_iff (drop (length t - length s) t) s).0 (ground (arith, h)))

-- Behind `*.`, where `domain` is what follows it.
below-Stands :
    (p h domain : Text)
    → p ≡ codes "*." ++ domain
    → (has_suffix (codes "." ++ domain) h && ltb (length (codes "." ++ domain)) (length h)) ≡ true
    → Stands p h
below-Stands p h domain e t =
    below domain (take (length h - length (codes "." ++ domain)) h) e
      (take_nonempty _ h (ground arith) (ground arith))
      (has_suffix-split (codes "." ++ domain) h (ground (arith, t)))

wildcard-Stands :
    (p h : Text)
    → has_prefix (codes "*.") p ≡ true
    → (has_suffix (drop 1 p) h && ltb (length (drop 1 p)) (length h) || h ==ₜ drop 2 p) ≡ true
    → Stands p h
wildcard-Stands p h w t =
    let split = has_prefix-split (codes "*.") p w in
    elim (Bool-cases (h ==ₜ drop 2 p)) [
      | inl e ↦ root (split ∙ ap (λ u. codes "*." ++ u) (sym ((==ₜ_iff h (drop 2 p)).0 e)))
      | inr e ↦
          let dotted : drop 1 p ≡ codes "." ++ drop 2 p = ap (λ u. drop 1 u) split in
          let tail : (has_suffix (drop 1 p) h && ltb (length (drop 1 p)) (length h)) ≡ true =
            ground (arith, t, e) in
          below-Stands p h (drop 2 p) split
            (subst (λ u. (has_suffix u h && ltb (length u) (length h)) ≡ true) dotted tail)
    ]

matches_pattern-Stands :
    (h pattern : Text) → matches_pattern h pattern ≡ true → Stands (pattern_form pattern) h
unfolding matches_pattern
matches_pattern-Stands h pattern e =
    let p : Text = pattern_form pattern in
    elim (Bool-cases (p ==ₜ codes "*")) [
      | inl star ↦ everything ((==ₜ_iff p (codes "*")).0 star)
      | inr star ↦ elim (Bool-cases (p ==ₜ h)) [
        | inl same ↦ itself ((==ₜ_iff p h).0 same)
        | inr same ↦
            wildcard-Stands p h (ground (arith, e, star, same)) (ground (arith, e, star, same))
      ]
    ]

-- One of the patterns stands for the host.
abbrev pub IsListed : Text → List Text → Type 0
IsListed host [] = ⊥
IsListed host (p ∷ ps) = Stands (pattern_form p) (host_form host) ⊎ IsListed host ps

any-IsListed :
    (host : Text) (ps : List Text)
    → any (λ q. matches_pattern (host_form host) q) ps ≡ true
    → IsListed host ps
any-IsListed host [] e = cc
any-IsListed host (p ∷ ps) e = elim (Bool-cases (matches_pattern (host_form host) p)) [
  | inl m ↦ inl (matches_pattern-Stands (host_form host) p m)
  | inr m ↦ inr (any-IsListed host ps (ground (arith, e, m)))
]

match_host-IsListed :
    (host : Text) (ps : List Text)
    → is_empty ps ≡ false
    → match_host host ps ≡ true
    → IsListed host ps
unfolding match_host is_empty
match_host-IsListed host [] n e = cc
match_host-IsListed host (p ∷ ps) n e = any-IsListed host (p ∷ ps) e

-- Where hosts are listed, a connection is made only to a host for which a listed pattern stands, and
-- to an address that the dialer lets through, but where listed hosts may have private addresses.
pub dials-IsListed :
    (cfg : SsrfConfig) (addr : Text) (resolved : Option Ip)
    → is_empty cfg.allowed_hosts ≡ false
    → dials cfg addr resolved ≡ true
    → (host : Text) × (split_host_port addr ≡ some host)
      × IsListed host cfg.allowed_hosts
      × ((cfg.allow_private_ips_for_allowed_hosts ≡ true) ⊎ (control cfg resolved ≡ true))
unfolding dials
dials-IsListed cfg addr resolved n e = elim (Option-cases (split_host_port addr)) [
  | inl none_e ↦ ground (arith, none_e)
  | inr (host, some_e) ↦ (
    host,
    some_e,
    match_host-IsListed host cfg.allowed_hosts n (ground (arith, some_e)),
    ground (arith, some_e),
  )
]

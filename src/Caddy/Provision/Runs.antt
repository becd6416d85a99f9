-- ===== src/Caddy/Provision/Runs.antt =====
-- adapter/caddy/caddy.go: the parts of the options, applied one after the other by `New`.
use titip.Prelude.{
  ◌≡◌, refl, sym, subst, inl, inr, true, Option, none, some, List, [], ◌∷◌, ◌++◌, map, Option-cases,
  Bool-cases,
}
use titip.Options.{
  Codecs, TitipConfig, Titip, TitipOption, default_config, apply_titip_option, apply_options,
  with_processor, checked, new_titip, is_known, processor_options,
}
use titip.Esi.Options.{new_processor}
use titip.Key.{CacheKey}
use titip.Caddy.Provision.{collect}

-- The parts, applied one after the other.
pub data Runs : TitipConfig → List (Option (List TitipOption)) → TitipConfig → Type 0 where
  done : (c : TitipConfig) → Runs c [] c
  part :
      {c d e : TitipConfig} {x : Option (List TitipOption)} {xs : List (Option (List TitipOption))}
      (p : List TitipOption)
      → x ≡ some p
      → apply_options c (map some p) ≡ some e
      → Runs e xs d
      → Runs c (x ∷ xs) d

no_some {ℓ} : {A : Type ℓ} (a : A) → none ≡ some a → ⊥
no_some a e = cc

apply_options-append :
    (c d : TitipConfig) (p q : List TitipOption)
    → apply_options c (map some (p ++ q)) ≡ some d
    → (e : TitipConfig) × (apply_options c (map some p) ≡ some e)
      × (apply_options e (map some q) ≡ some d)
unfolding apply_options
apply_options-append c d [] q h = (c, refl, h)
apply_options-append c d (o ∷ p) q h = elim (Option-cases (apply_titip_option c o)) [
  | inl e ↦ absurd (no_some d (rw (e, apply_options) at h))
  | inr (f, e) ↦
      let (g, a, b) = apply_options-append f d p q (rw (e, apply_options) at h) in
      (g, rw (e, apply_options) a, b)
]

nothing_applied : (c d : TitipConfig) → apply_options c [] ≡ some d → c ≡ d
unfolding apply_options
nothing_applied c d h = cc

-- What is collected and applied runs part by part.
pub collect-Runs :
    (c d : TitipConfig) (xs : List (Option (List TitipOption))) (os : List TitipOption)
    → collect xs ≡ some os
    → apply_options c (map some os) ≡ some d
    → Runs c xs d
unfolding collect
collect-Runs c d [] os e h =
    let same : os ≡ [] = cc in rw (nothing_applied c d (rw same at h)) (done d)
collect-Runs c d (none ∷ xs) os e h = absurd (no_some os e)
collect-Runs c d (some p ∷ xs) os e h = elim (Option-cases (collect xs)) [
  | inl n ↦ absurd (no_some os (rw (n, collect) at e))
  | inr (q, f) ↦
      let joined : os ≡ p ++ q = cc (rw (f, collect) at e) in
      let (g, a, b) = apply_options-append c d p q (rw joined at h) in
      part p refl a (collect-Runs g d xs q f b)
]

processor-config : (c : TitipConfig) (t : Titip) → with_processor c ≡ some t → t.config ≡ c
unfolding with_processor
processor-config c t h = elim (Option-cases c.esi_options) [
  | inl e ↦ cc (rw (e, with_processor) at h)
  | inr (os, e) ↦ elim (Option-cases (new_processor (processor_options c os))) [
    | inl f ↦ absurd (no_some t (rw (e, f, with_processor) at h))
    | inr (p, f) ↦ cc (rw (e, f, with_processor) at h)
  ]
]

checked-config : (c : TitipConfig) (t : Titip) → checked c ≡ some t → with_processor c ≡ some t
unfolding checked
checked-config c t h = elim (Bool-cases (is_known c.storage_compression c.compressors)) [
  | inl e ↦ rw (e, checked) at h
  | inr e ↦ absurd (no_some t (rw (e, checked) at h))
]

-- The configuration of what `New` makes is what its options give, and its processor is made of it.
pub new_titip-config :
    (lib : Codecs) (key : CacheKey) (os : List (Option TitipOption)) (t : Titip)
    → new_titip lib key true os ≡ some t
    → (apply_options (default_config lib key) os ≡ some t.config)
      × (with_processor t.config ≡ some t)
unfolding new_titip
new_titip-config lib key os t h = elim (Option-cases (apply_options (default_config lib key) os)) [
  | inl e ↦ absurd (no_some t (rw (e, new_titip) at h))
  | inr (c, e) ↦
      let made : with_processor c ≡ some t = checked-config c t (rw (e, new_titip) at h) in
      let same : t.config ≡ c = processor-config c t made in
      (rw same e, subst (λ x. with_processor x ≡ some t) (sym same) made)
]

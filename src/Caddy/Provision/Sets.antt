-- ===== src/Caddy/Provision/Sets.antt =====
-- adapter/caddy/caddy.go: what each part of the options does to a configuration.
use titip.Prelude.{
  ℕ, ◌≡◌, inl, inr, Bool, true, false, not, any, ◌||◌, ◌&&◌, Option, none, some, List, [], ◌∷◌,
  ◌++◌, map, Option-cases, Bool-cases, if◌then◌else◌,
}
use titip.Prelude.Int.{ℤ, pos, leb_ℤ, ltb_ℤ}
use titip.Text.{Text, codes, to_lower, trim_space, ◌==ₜ◌}
use titip.Http.{is_empty}
use titip.Key.{CacheKey}
use titip.Validated.{where_valid}
use titip.Esi.Options.{EsiOption}
use titip.Options.{
  TitipConfig, TitipOption, without_convert_head_to_get, with_auto_invalidate_mutating_methods,
  with_respect_client_cache_control, with_server_timing, with_titip_metrics, with_titip_logger,
  with_storage_timeout, with_cache_status, with_background_fetch_timeout, with_cache_key,
  with_tag_header, with_storage_compression, with_esi, with_server_timing_cookie, is_nil, or_none,
  codec_name, apply_titip_option, apply_options,
}
use titip.Caddy.{KeyRules, TimingRules}
use titip.Caddy.Provision.{
  when, parsed, unless_blank, key_part, apply_rules, status_part, timing_of, timing_part,
}

valid_only {ℓ} : {A : Type ℓ} (b : Bool) (a e : A) → where_valid b a ≡ some e → e ≡ a
valid_only true a e h = cc
valid_only false a e h = cc

-- What is parsed of a text that is there.
parsed_found {ℓ κ} :
    {A : Type ℓ} {B : Type κ} (parse : Text → Option A) (b : ℕ) (t : Text) (f : A → B) (p : List B)
    → parsed parse (b ∷ t) f ≡ some p
    → (a : A) × (parse (b ∷ t) ≡ some a) × (p ≡ f a ∷ [])
parsed_found parse b t f p h = elim (Option-cases (parse (b ∷ t))) [
  | inl n ↦ cc (rw (n, parsed) at h)
  | inr (a, g) ↦ (a, g, cc (rw (g, parsed) at h))
]

-- What stands in place of a setting that a switch may turn to `value`.
abbrev pub turned : Option Bool → Bool → Bool → Bool → Bool
turned none v value old = old
turned (some true) true value old = value
turned (some false) false value old = value
turned (some true) false value old = old
turned (some false) true value old = old

-- The mode of Cache-Status that a text names.
abbrev pub mode_of : Text → ℤ
mode_of t =
    let low = to_lower t in
    if low ==ₜ codes "simple" || is_empty low
    then pos 0
    else if low ==ₜ codes "rfc9211"
    then pos 1
    else pos 2

-- A duration that a text gives, or the old one where there is no text.
abbrev pub duration_by : (Text → Option ℤ) → Text → ℤ → ℤ
duration_by parse [] old = old
duration_by parse (c ∷ t) old = elim (parse (c ∷ t)) [ none ↦ old | some d ↦ d ]

-- A text in its form `f`, or the old one where there is none.
abbrev pub text_by : (Text → Text) → Text → Text → Text
text_by f [] old = old
text_by f (c ∷ t) old = f (c ∷ t)

-- The rules of the app and then those of the route on the empty rules, or the old ones where there are none.
abbrev pub key_by : CacheKey → Option KeyRules → Option KeyRules → CacheKey → CacheKey
key_by empty none none old = old
key_by empty none (some r) old = apply_rules (some r) empty
key_by empty (some a) r old = apply_rules r (apply_rules (some a) empty)

abbrev pub timing_set : Bool → Text → Text → TitipConfig → TitipConfig
timing_set false name value c = c
timing_set true [] value c = record c { has_timing = true }
timing_set true (b ∷ name) value c = record c {
  has_timing = true;
  timing_cookie_name = trim_space (b ∷ name);
  timing_cookie_value = trim_space value;
}

abbrev pub timing_by : Option TimingRules → TitipConfig → TitipConfig
timing_by none c = c
timing_by (some t) c =
    timing_set (elim t.enabled [ none ↦ true | some b ↦ b ]) t.cookie_name t.cookie_value c

module _ (c e : TitipConfig) where
  one : (o : TitipOption) → apply_options c (some o ∷ []) ≡ some e → apply_titip_option c o ≡ some e
  unfolding apply_options
  one o h = elim (Option-cases (apply_titip_option c o)) [
    | inl n ↦ cc (rw (n, apply_options) at h)
    | inr (d, f) ↦ rw f (rw (f, apply_options) at h)
  ]

  pub nothing : apply_options c [] ≡ some e → e ≡ c
  unfolding apply_options
  nothing h = cc

  pub metrics_sets :
      (given : Bool)
      → apply_options c (map some (if given then with_titip_metrics true ∷ [] else [])) ≡ some e
      → e ≡ record c { has_metrics = if given then true else c.has_metrics }
  unfolding apply_titip_option
  metrics_sets true h = cc (one (with_titip_metrics true) h)
  metrics_sets false h = nothing h

  pub logger_sets : apply_options c (some (with_titip_logger true) ∷ []) ≡ some e → e ≡ c
  unfolding apply_titip_option
  logger_sets h = cc (one (with_titip_logger true) h)

  pub respect_sets :
      (v : Option Bool)
      → apply_options c (map some (when v true with_respect_client_cache_control)) ≡ some e
      → e ≡ record c {
        respect_client_cache_control = turned v true true c.respect_client_cache_control;
      }
  unfolding apply_titip_option
  respect_sets none h = nothing h
  respect_sets (some true) h = cc (one with_respect_client_cache_control h)
  respect_sets (some false) h = nothing h

  pub invalidate_sets :
      (v : Option Bool)
      → apply_options c (map some (when v true with_auto_invalidate_mutating_methods)) ≡ some e
      → e ≡ record c {
        auto_invalidate_mutating_methods = turned v true true c.auto_invalidate_mutating_methods;
      }
  unfolding apply_titip_option
  invalidate_sets none h = nothing h
  invalidate_sets (some true) h = cc (one with_auto_invalidate_mutating_methods h)
  invalidate_sets (some false) h = nothing h

  pub convert_sets :
      (v : Option Bool)
      → apply_options c (map some (when v false without_convert_head_to_get)) ≡ some e
      → e ≡ record c { convert_head_to_get = turned v false false c.convert_head_to_get }
  unfolding apply_titip_option
  convert_sets none h = nothing h
  convert_sets (some true) h = nothing h
  convert_sets (some false) h = cc (one without_convert_head_to_get h)

  mode_sets :
      (m : ℤ) (p : List TitipOption)
      → some (with_cache_status m ∷ []) ≡ some p
      → apply_options c (map some p) ≡ some e
      → e ≡ record c { cache_status_mode = m }
  unfolding apply_titip_option
  mode_sets m p f h =
      let same : p ≡ with_cache_status m ∷ [] = cc in
      valid_only (leb_ℤ (pos 0) m && leb_ℤ m (pos 2)) (record c { cache_status_mode = m }) e
        (one (with_cache_status m) (rw same at h))

  pub status_sets :
      (t : Text) (p : List TitipOption)
      → status_part t ≡ some p
      → apply_options c (map some p) ≡ some e
      → e ≡ record c { cache_status_mode = mode_of t }
  unfolding status_part
  status_sets t p named h =
      elim (Bool-cases (to_lower t ==ₜ codes "simple" || is_empty (to_lower t))) [
        | inl a ↦ rw a (mode_sets (pos 0) p (rw (a, status_part) at named) h)
        | inr a ↦ elim (Bool-cases (to_lower t ==ₜ codes "rfc9211")) [
          | inl b ↦ rw (a, b) (mode_sets (pos 1) p (rw (a, b, status_part) at named) h)
          | inr b ↦ elim (Bool-cases (to_lower t ==ₜ codes "none")) [
            | inl d ↦ rw (a, b) (mode_sets (pos 2) p (rw (a, b, d, status_part) at named) h)
            | inr d ↦ cc (rw (a, b, d, status_part) at named)
          ]
        ]
      ]

  pub compression_sets :
      (t : Text)
      → apply_options c (map some (unless_blank t (with_storage_compression t))) ≡ some e
      → e ≡ record c { storage_compression = text_by codec_name t c.storage_compression }
  unfolding apply_titip_option
  compression_sets [] h = nothing h
  compression_sets (b ∷ t) h =
      valid_only (not (is_empty (codec_name (b ∷ t))))
        (record c { storage_compression = codec_name (b ∷ t) }) e
        (one (with_storage_compression (b ∷ t)) h)

  pub tag_header_sets :
      (t : Text)
      → apply_options c (map some (unless_blank t (with_tag_header t))) ≡ some e
      → e ≡ record c { tag_header_name = text_by trim_space t c.tag_header_name }
  unfolding apply_titip_option
  tag_header_sets [] h = nothing h
  tag_header_sets (b ∷ t) h =
      valid_only (not (is_empty (trim_space (b ∷ t))))
        (record c { tag_header_name = trim_space (b ∷ t) }) e (one (with_tag_header (b ∷ t)) h)

  pub background_sets :
      (parse : Text → Option ℤ) (t : Text) (p : List TitipOption)
      → parsed parse t with_background_fetch_timeout ≡ some p
      → apply_options c (map some p) ≡ some e
      → e ≡ record c { background_fetch_timeout = duration_by parse t c.background_fetch_timeout }
  unfolding apply_titip_option
  background_sets parse [] p f h = let same : p ≡ [] = cc in nothing (rw same at h)
  background_sets parse (b ∷ t) p f h =
      let (d, g, same) = parsed_found parse b t with_background_fetch_timeout p f in
      rw (g, duration_by)
        (valid_only (leb_ℤ (pos 0) d) (record c { background_fetch_timeout = d }) e
          (one (with_background_fetch_timeout d) (rw same at h)))

  pub storage_timeout_sets :
      (parse : Text → Option ℤ) (t : Text) (p : List TitipOption)
      → parsed parse t with_storage_timeout ≡ some p
      → apply_options c (map some p) ≡ some e
      → e ≡ record c { storage_timeout = duration_by parse t c.storage_timeout }
  unfolding apply_titip_option
  storage_timeout_sets parse [] p f h = let same : p ≡ [] = cc in nothing (rw same at h)
  storage_timeout_sets parse (b ∷ t) p f h =
      let (d, g, same) = parsed_found parse b t with_storage_timeout p f in
      rw (g, duration_by)
        (valid_only (ltb_ℤ (pos 0) d) (record c { storage_timeout = d }) e
          (one (with_storage_timeout d) (rw same at h)))

  set_key :
      (k : CacheKey)
      → apply_options c (some (with_cache_key k) ∷ []) ≡ some e
      → e ≡ record c { cache_key = k }
  unfolding apply_titip_option
  set_key k h = cc (one (with_cache_key k) h)

  pub esi_sets :
      (os : List EsiOption)
      → apply_options c (some (with_esi (map some os)) ∷ []) ≡ some e
      → e ≡ record c { esi_options = some (or_none c.esi_options ++ map some os) }
  unfolding apply_titip_option
  esi_sets os h =
      valid_only (not (any is_nil (map some os)))
        (record c { esi_options = some (or_none c.esi_options ++ map some os) }) e
        (one (with_esi (map some os)) h)

  set_timing :
      (enabled : Bool) (name value : Text)
      → apply_options c (map some (timing_of enabled name value)) ≡ some e
      → e ≡ timing_set enabled name value c
  unfolding apply_titip_option
  set_timing false name value h = nothing h
  set_timing true [] value h = cc (one with_server_timing h)
  set_timing true (b ∷ name) value h =
      valid_only (not (is_empty (trim_space (b ∷ name)) || is_empty (trim_space value)))
        (timing_set true (b ∷ name) value c) e (one (with_server_timing_cookie (b ∷ name) value) h)

  pub timing_sets :
      (t : Option TimingRules)
      → apply_options c (map some (timing_part t)) ≡ some e
      → e ≡ timing_by t c
  timing_sets none h = nothing h
  timing_sets (some t) h =
      set_timing (elim t.enabled [ none ↦ true | some b ↦ b ]) t.cookie_name t.cookie_value h

  pub key_sets :
      (empty : CacheKey) (a r : Option KeyRules)
      → apply_options c (map some (key_part empty a r)) ≡ some e
      → e ≡ record c { cache_key = key_by empty a r c.cache_key }
  key_sets empty none none h = nothing h
  key_sets empty none (some r) h = set_key (apply_rules (some r) empty) h
  key_sets empty (some a) r h = set_key (apply_rules r (apply_rules (some a) empty)) h

-- ===== src/Caddy/Provision.antt =====
-- adapter/caddy/caddy.go: `Provision` of the handler, with the options that it gives to `titip.New`. A result
-- of `none` is an error.
pub mod Runs
pub mod Sets
pub mod Precedence
pub mod Shut
pub mod Guarded
use titip.Prelude.{
  ℕ, ◌*◌, Bool, true, false, not, ◌||◌, Option, none, some, List, [], ◌∷◌, ◌++◌, map, ltb,
  if◌then◌else◌, ◌-◌, ◌%◌, ◌^◌,
}
use titip.Prelude.Int.{ℤ, pos, wrap_64}
use titip.Text.{Text, codes, to_lower, ◌==ₜ◌}
use titip.Http.{is_empty}
use titip.Key.{CacheKey}
use titip.Esi.Options.{
  EsiOption, without_surrogate_control_requirement, with_allow_private_ips,
  with_allow_private_ips_for_allowed_hosts, without_forward_cookies, with_preserve_etag,
  with_internal_fetcher, with_max_depth, with_max_timeout, with_max_concurrent_requests,
  with_max_response_size, with_allowed_hosts, with_include_error_marker,
}
use titip.Options.{
  Codecs, Titip, TitipOption, without_convert_head_to_get, with_auto_invalidate_mutating_methods,
  with_respect_client_cache_control, with_server_timing, with_titip_metrics, with_titip_logger,
  with_storage_timeout, with_cache_status, with_background_fetch_timeout, with_cache_key,
  with_tag_header, with_storage_compression, with_esi, with_server_timing_cookie, new_titip,
}
use titip.Caddy.{
  KeyRules, EsiRules, TimingRules, App, Handler, empty_app, Loaded, not_loaded, not_storage, loaded,
  Host, coalesce, or_text, apply_cache_key,
}

-- An option where the switch is set, and says `v`.
abbrev pub when {ℓ} : {A : Type ℓ} → Option Bool → Bool → A → List A
when none v o = []
when (some true) true o = o ∷ []
when (some false) false o = o ∷ []
when (some true) false o = []
when (some false) true o = []

abbrev pub opt {ℓ κ} : {A : Type ℓ} {B : Type κ} → Option A → (A → B) → List B
opt none f = []
opt (some a) f = f a ∷ []

-- An option of a text that is parsed, if there is one.
abbrev pub parsed {ℓ κ} :
    {A : Type ℓ} {B : Type κ} → (Text → Option A) → Text → (A → B) → Option (List B)
parsed parse [] f = some []
parsed parse (c ∷ t) f = elim (parse (c ∷ t)) [ none ↦ none | some a ↦ some (f a ∷ []) ]

abbrev pub unless_blank {ℓ} : {B : Type ℓ} → List ℕ → B → List B
unless_blank [] o = []
unless_blank (c ∷ t) o = o ∷ []

abbrev pub hosts_given : List Text → List EsiOption
hosts_given [] = []
hosts_given (h ∷ hs) = with_allowed_hosts (h ∷ hs) ∷ []

-- The lists of all parts, if none is an error.
unfoldable pub collect {ℓ} : {A : Type ℓ} → List (Option (List A)) → Option (List A)
collect [] = some []
collect (none ∷ ps) = none
collect (some p ∷ ps) = elim (collect ps) [ none ↦ none | some q ↦ some (p ++ q) ]

-- `int64` of a `uint64`
abbrev pub to_int64 : ℕ → ℤ
to_int64 n = wrap_64 (pos n)

-- The key rules: those of the app, then those of the route. `empty` is the zero `CacheKey`.
abbrev pub apply_rules : Option KeyRules → CacheKey → CacheKey
apply_rules none key = key
apply_rules (some src) key = apply_cache_key src key

abbrev pub key_part : CacheKey → Option KeyRules → Option KeyRules → List TitipOption
key_part empty none none = []
key_part empty none (some r) = with_cache_key (apply_rules (some r) empty) ∷ []
key_part empty (some a) r = with_cache_key (apply_rules r (apply_rules (some a) empty)) ∷ []

-- The mode of the header Cache-Status
unfoldable pub status_part : Text → Option (List TitipOption)
status_part t =
    let low = to_lower t in
    if low ==ₜ codes "simple" || is_empty low
    then some (with_cache_status (pos 0) ∷ [])
    else if low ==ₜ codes "rfc9211"
    then some (with_cache_status (pos 1) ∷ [])
    else if low ==ₜ codes "none"
    then some (with_cache_status (pos 2) ∷ [])
    else none

abbrev pub timing_of : Bool → Text → Text → List TitipOption
timing_of false name value = []
timing_of true [] value = with_server_timing ∷ []
timing_of true (c ∷ name) value = with_server_timing_cookie (c ∷ name) value ∷ []

abbrev pub timing_part : Option TimingRules → List TitipOption
timing_part none = []
timing_part (some t) =
    timing_of (elim t.enabled [ none ↦ true | some b ↦ b ]) t.cookie_name t.cookie_value

abbrev pub esi_options_part : Option (List EsiOption) → Option (List TitipOption)
esi_options_part none = none
esi_options_part (some os) = some (with_esi (map some os) ∷ [])

module _ {S : Type 0} (host : Host S) where
  -- `applyESIConfig`: the options that the rules add
  abbrev pub esi_parts : EsiRules → List (Option (List EsiOption))
  esi_parts src =
      some (when src.require_surrogate_control false without_surrogate_control_requirement)
      ∷ some (opt src.max_depth with_max_depth)
      ∷ parsed host.parse_duration src.max_timeout with_max_timeout
      ∷ some (opt src.max_concurrent_requests with_max_concurrent_requests)
      ∷ some (when src.block_private_ips false with_allow_private_ips)
      ∷ some (hosts_given src.allowed_hosts)
      ∷ some (
          when src.allow_private_ips_for_allowed_hosts true
            with_allow_private_ips_for_allowed_hosts)
      ∷ parsed host.parse_bytes src.max_response_size (λ n. with_max_response_size (to_int64 n))
      ∷ some (when src.forward_fragment_cookies false without_forward_cookies)
      ∷ some (when src.preserve_etag true with_preserve_etag)
      ∷ some (unless_blank src.error_marker (with_include_error_marker src.error_marker))
      ∷ []

  -- `applyESIConfig` of rules that may be nil
  unfoldable pub apply_esi_config : Option EsiRules → Option (List EsiOption)
  unfolding collect
  apply_esi_config none = some []
  apply_esi_config (some src) = collect (esi_parts src)

  -- The options of the processor: those of the app, those of the route, and the fetcher.
  unfoldable pub esi_options : Option EsiRules → Option EsiRules → Option (List EsiOption)
  unfolding apply_esi_config
  esi_options of_app of_route = collect (
      apply_esi_config of_app
      ∷ apply_esi_config of_route
      ∷ some (with_internal_fetcher (some host.fetcher) ∷ [])
      ∷ [])

  unfoldable pub esi_part : Option EsiRules → Option EsiRules → Option (List TitipOption)
  unfolding esi_options
  esi_part none none = some []
  esi_part a b = esi_options_part (esi_options a b)

  -- The parts of the options, in their order; `a` is the app, or the empty one where there is none.
  abbrev pub parts : CacheKey → App → Handler → List (Option (List TitipOption))
  parts empty a h =
      let r = h.of_route in
      some (if host.has_registry then with_titip_metrics true ∷ [] else [])
      ∷ some (with_titip_logger true ∷ [])
      ∷ status_part (or_text r.cache_status a.cache_status)
      ∷ some (
          unless_blank (or_text r.storage_compression a.storage_compression)
            (with_storage_compression (or_text r.storage_compression a.storage_compression)))
      ∷ some (
          when (coalesce r.respect_client_cache_control a.respect_client_cache_control) true
            with_respect_client_cache_control)
      ∷ some (
          when (coalesce r.auto_invalidate_mutating_methods a.auto_invalidate_mutating_methods) true
            with_auto_invalidate_mutating_methods)
      ∷ some (
          when (coalesce r.convert_head_to_get a.convert_head_to_get) false
            without_convert_head_to_get)
      ∷ parsed host.parse_duration (or_text r.background_fetch_timeout a.background_fetch_timeout)
          with_background_fetch_timeout
      ∷ parsed host.parse_duration (or_text r.storage_timeout a.storage_timeout)
          with_storage_timeout
      ∷ some (unless_blank h.tag_header (with_tag_header h.tag_header))
      ∷ some (key_part empty a.cache_key r.cache_key)
      ∷ esi_part a.esi r.esi
      ∷ some (timing_part (coalesce r.server_timing a.server_timing))
      ∷ []

  -- `Provision` of the app: the storage of its module, where it has one
  unfoldable pub provision_app : App → Option (Option (Option S))
  provision_app a =
      if is_empty a.storage_raw then some none else elim (host.load_module a.storage_raw) [
        | not_loaded ↦ none
        | not_storage ↦ none
        | loaded s ↦ some (some s)
      ]

  -- The storage of the route, or that of the app
  unfoldable pub choose_store : Text → Option (Option S) → Option S
  choose_store raw of_app =
      if not (is_empty raw)
      then elim (host.load_module raw) [ not_loaded ↦ none | not_storage ↦ none | loaded s ↦ s ]
      else elim of_app [ none ↦ none | some s ↦ s ]

  -- What `Provision` leaves in the handler.
  pub record Provisioned : Type 0 where
    pub store : S
    pub instance_of : Titip
    pub takes_rewritten_url : Bool

  -- `Provision`; the app, if there is one, with the storage of its module
  unfoldable pub provision :
      Codecs → CacheKey → App → Option (Option S) → Handler → Option Provisioned
  unfolding collect status_part esi_part choose_store
  provision lib empty a of_app h = elim (choose_store h.of_route.storage_raw of_app) [
    | none ↦ none
    | some store ↦ elim (collect (parts empty a h)) [
      | none ↦ none
      | some os ↦ elim (new_titip lib empty true (map some os)) [
        | none ↦ none
        | some t ↦ some (record {
          store = store;
          instance_of = t;
          takes_rewritten_url = elim (coalesce h.of_route.use_rewritten_url a.use_rewritten_url) [
            | none ↦ false
            | some b ↦ b
          ];
        })
      ]
    ]
  ]

-- ===== src/Caddy/Caddyfile/Directives.antt =====
-- adapter/caddy: the directives of the handler, of the global app, of a cache key and of ESI.
use titip.Prelude.{
  ℕ, ◌++◌, Bool, true, false, Option, none, some, List, [], ◌∷◌, map, if◌then◌else◌,
}
use titip.Text.{Text, codes, ◌==ₜ◌}
use titip.Freshness.{parse_int}
use titip.Caddy.{KeyRules, EsiRules, TimingRules, App, Handler, empty_app, is_given}
use titip.Caddy.Caddyfile.{
  Dispenser, Outcome, ended, rejected, exhausted, parse_bool, parse_uint_32, empty_key, empty_esi,
  add_values, Reads, text_arg, of_parsed, parsed_arg, flag_arg, list_args, block, blocks,
}

-- The rules that stand, or new ones
abbrev pub or_new {ℓ} : {A : Type ℓ} → A → Option A → A
or_new a none = a
or_new a (some b) = b

abbrev pub timing_switch : Bool → TimingRules
timing_switch b = record { enabled = some b; cookie_name = []; cookie_value = [] }

module _ {X : Type 0} (d : Dispenser X) where
  -- A parameter and the values that are allowed for it
  abbrev pub values_arg : KeyRules → Reads d KeyRules
  values_arg k x = elim (d.next_arg x) [
    | none ↦ rejected
    | some (param, y) ↦
        let (vs, z) = d.remaining_args y in
        if is_given vs
        then ended (
          record k {
            included_query_param_values = add_values param vs k.included_query_param_values;
          },
          z,
        )
        else rejected
  ]

  abbrev pub key_cases : KeyRules → List (Text × Reads d KeyRules)
  key_cases k =
      (
        codes "include_protocol",
        parsed_arg d parse_bool (λ b. record k { include_protocol = some b }),
      )
      ∷ (codes "exclude_host", parsed_arg d parse_bool (λ b. record k { exclude_host = some b }))
      ∷ (codes "exclude_query", parsed_arg d parse_bool (λ b. record k { exclude_query = some b }))
      ∷ (
        codes "preserve_query_order",
        parsed_arg d parse_bool (λ b. record k { preserve_query_order = some b }),
      )
      ∷ (
        codes "included_query_params",
        list_args d (λ ts. record k { included_query_params = k.included_query_params ++ ts }),
      )
      ∷ (
        codes "excluded_query_params",
        list_args d (λ ts. record k { excluded_query_params = k.excluded_query_params ++ ts }),
      )
      ∷ (
        codes "exclude_marketing_query_params",
        flag_arg d (λ b. record k { exclude_marketing_query_params = some b }),
      )
      ∷ (
        codes "included_header_names",
        list_args d (λ ts. record k { included_header_names = k.included_header_names ++ ts }),
      )
      ∷ (
        codes "included_cookie_names",
        list_args d (λ ts. record k { included_cookie_names = k.included_cookie_names ++ ts }),
      )
      ∷ (
        codes "case_insensitive_path",
        flag_arg d (λ b. record k { case_insensitive_path = some b }),
      )
      ∷ (codes "included_query_param_values", values_arg k)
      ∷ []

  abbrev pub esi_cases : EsiRules → List (Text × Reads d EsiRules)
  esi_cases e =
      (codes "enabled", flag_arg d (λ b. record e { enabled = some b }))
      ∷ (
        codes "require_surrogate_control",
        flag_arg d (λ b. record e { require_surrogate_control = some b }),
      )
      ∷ (codes "max_depth", parsed_arg d parse_uint_32 (λ n. record e { max_depth = some n }))
      ∷ (codes "max_timeout", text_arg d (λ t. record e { max_timeout = t }))
      ∷ (
        codes "max_concurrent_requests",
        parsed_arg d parse_int (λ n. record e { max_concurrent_requests = some n }),
      )
      ∷ (codes "block_private_ips", flag_arg d (λ b. record e { block_private_ips = some b }))
      ∷ (
        codes "allowed_hosts",
        list_args d (λ ts. record e { allowed_hosts = e.allowed_hosts ++ ts }),
      )
      ∷ (
        codes "allow_private_ips_for_allowed_hosts",
        flag_arg d (λ b. record e { allow_private_ips_for_allowed_hosts = some b }),
      )
      ∷ (codes "max_response_size", text_arg d (λ t. record e { max_response_size = t }))
      ∷ (
        codes "forward_fragment_cookies",
        flag_arg d (λ b. record e { forward_fragment_cookies = some b }),
      )
      ∷ (codes "preserve_etag", flag_arg d (λ b. record e { preserve_etag = some b }))
      ∷ (codes "error_marker", text_arg d (λ t. record e { error_marker = t }))
      ∷ []

  -- `parseServerTimingCaddyfile` behind the word `cookie`
  abbrev pub timing_cookie : Reads d TimingRules
  timing_cookie x = elim (d.next_arg x) [
    | none ↦ rejected
    | some (name, y) ↦
        text_arg d (λ v. record { enabled = some true; cookie_name = name; cookie_value = v }) y
  ]

  -- `parseServerTimingCaddyfile`
  unfoldable pub parse_server_timing : Reads d TimingRules
  parse_server_timing x = elim (d.next_arg x) [
    | none ↦ ended (timing_switch true, x)
    | some (t, y) ↦
        if t ==ₜ codes "cookie" then timing_cookie y else of_parsed d timing_switch y (parse_bool t)
  ]

  -- `parseStorageModule`
  unfoldable pub parse_storage_module : Reads d Text
  parse_storage_module x = elim (d.next_arg x) [
    | none ↦ rejected
    | some (name, y) ↦
        if d.has_module (codes "titip.storage." ++ name)
        then elim (d.unmarshal_module name y) [ none ↦ rejected | some (raw, z) ↦ ended (raw, z) ]
        else rejected
  ]

  abbrev pub into_of : {A R : Type 0} → (A → R) → Outcome (A × X) → Outcome (R × X)
  into_of f (ended (a, y)) = ended (f a, y)
  into_of f rejected = rejected
  into_of f exhausted = exhausted

  -- What is read goes into the configuration.
  abbrev pub into : {A R : Type 0} → (A → R) → Reads d A → Reads d R
  into f read x = into_of f (read x)

  -- The directives of the app. A second block of a part starts anew in the app, and goes on with the
  -- first in a handler, which is `keeps`.
  abbrev pub app_cases : Bool → ℕ → App → List (Text × Reads d App)
  app_cases keeps fuel a =
      (codes "storage", into (λ t. record a { storage_raw = t }) parse_storage_module)
      ∷ (codes "cache_status", text_arg d (λ t. record a { cache_status = t }))
      ∷ (
        codes "respect_client_cache_control",
        parsed_arg d parse_bool (λ b. record a { respect_client_cache_control = some b }),
      )
      ∷ (
        codes "auto_invalidate_mutating_methods",
        parsed_arg d parse_bool (λ b. record a { auto_invalidate_mutating_methods = some b }),
      )
      ∷ (
        codes "convert_head_to_get",
        parsed_arg d parse_bool (λ b. record a { convert_head_to_get = some b }),
      )
      ∷ (
        codes "background_fetch_timeout",
        text_arg d (λ t. record a { background_fetch_timeout = t }),
      )
      ∷ (codes "storage_timeout", text_arg d (λ t. record a { storage_timeout = t }))
      ∷ (
        codes "cache_key",
        into (λ k. record a { cache_key = some k })
            (block d key_cases 1 fuel (if keeps then or_new empty_key a.cache_key else empty_key)),
      )
      ∷ (
        codes "esi",
        into (λ e. record a { esi = some e })
            (block d esi_cases 1 fuel (if keeps then or_new empty_esi a.esi else empty_esi)),
      )
      ∷ (codes "use_rewritten_url", flag_arg d (λ b. record a { use_rewritten_url = some b }))
      ∷ (codes "server_timing", into (λ t. record a { server_timing = some t }) parse_server_timing)
      ∷ (codes "storage_compression", text_arg d (λ t. record a { storage_compression = t }))
      ∷ []

  abbrev pub lift : Handler → Text × Reads d App → Text × Reads d Handler
  lift h (name, read) = (name, into (λ a. record h { of_route = a }) read)

  -- The directives of a handler
  abbrev pub handler_cases : ℕ → Handler → List (Text × Reads d Handler)
  handler_cases fuel h =
      (codes "tag_header", text_arg d (λ t. record h { tag_header = t }))
      ∷ map (lift h) (app_cases true fuel h.of_route)

  -- `UnmarshalCaddyfile` of the handler
  unfoldable pub unmarshal_handler : ℕ → Handler → Reads d Handler
  unfolding blocks block parse_server_timing parse_storage_module
  unmarshal_handler fuel h x = blocks d (handler_cases fuel) fuel fuel h x

  -- `parseCaddyfile`
  unfoldable pub parse_caddyfile : ℕ → Reads d Handler
  unfolding unmarshal_handler
  parse_caddyfile fuel x =
      unmarshal_handler fuel (record { of_route = empty_app; tag_header = [] }) x

  -- `parseGlobalOption`
  unfoldable pub parse_global_option : ℕ → Reads d App
  unfolding blocks block parse_server_timing parse_storage_module
  parse_global_option fuel x = blocks d (app_cases false fuel) fuel fuel empty_app x

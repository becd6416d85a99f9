-- ===== src/Handler/Lookup.antt =====
-- handler.go: the states from the first guard to the verdict on a stored entry.
use titip.Prelude.{
  ℕ, Bool, true, false, not, ◌&&◌, ◌||◌, Option, none, some, List, [], ◌∷◌, any, ◌==◌,
  if◌then◌else◌,
}
use titip.Prelude.Int.{ℤ, pos, leb_ℤ, ltb_ℤ, ◌-ℤ◌, wrap_64}
use titip.Text.{Text, codes, ◌==ₜ◌, equal_fold, trim_space, to_lower, contains, join, split}
use titip.Http.{get, values, is_empty}
use titip.Http.Name
use titip.Precondition.{unix_epoch, evaluate_preconditions}
use titip.Key.Primary.{generate_primary_key}
use titip.Key.Variant.{generate_variant_key}
use titip.Storage.{VariantInfo, CacheMetadata, meta_error, meta_absent, meta_found}
use titip.Handler.{
  Config, Context, World, RequestDirectives, Event, recorded, cache_status, mutated, http_error,
  panicked, miss, bypass, error, status_miss, status_bypass, Outcome, State, lookup_metadata,
  match_variant, evaluate_freshness, serve_304, serve_412, serve_cached_hit, serve_swr,
  fetch_origin_miss, fetch_origin_revalidate, bypass_origin,
}

-- `containsToken` of header.go
unfoldable pub contains_token : Text → Text → Bool
contains_token header target =
    if is_empty header
    then false
    else any (λ t. equal_fold (trim_space t) target) (split b',' header)

unfoldable pub is_mutating_method : Text → Bool
is_mutating_method m =
    m ==ₜ codes "POST" || m ==ₜ codes "PUT" || m ==ₜ codes "DELETE" || m ==ₜ codes "PATCH"

abbrev pub eq_ℤ : ℤ → ℤ → Bool
eq_ℤ a b = leb_ℤ a b && leb_ℤ b a

-- `t.UnixNano()`
abbrev pub unix_nano : ℤ → ℤ
unix_nano t = wrap_64 (t -ℤ pos unix_epoch)

-- On to another state with nothing done.
abbrev pub go : Context → State → Outcome
go ctx s = record { events = []; context = ctx; next = some s }

-- The last state: the response is written.
abbrev pub finish : Context → List Event → Outcome
finish ctx events = record { events = events; context = ctx; next = none }

abbrev pub pass_by : Context → Outcome
pass_by ctx = record {
  events = recorded bypass ∷ cache_status status_bypass ∷ [];
  context = ctx;
  next = some bypass_origin;
}

abbrev pub gateway_timeout : Context → Outcome
gateway_timeout ctx = finish ctx (recorded miss ∷ cache_status status_miss ∷ http_error 504 ∷ [])

abbrev pub only_if_cached : Option RequestDirectives → Bool
only_if_cached none = false
only_if_cached (some d) = d.only_if_cached

abbrev pub or_default : Text → Text
or_default [] = codes "default"
or_default (c ∷ cs) = c ∷ cs

unfoldable pub find_variant : Text → List (Text × VariantInfo) → Option VariantInfo
find_variant k [] = none
find_variant k ((j, v) ∷ vs) = let rest = find_variant k vs in if k ==ₜ j then some v else rest

-- The state for the verdict on the preconditions of a fresh entry.
abbrev pub served_fresh : Option ℕ → State
served_fresh none = serve_cached_hit
served_fresh (some code) =
    if code == 304 then serve_304 else if code == 412 then serve_412 else serve_cached_hit

module _ (cfg : Config) (w : World) where
  -- The client's Cache-Control and Pragma.
  unfoldable pub client_directives : Context → Outcome
  client_directives ctx =
      let h = ctx.request.header in
      let cc = join (codes ", ") (values h Name.cache_control) in
      if not (is_empty cc)
      then elim (w.parse_request_cache_control cc) [
        | none ↦ go ctx lookup_metadata
        | some d ↦
            let seen = record ctx { directives = some d } in
            if d.no_store || d.no_cache
            then pass_by seen
            else if eq_ℤ d.max_age (pos 0)
            then pass_by seen
            else go seen lookup_metadata
      ]
      else if equal_fold (trim_space (get h Name.pragma)) (codes "no-cache")
      then pass_by ctx
      else go ctx lookup_metadata

  -- `stateCheckBypass`
  unfoldable pub state_check_bypass : Context → Outcome
  unfolding contains_token is_mutating_method client_directives
  state_check_bypass ctx =
      let h = ctx.request.header in
      let method = ctx.request.method in
      if contains_token (get h Name.upgrade) Name.upgrade_websocket
      then pass_by ctx
      else if contains Name.content_type_event_stream (to_lower (get h Name.accept))
      then pass_by ctx
      else if not (is_empty (get h Name.range))
      then pass_by ctx
      else if is_mutating_method method
      then finish ctx (recorded bypass ∷ cache_status status_bypass ∷ mutated ∷ [])
      else if not (method ==ₜ codes "GET") && not (method ==ₜ codes "HEAD")
      then pass_by ctx
      else if cfg.respect_client_cache_control
      then client_directives ctx
      else go ctx lookup_metadata

  -- `stateLookupMetadata`
  unfoldable pub state_lookup_metadata : Context → Outcome
  state_lookup_metadata ctx =
      let key = generate_primary_key ctx.request cfg.cache_key in
      let keyed = record ctx { primary_key = key } in
      elim (w.storage.get_meta key) [
        | meta_error ↦ record {
          events = recorded error ∷ cache_status status_bypass ∷ [];
          context = keyed;
          next = some bypass_origin;
        }
        | meta_absent ↦
            let absent = record keyed { meta = none; is_soft_purged = false } in
            if only_if_cached ctx.directives
            then gateway_timeout absent
            else go (record absent { is_vary_miss = false }) fetch_origin_miss
        | meta_found m soft ↦
            go (record keyed { meta = some m; is_soft_purged = soft }) match_variant
      ]

  unfoldable pub match_in : Context → CacheMetadata → Outcome
  unfolding find_variant
  match_in ctx m =
      let key = or_default (generate_variant_key ctx.request.header m.vary_header_names) in
      let keyed = record ctx { variant_key = key } in
      elim (find_variant key m.variants) [
        | none ↦
            if only_if_cached ctx.directives
            then gateway_timeout keyed
            else go (record keyed { is_vary_miss = true }) fetch_origin_miss
        | some v ↦ go (record keyed { variant = some v }) evaluate_freshness
      ]

  -- `stateMatchVariant`
  unfoldable pub state_match_variant : Context → Outcome
  unfolding match_in
  state_match_variant ctx = elim ctx.meta [
    | none ↦ finish ctx (panicked ∷ [])
    | some m ↦ match_in ctx m
  ]

  -- May the stored tag and date be used for this variant?
  abbrev pub has_validators : VariantInfo → Bool
  has_validators v = not (cfg.has_esi && not (is_empty v.esi_fragments)) || cfg.preserve_etag

  unfoldable pub verdict : Context → CacheMetadata → VariantInfo → Outcome
  verdict ctx m v =
      if ctx.is_soft_purged
      then go ctx fetch_origin_revalidate
      else if leb_ℤ ctx.now m.expires_at_unix_nano
      then go ctx (
          if has_validators v
          then served_fresh
              (evaluate_preconditions w.parsers ctx.request.header v.etag v.last_modified_unix_nano)
          else serve_cached_hit)
      else if ltb_ℤ m.expires_at_unix_nano m.stale_until_unix_nano
          && leb_ℤ ctx.now m.stale_until_unix_nano
      then go ctx serve_swr
      else if cfg.respect_client_cache_control
          && contains (codes "only-if-cached")
              (join (codes ", ") (values ctx.request.header Name.cache_control))
      then gateway_timeout ctx
      else go ctx fetch_origin_revalidate

  -- `stateEvaluateFreshness`
  unfoldable pub state_evaluate_freshness : Context → Outcome
  unfolding verdict
  state_evaluate_freshness ctx =
      let timed = record ctx { now = unix_nano (pos w.clock) } in
      elim ctx.meta [
        | none ↦ finish timed (panicked ∷ [])
        | some m ↦ elim ctx.variant [
          | none ↦ finish timed (panicked ∷ [])
          | some v ↦ verdict timed m v
        ]
      ]

-- ===== src/Handler/Serve.antt =====
-- handler.go and handler_context.go: the states that answer from the store.
use titip.Prelude.{
  ◌/◌, Bool, not, ◌&&◌, ◌||◌, none, some, List, [], ◌∷◌, ◌++◌, length, if◌then◌else◌,
}
use titip.Prelude.Int.{ℤ, pos, pos_part, ltb_ℤ}
use titip.Text.{Text, codes, ◌==ₜ◌}
use titip.Http.{is_empty}
use titip.Freshness.{second, add_64, sub_64}
use titip.Storage.{VariantInfo, CacheMetadata, variant_error, variant_absent, variant_found}
use titip.Handler.{
  Config, Context, World, Event, recorded, cache_status, soft_purged, spawned_swr, add_headers,
  set_age, reconciled, wrote_status, wrote_body, processed_esi, http_error, panicked, hit,
  stale_hit, bypass, status_hit, status_updating, status_bypass, Outcome, fetch_origin_miss,
}
use titip.Handler.Lookup.{eq_ℤ, finish}

-- `calcAgeString`: the corrected initial age and the seconds since the entry was made.
unfoldable pub calc_age : CacheMetadata → ℤ → ℤ
calc_age m now =
    add_64 m.corrected_initial_age_seconds
      (pos (pos_part (sub_64 now m.created_at_unix_nano) / second))

abbrev pub is_head : Context → Bool
is_head ctx = ctx.request.method ==ₜ codes "HEAD"

-- The body is not sent in answer to HEAD.
abbrev pub body_unless_head : Context → Text → List Event
body_unless_head ctx body = if is_head ctx then [] else wrote_body body ∷ []

-- The body as it was before compression, or why it cannot be had.
pub data Loaded : Type 0 where
  unavailable corrupt : Loaded
  loaded : VariantInfo → Text → Loaded

abbrev pub codec_of : VariantInfo → Text
codec_of v = if is_empty v.storage_compression then codes "lz4" else v.storage_compression

module _ (cfg : Config) (w : World) where
  -- `adjustESIHeaders`
  abbrev pub adjusted : VariantInfo → List Event
  adjusted v = if cfg.has_esi && not (is_empty v.esi_fragments) then reconciled ∷ [] else []

  -- `stateServe304`
  unfoldable pub respond_304 : Context → CacheMetadata → VariantInfo → Outcome
  unfolding calc_age
  respond_304 ctx m v = finish ctx (
      recorded hit
      ∷ cache_status status_hit
      ∷ add_headers v.response_headers
      ∷ (adjusted v ++ (set_age (calc_age m ctx.now) ∷ wrote_status 304 ∷ [])))

  -- `stateServe412`
  unfoldable pub state_serve_412 : Context → Outcome
  state_serve_412 ctx =
      finish ctx (recorded bypass ∷ cache_status status_bypass ∷ http_error 412 ∷ [])

  unfoldable pub decoded : VariantInfo → Text → Loaded
  decoded v body = elim (w.decompress (codec_of v)) [
    | none ↦ unavailable
    | some codec ↦ elim (codec body) [
      | none ↦ corrupt
      | some raw ↦ if eq_ℤ (pos (length raw)) v.raw_body_size then loaded v raw else corrupt
    ]
  ]

  -- `loadDecompressed`; a `corrupt` body is soft-purged.
  unfoldable pub load_decompressed : Context → Loaded
  unfolding decoded
  load_decompressed ctx = elim (w.storage.get_variant ctx.primary_key ctx.variant_key) [
    | variant_error ↦ unavailable
    | variant_absent ↦ unavailable
    | variant_found v body ↦
        if ltb_ℤ (pos 0) v.raw_body_size && is_empty body then unavailable else decoded v body
  ]

  -- The entry is used no further, and the origin is asked.
  abbrev pub give_up : Context → List Event → Outcome
  give_up ctx events = record { events = events; context = ctx; next = some fetch_origin_miss }

  -- Is the response sent without its body being read?
  abbrev pub no_body_read : Context → VariantInfo → Bool
  no_body_read ctx v = is_head ctx || eq_ℤ v.raw_body_size (pos 0)

  -- `stateServeCachedHit` behind the load.
  abbrev pub hit_with : Context → CacheMetadata → Loaded → Outcome
  hit_with ctx m unavailable = give_up ctx []
  hit_with ctx m corrupt = give_up ctx (soft_purged ctx.primary_key ∷ [])
  hit_with ctx m (loaded v body) = finish ctx (
      recorded hit
      ∷ add_headers v.response_headers
      ∷ set_age (calc_age m ctx.now)
      ∷ (if cfg.has_esi && not (is_empty v.esi_fragments)
          then processed_esi v.status_code body v.esi_fragments status_hit ∷ []
          else cache_status status_hit ∷ wrote_status v.status_code ∷ wrote_body body ∷ []))

  -- `stateServeCachedHit`
  unfoldable pub respond_hit : Context → CacheMetadata → VariantInfo → Outcome
  unfolding load_decompressed
  respond_hit ctx m v =
      if no_body_read ctx v
      then finish ctx (
          recorded hit
          ∷ cache_status status_hit
          ∷ add_headers v.response_headers
          ∷ (adjusted v ++ (wrote_status v.status_code ∷ [])))
      else hit_with ctx m (load_decompressed ctx)

  -- `spawnSWR`
  abbrev pub spawned : Context → List Event
  spawned ctx = if cfg.is_closed then [] else spawned_swr ctx.primary_key ctx.variant_key ∷ []

  -- `stateServeSWR` behind the load.
  abbrev pub swr_with : Context → CacheMetadata → Loaded → Outcome
  swr_with ctx m unavailable = give_up ctx []
  swr_with ctx m corrupt = give_up ctx (soft_purged ctx.primary_key ∷ [])
  swr_with ctx m (loaded v body) = finish ctx (
      recorded stale_hit
      ∷ add_headers v.response_headers
      ∷ set_age (calc_age m ctx.now)
      ∷ ((if cfg.has_esi && not (is_empty v.esi_fragments)
            then processed_esi v.status_code body v.esi_fragments status_updating ∷ []
            else cache_status status_updating
              ∷ wrote_status v.status_code
              ∷ body_unless_head ctx body)
          ++ spawned ctx))

  -- `stateServeSWR`
  unfoldable pub respond_swr : Context → CacheMetadata → VariantInfo → Outcome
  unfolding load_decompressed
  respond_swr ctx m v =
      if no_body_read ctx v
      then finish ctx (
          recorded stale_hit
          ∷ add_headers v.response_headers
          ∷ set_age (calc_age m ctx.now)
          ∷ cache_status status_updating
          ∷ wrote_status v.status_code
          ∷ spawned ctx)
      else swr_with ctx m (load_decompressed ctx)

  -- A state that reads the metadata and the variant of the context.
  unfoldable pub with_entry : (Context → CacheMetadata → VariantInfo → Outcome) → Context → Outcome
  with_entry f ctx = elim ctx.meta [
    | none ↦ finish ctx (panicked ∷ [])
    | some m ↦ elim ctx.variant [ none ↦ finish ctx (panicked ∷ []) | some v ↦ f ctx m v ]
  ]

  unfoldable pub state_serve_304 : Context → Outcome
  unfolding respond_304 with_entry
  state_serve_304 = with_entry respond_304

  unfoldable pub state_serve_cached_hit : Context → Outcome
  unfolding respond_hit with_entry
  state_serve_cached_hit = with_entry respond_hit

  unfoldable pub state_serve_swr : Context → Outcome
  unfolding respond_swr with_entry
  state_serve_swr = with_entry respond_swr

-- ===== src/Handler/Revalidate/Answer.antt =====
-- handler.go: what `stateFetchOriginRevalidate` writes, by the result of the fetch.
use titip.Prelude.{
  Bool, false, not, ◌&&◌, ◌||◌, Option, none, some, List, [], ◌∷◌, ◌++◌, ◌==◌, if◌then◌else◌,
}
use titip.Prelude.Int.{pos}
use titip.Text.{Text, codes, ◌==ₜ◌}
use titip.Http.{Header, canonical_header_key, is_empty}
use titip.Precondition.{evaluate_preconditions}
use titip.Storage.{VariantInfo, CacheMetadata}
use titip.Handler.{
  Config, Context, World, Event, recorded, cache_status, add_headers, set_age, wrote_status,
  processed_esi, miss, stale_hit, revalidated, status_expired, status_revalidated, status_stale,
  Outcome,
}
use titip.Handler.Lookup.{unix_nano, finish, has_validators}
use titip.Handler.Serve.{
  body_unless_head, calc_age, adjusted, decoded, Loaded, unavailable, corrupt, loaded,
}
use titip.Handler.Save.{non_hop_headers}
use titip.Handler.Revalidate.{StaleFallback, FetchResult, fetch}

module _ (cfg : Config) (w : World) where
  abbrev pub aged : Option CacheMetadata → List Event
  aged none = []
  aged (some m) = set_age (calc_age m (unix_nano (pos w.answered_at))) ∷ []

  abbrev pub confirms : Context → VariantInfo → Bool
  confirms ctx v =
      has_validators cfg w v
      && (elim (evaluate_preconditions w.parsers ctx.request.header v.etag
          v.last_modified_unix_nano) [ none ↦ false | some status ↦ status == 304 ])

  abbrev pub served_body : Context → Bool → StaleFallback → Text → List Event
  served_body ctx by_304 f raw =
      let label = if by_304 then revalidated else stale_hit in
      let status = if by_304 then status_revalidated else status_stale in
      add_headers f.variant.response_headers
      ∷ (aged f.meta
          ++ (recorded label
              ∷ (if cfg.has_esi && not (is_empty f.variant.esi_fragments)
                  then processed_esi f.variant.status_code raw f.variant.esi_fragments status ∷ []
                  else cache_status status
                    ∷ wrote_status f.variant.status_code
                    ∷ body_unless_head ctx raw)))

  -- What is served of the origin's own response.
  unfoldable pub serve_fresh : Context → FetchResult → List Event
  serve_fresh ctx r =
      if not (is_empty r.fragments)
      then recorded miss
        ∷ add_headers (non_hop_headers r.headers)
        ∷ processed_esi r.status_code r.body r.fragments status_expired
        ∷ []
      else if r.status_code == 0
      then []
      else add_headers (if w.is_shared then without_cookies r.headers else r.headers)
        ∷ recorded miss
        ∷ cache_status status_expired
        ∷ wrote_status r.status_code
        ∷ body_unless_head ctx r.body
    where
      without_cookies : Header → Header
      without_cookies [] = []
      without_cookies ((k, vs) ∷ h) =
          let rest = without_cookies h in
          if canonical_header_key k ==ₜ codes "Set-Cookie" then rest else (k, vs) ∷ rest

  abbrev pub serve_loaded : Context → FetchResult → StaleFallback → Loaded → List Event
  serve_loaded ctx r f unavailable = serve_fresh ctx r
  serve_loaded ctx r f corrupt = serve_fresh ctx r
  serve_loaded ctx r f (loaded v raw) = served_body ctx r.is_304_origin f raw

  -- A stored response, if there is one to fall back on.
  unfoldable pub serve_fallback : Context → FetchResult → Option StaleFallback → List Event
  unfolding serve_fresh
  serve_fallback ctx r none = serve_fresh ctx r
  serve_fallback ctx r (some f) =
      if r.is_304_origin && confirms ctx f.variant
      then recorded revalidated
        ∷ cache_status status_revalidated
        ∷ add_headers f.variant.response_headers
        ∷ (adjusted cfg w f.variant ++ (aged f.meta ++ (wrote_status 304 ∷ [])))
      else serve_loaded ctx r f (decoded cfg w f.variant f.body)

  unfoldable pub serve_result : Context → Option FetchResult → List Event
  unfolding serve_fallback serve_fresh
  serve_result ctx none = []
  serve_result ctx (some r) =
      if r.is_fallback || r.is_304_origin
      then serve_fallback ctx r r.fallback
      else serve_fresh ctx r

  unfoldable pub respond_revalidated : Context → CacheMetadata → VariantInfo → Outcome
  unfolding fetch serve_result
  respond_revalidated ctx m v =
      let fetched = fetch cfg w ctx m v in finish ctx (fetched.0 ++ serve_result ctx fetched.1)

-- ===== src/Handler/Revalidate.antt =====
-- handler.go: the fetch of `stateFetchOriginRevalidate`, for an entry that is no longer fresh: the
-- function in the singleflight, as the request that leads it runs it.
pub mod Answer
pub mod Stale
use titip.Prelude.{
  ℕ, Bool, true, false, not, ◌&&◌, ◌||◌, Option, none, some, List, [], ◌∷◌, ◌++◌, leb, ◌==◌,
  if◌then◌else◌,
}
use titip.Prelude.Int.{ℤ, pos, ◌+ℤ◌, ltb_ℤ, leb_ℤ}
use titip.Text.{Text, codes, ◌==ₜ◌}
use titip.Http.{Header, get, set, values, put_key, canonical_header_key, is_empty}
use titip.Http.Name
use titip.Freshness.{FreshnessInfo, Parsers, parse_date, add_64}
use titip.Freshness.Calculate.{calculate_freshness}
use titip.Precondition.{evaluate_preconditions}
use titip.Key.{Request}
use titip.Esi.Fragment.{Fragment}
use titip.Esi.Tag.{ok, err}
use titip.Storage.{
  VariantInfo, CacheMetadata, Storage, VariantReply, variant_error, variant_absent, variant_found,
  meta_error, meta_absent, meta_found,
}
use titip.Handler.{
  Config, Context, World, Response, Event, recorded, cache_status, called_origin, set_variant,
  add_headers, set_age, wrote_status, processed_esi, panicked, miss, stale_hit, revalidated,
  status_expired, status_revalidated, status_stale, Outcome,
}
use titip.Handler.Lookup.{eq_ℤ, unix_nano, finish, has_validators}
use titip.Handler.Serve.{
  is_head, body_unless_head, calc_age, adjusted, decoded, Loaded, unavailable, corrupt, loaded,
}
use titip.Handler.Save.{is_hop_by_hop_header, non_hop_headers, save_variant, storage_ttl}
use titip.Handler.Miss.{
  origin_method, with_capability, inspect_and_prepare_esi, freshness_of, should_cache,
}

-- `staleFallback`
pub record StaleFallback : Type 0 where
  pub variant : VariantInfo
  pub body : Text
  pub meta : Option CacheMetadata

-- `fetchResult`
pub record FetchResult : Type 0 where
  pub status_code : ℕ
  pub is_304_origin : Bool
  pub is_fallback : Bool
  pub fallback : Option StaleFallback
  pub headers : Header
  pub body : Text
  pub fragments : List Fragment

-- What the fetch did, and its result; `none` is a panic.
abbrev pub Fetched : Type 0
Fetched = List Event × Option FetchResult

abbrev pub fallen_back : ℕ → StaleFallback → FetchResult
fallen_back code f = record {
  status_code = code;
  is_304_origin = false;
  is_fallback = true;
  fallback = some f;
  headers = [];
  body = [];
  fragments = [];
}

-- A response of the origin, or an error, that is served as it is.
abbrev pub fresh_result : ℕ → Header → Text → List Fragment → FetchResult
fresh_result code h body fragments = record {
  status_code = code;
  is_304_origin = false;
  is_fallback = false;
  fallback = none;
  headers = h;
  body = body;
  fragments = fragments;
}

-- The stored headers, added one by one to an empty map.
unfoldable pub canonical_headers : Header → Header
canonical_headers [] = []
canonical_headers ((k, vs) ∷ h) =
    let rest = canonical_headers h in
    if is_empty vs then rest else put_key (canonical_header_key k) (vs ++ values rest k) rest

abbrev pub is_merged : Text → Bool
is_merged k =
    not (is_hop_by_hop_header (canonical_header_key k))
    && not (canonical_header_key k ==ₜ codes "Set-Cookie")

-- The headers of a 304 over the stored ones: under canonical keys, and as the variant keeps them.
unfoldable pub merge_canonical : Header → Header → Header
merge_canonical h [] = h
merge_canonical h ((k, vs) ∷ news) =
    let kept = merge_canonical h news in
    let merged = merge_canonical (put_key (canonical_header_key k) vs h) news in
    if is_merged k then merged else kept

unfoldable pub merge_stored : Header → Header → Header
merge_stored h [] = h
merge_stored h ((k, vs) ∷ news) =
    let kept = merge_stored h news in
    let merged = merge_stored (put_key k vs h) news in if is_merged k then merged else kept

-- A Last-Modified header that holds a date, in Unix nanoseconds.
unfoldable pub dated : Parsers → Text → Option ℤ
dated p t = if is_empty t then none else elim (parse_date p t) [
  | none ↦ none
  | some date ↦ if date == 0 then none else some (unix_nano (pos date))
]

abbrev pub set_if_some : Header → Text → Text → Bool → Header
set_if_some h name v b = if b then set h name v else h

abbrev pub is_some : Option ℤ → Bool
is_some none = false
is_some (some z) = true

abbrev pub or_else : Option ℤ → ℤ → ℤ
or_else none z = z
or_else (some y) z = y

module _ (cfg : Config) (w : World) where
  -- The stored variant after a 304.
  unfoldable pub updated_variant : VariantInfo → Header → VariantInfo
  unfolding merge_stored dated
  updated_variant v h = record v {
    response_headers = merge_stored v.response_headers h;
    etag = if is_empty (get h Name.etag) then v.etag else get h Name.etag;
    last_modified_unix_nano =
        or_else (dated w.parsers (get h Name.last_modified)) v.last_modified_unix_nano;
  }

  -- The headers that the freshness after a 304 is computed from.
  unfoldable pub merged_headers : VariantInfo → Header → Header
  unfolding canonical_headers merge_canonical dated
  merged_headers v h =
      let merged = merge_canonical (canonical_headers v.response_headers) h in
      let tagged =
        set_if_some merged Name.etag (get h Name.etag) (not (is_empty (get h Name.etag))) in
      set_if_some tagged Name.last_modified (get h Name.last_modified)
        (is_some (dated w.parsers (get h Name.last_modified)))

  unfoldable pub extended : CacheMetadata → FreshnessInfo → CacheMetadata
  extended m f =
      let expires = unix_nano (pos w.response_time +ℤ f.effective_ttl) in
      record m {
        expires_at_unix_nano = expires;
        stale_until_unix_nano =
            if ltb_ℤ (pos 0) f.stale_while_revalidate_ttl
            then add_64 expires f.stale_while_revalidate_ttl
            else expires;
      }

  -- An upstream 304 for the stored variant.
  unfoldable pub refreshed : Context → CacheMetadata → VariantInfo → Text → Header → Fetched
  unfolding updated_variant merged_headers extended
  refreshed ctx m v body h =
      let f = freshness_of cfg w ctx 200 (merged_headers v h) in
      let stored = ltb_ℤ (pos 0) f.effective_ttl && not cfg.is_closed in
      let new_meta = if stored then extended m f else m in
      let new_variant = updated_variant v h in
      (
        (if stored
            then set_variant ctx.primary_key new_meta new_variant body (storage_ttl f) ∷ []
            else []),
        some
            (record (fallen_back 200
              (record { variant = new_variant; body = body; meta = some new_meta })) {
                is_304_origin = true;
                is_fallback = false;
              }),
      )

  -- A response of the origin that replaces the entry.
  unfoldable pub replaced : Context → Response → Fetched
  replaced ctx resp =
      let prepared = inspect_and_prepare_esi cfg w resp.header resp.body in
      elim prepared.1 [
        | err e ↦ (panicked ∷ [], none)
        | ok fragments ↦
            let f = freshness_of cfg w ctx resp.code prepared.0 in
            (
              (if should_cache cfg w ctx f
                  then save_variant cfg w ctx.request ctx.primary_key ctx.variant_key resp.code
                      prepared.0 resp.body fragments f
                    ∷ []
                  else []),
              some (fresh_result resp.code prepared.0 resp.body fragments),
            )
      ]

  -- The request of the revalidation.
  unfoldable pub revalidation_request : Request → VariantInfo → Request
  revalidation_request r v =
      let tagged = if is_empty v.etag then r.header else set r.header Name.if_none_match v.etag in
      let dated_header =
        if ltb_ℤ (pos 0) v.last_modified_unix_nano
        then set tagged Name.if_modified_since (w.format_time v.last_modified_unix_nano)
        else tagged in
      record r {
        method = origin_method cfg w r.method;
        header = with_capability cfg w dated_header;
      }

  -- By the answer of the origin; `body` is the stored body.
  unfoldable pub by_answer :
      Context → CacheMetadata → VariantInfo → Text → Option Response → Fetched
  unfolding refreshed replaced
  by_answer ctx m v body none =
      ([], some (fallen_back 0 (record { variant = v; body = body; meta = some m })))
  by_answer ctx m v body (some resp) =
      if resp.code == 304 && not (is_empty body)
      then refreshed ctx m v body resp.header
      else if leb 500 resp.code && not (is_empty body)
      then ([], some (fallen_back resp.code (record { variant = v; body = body; meta = some m })))
      else replaced ctx resp

  unfoldable pub asked : Context → CacheMetadata → VariantInfo → Text → Fetched
  unfolding by_answer revalidation_request
  asked ctx m v body =
      let request = revalidation_request ctx.request v in
      let answer = by_answer ctx m v body (w.origin request) in
      (called_origin request ∷ answer.0, answer.1)

  -- The entry as another request has just refreshed it.
  unfoldable pub rechecked : Context → Option FetchResult
  rechecked ctx = elim (w.storage_then.get_meta ctx.primary_key) [
    | meta_error ↦ none
    | meta_absent ↦ none
    | meta_found m soft ↦
        if not soft && ltb_ℤ (unix_nano (pos w.rechecked_at)) m.expires_at_unix_nano
        then elim (w.storage_then.get_variant ctx.primary_key ctx.variant_key) [
          | variant_error ↦ none
          | variant_absent ↦ none
          | variant_found v body ↦
              if eq_ℤ v.raw_body_size (pos 0) || not (is_empty body)
              then some
                  (fallen_back v.status_code (record { variant = v; body = body; meta = some m }))
              else none
        ]
        else none
  ]

  abbrev pub body_of : VariantReply → Text
  body_of variant_error = []
  body_of variant_absent = []
  body_of (variant_found v body) = body

  -- The function in the singleflight.
  unfoldable pub fetch : Context → CacheMetadata → VariantInfo → Fetched
  unfolding rechecked asked
  fetch ctx m v = elim (rechecked ctx) [
    | some r ↦ ([], some r)
    | none ↦ asked ctx m v (body_of (w.storage.get_variant ctx.primary_key ctx.variant_key))
  ]

-- ===== src/Handler/Unsafe.antt =====
-- handler.go: requests with unsafe methods, and the purges that follow them (`handleMutatingRequest`).
pub mod Invalidate
pub mod Scope
use titip.Prelude.{
  Bool, true, false, not, ◌&&◌, ◌||◌, Option, none, some, List, [], ◌∷◌, ◌++◌, ltb, leb, map,
  if◌then◌else◌,
}
use titip.Text.{Text, codes, ◌==ₜ◌, has_prefix, contains, trim_space, to_lower}
use titip.Http.{Header, get, is_empty}
use titip.Http.Name
use titip.Key.{Request}
use titip.Key.Primary.{resolve_scheme, normalize_host}
use titip.Purge.{ParsedUrl}
use titip.Handler.{
  World, Response, Event, called_origin, forwarded, purged, add_headers, wrote_status, wrote_body,
  panicked,
}

-- What the handler takes of net/url: `url.Parse`, and `String` and `RequestURI` of the URL of a request.
pub record UrlPackage : Type 0 where
  pub parse : Text → Option ParsedUrl
  pub string_of : Request → Text
  pub request_uri : Request → Text

module _ (urls : UrlPackage) where
  -- The URL of the request as a target.
  unfoldable pub request_target : Request → Text
  request_target r =
      let url = urls.string_of r in
      if is_empty url || not (contains (codes "://") url)
      then resolve_scheme r ++ (codes "://" ++ (r.host ++ urls.request_uri r))
      else url

  -- A host that is named, and is not that of the request.
  unfoldable pub is_foreign : Request → ParsedUrl → Bool
  is_foreign r u =
      let host = normalize_host u.host u.scheme in
      not (is_empty host)
      && not (to_lower host ==ₜ to_lower (normalize_host r.host (resolve_scheme r)))

  -- `sanitizePurgeURI`: the empty text is a refusal.
  unfoldable pub sanitize_purge_uri : Text → Request → Text
  unfolding is_foreign
  sanitize_purge_uri uri r =
      let trimmed = trim_space uri in
      if is_empty trimmed
      then []
      else if has_prefix (codes "/") trimmed
      then resolve_scheme r ++ (codes "://" ++ (r.host ++ trimmed))
      else elim (urls.parse trimmed) [ none ↦ [] | some u ↦ if is_foreign r u then [] else trimmed ]

  -- The target that a header of the response names.
  unfoldable pub named_target : Text → Header → Request → List Text
  unfolding sanitize_purge_uri
  named_target name h r =
      let target = sanitize_purge_uri (get h name) r in
      if is_empty (get h name) then [] else if is_empty target then [] else target ∷ []

  -- What is purged once the origin has answered.
  unfoldable pub purge_targets : Request → Response → List Text
  unfolding request_target named_target
  purge_targets r resp =
      if leb 200 resp.code && ltb resp.code 400
      then request_target r
        ∷ (named_target Name.location resp.header r
            ++ named_target Name.content_location resp.header r)
      else []

  -- The answer of the origin is passed on, and the purges follow it.
  unfoldable pub passed_and_purged : Request → Response → List Event
  unfolding purge_targets
  passed_and_purged r resp =
      add_headers resp.header
      ∷ wrote_status resp.code
      ∷ ((if is_empty resp.body then [] else wrote_body resp.body ∷ [])
          ++ map purged (purge_targets r resp))

  -- `handleMutatingRequest`
  unfoldable pub handle_mutating_request : Bool → World → Request → List Event
  unfolding passed_and_purged
  handle_mutating_request auto_invalidate w r =
      if auto_invalidate
      then called_origin r
        ∷ (elim (w.origin r) [ none ↦ panicked ∷ [] | some resp ↦ passed_and_purged r resp ])
      else forwarded ∷ []

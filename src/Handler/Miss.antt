-- ===== src/Handler/Miss.antt =====
-- handler.go: the origin is asked for an entry that is not there (`stateFetchOriginMiss`).
pub mod NoCookie
use titip.Prelude.{
  ℕ, Bool, true, false, not, ◌&&◌, ◌||◌, Option, none, some, List, [], ◌∷◌, ◌++◌, ltb, leb, ◌==◌,
  if◌then◌else◌,
}
use titip.Prelude.Int.{ℤ, pos, ltb_ℤ}
use titip.Text.{Text, codes, ◌==ₜ◌, contains, to_lower}
use titip.Http.{Header, get, values, del, is_empty}
use titip.Http.Name
use titip.Freshness.{FreshnessInfo}
use titip.Freshness.Calculate.{calculate_freshness}
use titip.Precondition.{evaluate_preconditions}
use titip.Key.{Request}
use titip.Esi.Fragment.{Fragment}
use titip.Esi.Tag.{Result, ok, err}
use titip.Esi.Scanner.{scan}
use titip.Esi.Surrogate.{can_process, clean_surrogate_control, add_surrogate_capability}
use titip.Handler.{
  Config, Context, World, Response, Event, Label, Status, recorded, cache_status, called_origin,
  add_headers, wrote_status, processed_esi, http_error, panicked, miss, bypass, error, status_miss,
  status_bypass, status_dynamic, Outcome,
}
use titip.Handler.Lookup.{finish}
use titip.Handler.Serve.{is_head, body_unless_head}
use titip.Handler.Save.{save_variant, non_hop_headers, last_modified_of}

abbrev pub has_conditions : Header → Bool
has_conditions h =
    not (is_empty (get h Name.if_none_match)) || not (is_empty (get h Name.if_modified_since))

-- Without If-None-Match and If-Modified-Since, where one of them counts.
abbrev pub unconditional : Header → Header
unconditional h =
    if has_conditions h then del (del h Name.if_none_match) Name.if_modified_since else h

module _ (cfg : Config) (w : World) where
  -- HEAD becomes GET where the configuration says so.
  abbrev pub origin_method : Text → Text
  origin_method m = if m ==ₜ codes "HEAD" && cfg.convert_head_to_get then codes "GET" else m

  abbrev pub with_capability : Header → Header
  with_capability h = if cfg.has_esi then add_surrogate_capability h else h

  -- The request that the origin gets.
  unfoldable pub origin_request : Request → Request
  origin_request r = record r {
    method = origin_method r.method;
    header = with_capability (unconditional r.header);
  }

  -- `inspectAndPrepareESI`: the headers as it leaves them, and the fragments.
  unfoldable pub inspect_and_prepare_esi : Header → Text → Header × Result (List Fragment)
  inspect_and_prepare_esi h body =
      if cfg.has_esi && can_process cfg.require_surrogate_control h
      then (clean_surrogate_control h, scan w.parse_duration body)
      else (h, ok [])

  -- A response that is passed on as it is.
  abbrev pub passed_on : Context → Response → List Event
  passed_on ctx resp = wrote_status resp.code ∷ body_unless_head ctx resp.body

  unfoldable pub freshness_of : Context → ℕ → Header → FreshnessInfo
  freshness_of ctx code h =
      calculate_freshness w.parsers w.judged_at code ctx.request.header h w.request_time
        w.response_time w.response_time

  unfoldable pub should_cache : Context → FreshnessInfo → Bool
  should_cache ctx f =
      f.is_cacheable && not cfg.is_closed && not (is_head ctx && not cfg.convert_head_to_get)

  -- Has the client what the origin has just sent?
  unfoldable pub client_is_current : Context → ℕ → Header → Bool
  client_is_current ctx code h =
      has_conditions ctx.request.header
      && leb 200 code
      && ltb code 300
      && (elim (evaluate_preconditions w.parsers ctx.request.header (get h Name.etag)
          (last_modified_of w.parsers h)) [ none ↦ false | some status ↦ status == 304 ])

  abbrev pub answered : Context → Response → Header → List Fragment → Status → List Event
  answered ctx resp h [] status =
      cache_status status
      ∷ (if client_is_current ctx resp.code h then wrote_status 304 ∷ [] else passed_on ctx resp)
  answered ctx resp h (f ∷ fs) status = processed_esi resp.code resp.body (f ∷ fs) status ∷ []

  -- A response that may be stored, with its headers and fragments.
  unfoldable pub respond_prepared : Context → Response → Header → List Fragment → List Event
  respond_prepared ctx resp h fragments =
      let f = freshness_of ctx resp.code h in
      let cached = should_cache ctx f in
      let stored = cached && ltb_ℤ (pos 0) f.effective_ttl in
      (if cached
        then save_variant cfg w ctx.request ctx.primary_key ctx.variant_key resp.code h resp.body
            fragments f
          ∷ []
        else [])
      ++ (add_headers (non_hop_headers h)
          ∷ (recorded (if stored then miss else bypass)
              ∷ answered ctx resp h fragments (if stored then status_miss else status_dynamic)))

  -- The response of the origin, by its kind.
  unfoldable pub respond : Context → Response → List Event
  unfolding respond_prepared
  respond ctx resp =
      let prepared = inspect_and_prepare_esi resp.header resp.body in
      if not (is_empty (values resp.header Name.set_cookie))
      then recorded bypass
        ∷ add_headers resp.header
        ∷ cache_status status_dynamic
        ∷ passed_on ctx resp
      else if contains Name.content_type_event_stream (to_lower (get resp.header Name.content_type))
      then recorded bypass
        ∷ cache_status status_dynamic
        ∷ add_headers resp.header
        ∷ passed_on ctx resp
      else elim prepared.1 [
        | err e ↦ panicked ∷ []
        | ok fragments ↦ respond_prepared ctx resp prepared.0 fragments
      ]

  -- `stateFetchOriginMiss`
  unfoldable pub state_fetch_origin_miss : Context → Outcome
  unfolding respond
  state_fetch_origin_miss ctx =
      let request = origin_request ctx.request in
      finish ctx (
        called_origin request ∷ (elim (w.origin request) [
          | none ↦ recorded error ∷ cache_status status_bypass ∷ http_error 500 ∷ []
          | some resp ↦ respond ctx resp
        ]))

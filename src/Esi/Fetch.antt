-- ===== src/Esi/Fetch.antt =====
-- esi/processor.go: one fetch of a fragment (`fetchFragment`, `fetchViaCustomFetcher`,
-- `fetchOutboundHTTP`). The parent request is never nil: the handler passes its own. The internal
-- fetcher and the HTTP client are parameters; an expired context is an answer of theirs.
pub mod Credentials
use titip.Prelude.{
  ℕ, Bool, true, false, not, ◌&&◌, ◌||◌, Option, none, some, List, [], ◌∷◌, ◌++◌, ltb, leb,
  if◌then◌else◌, length,
}
use titip.Text.{Text, codes, ◌==ₜ◌, equal_fold, contains}
use titip.Http.{Header, get, set, add, values, is_empty, put_key}
use titip.Http.Name
use titip.Key.{Request}
use titip.Key.Primary.{trim_suffix}
use titip.Esi.Surrogate.{lookup, capability, add_surrogate_capability}
use titip.Esi.Guard.{Url, Urls, validate_url_scheme}

-- `esiExecutionState`, with the newest of the visited URLs first.
pub record State : Type 0 where
  pub depth : ℕ
  pub max_depth : ℕ
  pub visited : List Text

-- Why a fragment has no body of its own.
pub data Error : Type 0 where
  invalid_scheme request_failed too_large panicked max_depth_exceeded circular_include : Error
  bad_status : ℕ → Error

-- `rawFetchResult`
pub record Raw : Type 0 where
  pub body : Text
  pub cookies : List Text

pub data Fetched : Type 0 where
  fetched : Raw → Fetched
  failed : Error → Fetched

-- What the internal fetcher returns: a body and headers, in time or behind the deadline; ErrFallbackToHTTP;
-- or another error, as which a panic counts.
pub data InternalReply : Type 0 where
  replied late : Text → Header → InternalReply
  fall_back refused : InternalReply

-- What the HTTP client returns: a response with its whole body, or an error.
pub data HttpReply : Type 0 where
  response : ℕ → Header → Text → HttpReply
  no_response : HttpReply

-- A GET request that goes out.
pub record OutRequest : Type 0 where
  pub url : Text
  pub header : Header

-- The parts of the configuration that the processor reads. A size of 0 is no limit.
pub record EsiConfig : Type 0 where
  pub max_depth : ℕ
  pub max_response_size : ℕ
  pub disable_forward_cookies : Bool
  pub preserve_etag : Bool
  pub include_error_marker : Text
  pub internal_fetcher : Option (Text → Request → State → InternalReply)

-- What stands around the processor: net/url, and the HTTP client.
pub record Network : Type 0 where
  pub urls : Urls
  pub client : OutRequest → State → HttpReply

-- `cloneRequestHeader`
unfoldable pub clone_request_header : Header → Header
clone_request_header h = elim (lookup Name.surrogate_capability h) [
  | none ↦ put_key Name.surrogate_capability (capability ∷ []) h
  | some [] ↦ put_key Name.surrogate_capability (capability ∷ []) h
  | some (v ∷ vs) ↦
      if contains capability v
      then h
      else put_key Name.surrogate_capability ((v ++ (codes ", " ++ capability)) ∷ []) h
]

-- `stripDefaultPort`
unfoldable pub strip_default_port : Text → Text
unfolding trim_suffix
strip_default_port h = trim_suffix (codes ":443") (trim_suffix (codes ":80") h)

-- A header of the parent is taken over where it is not empty.
abbrev pub taken_over : Text → Header → Header → Header
taken_over name from h = if is_empty (get from name) then h else set h name (get from name)

abbrev pub add_all : Text → List Text → Header → Header
add_all name [] h = h
add_all name (v ∷ vs) h = add_all name vs (add h name v)

abbrev pub target_path : Url → Text
target_path u = if is_empty u.request_uri then codes "/" else u.request_uri

module _ (parent : Request) where
  -- Is the host that of the parent, but for a default port?
  unfoldable pub is_same_host : Text → Bool
  unfolding strip_default_port
  is_same_host host =
      is_empty host || equal_fold (strip_default_port host) (strip_default_port parent.host)

  -- The headers of every request that goes out.
  unfoldable pub plain_header : Header
  plain_header = taken_over (codes "Accept-Language") parent.header (
      taken_over (codes "User-Agent") parent.header
        (add_surrogate_capability (set [] (codes "Accept-Encoding") (codes "identity"))))

  -- Cookies and credentials go to the host of the parent alone.
  unfoldable pub outbound_header : Url → Header
  unfolding plain_header is_same_host
  outbound_header u =
      if is_same_host u.host
      then taken_over (codes "Authorization") parent.header
          (add_all (codes "Cookie") (values parent.header (codes "Cookie")) plain_header)
      else plain_header

  -- The URL that a fragment is fetched from over the network.
  unfoldable pub outbound_url : Url → Text
  outbound_url u =
      let https =
        parent.is_tls || equal_fold (get parent.header Name.x_forwarded_proto) (codes "https") in
      if is_empty u.host
      then (if https then codes "https" else codes "http")
        ++ (codes "://" ++ (parent.host ++ u.request_uri))
      else u.text

  abbrev pub is_internal : Url → Bool
  is_internal u = is_empty u.host || (not (is_empty parent.host) && equal_fold u.host parent.host)

module _ (cfg : EsiConfig) (net : Network) (parent : Request) where
  abbrev pub too_big : Text → Bool
  too_big body = ltb 0 cfg.max_response_size && ltb cfg.max_response_size (length body)

  abbrev pub forwarded_cookies : Header → List Text
  forwarded_cookies h = if cfg.disable_forward_cookies then [] else values h Name.set_cookie

  unfoldable pub read_response : HttpReply → Fetched
  read_response no_response = failed request_failed
  read_response (response code h body) =
      if leb 400 code
      then failed (bad_status code)
      else if too_big body
      then failed too_large
      else fetched (record { body = body; cookies = forwarded_cookies h })

  -- `fetchOutboundHTTP`
  unfoldable pub fetch_outbound_http : Text → State → Fetched
  unfolding outbound_header read_response
  fetch_outbound_http target state = elim (net.urls.parse target) [
    | none ↦ failed request_failed
    | some u ↦
        read_response
          (net.client (record { url = target; header = outbound_header parent u }) state)
  ]

  -- What is made of the answer of the internal fetcher.
  unfoldable pub by_internal : Url → State → InternalReply → Fetched
  unfolding fetch_outbound_http outbound_url
  by_internal u state (replied body h) =
      if too_big body
      then failed too_large
      else fetched (record { body = body; cookies = forwarded_cookies h })
  by_internal u state (late body h) = failed request_failed
  by_internal u state fall_back = fetch_outbound_http (outbound_url parent u) state
  by_internal u state refused = failed request_failed

  -- `fetchFragment`
  unfoldable pub fetch_fragment : Text → State → Fetched
  unfolding by_internal fetch_outbound_http outbound_url clone_request_header
  fetch_fragment target state = elim (validate_url_scheme net.urls target) [
    | none ↦ failed invalid_scheme
    | some u ↦ elim cfg.internal_fetcher [
      | none ↦ fetch_outbound_http (outbound_url parent u) state
      | some fetcher ↦
          if is_internal parent u
          then by_internal u state (
              fetcher (target_path u)
                (record parent { header = clone_request_header parent.header }) state)
          else fetch_outbound_http (outbound_url parent u) state
    ]
  ]

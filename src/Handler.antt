-- ===== src/Handler.antt =====
-- handler.go, handler_context.go: the states of a request, what they read, and what they do. Log
-- lines, timings and the details of Cache-Status by RFC 9211 are left out.
pub mod Lookup
pub mod Serve
pub mod Save
pub mod Miss
pub mod Revalidate
pub mod Background
pub mod Unsafe
pub mod Assemble
pub mod Machine
use titip.Prelude.{ℕ, Bool, Option, List}
use titip.Prelude.Int.{ℤ}
use titip.Text.{Text}
use titip.Http.{Header}
use titip.Freshness.{Instant, Parsers}
use titip.Key.{Request, CacheKey}
use titip.Esi.Fragment.{Fragment}
use titip.Storage.{VariantInfo, CacheMetadata, Storage}

-- cacheobject.RequestCacheDirectives: the fields that the program reads. An absent max-age is -1.
pub record RequestDirectives : Type 0 where
  pub no_store : Bool
  pub no_cache : Bool
  pub max_age : ℤ
  pub only_if_cached : Bool

-- What a handler wrote.
pub record Response : Type 0 where
  pub code : ℕ
  pub header : Header
  pub body : Text

-- The parts of the configuration that the states read. `require_surrogate_control` and `preserve_etag` are those of the ESI processor.
pub record Config : Type 0 where
  pub cache_key : CacheKey
  pub respect_client_cache_control : Bool
  pub convert_head_to_get : Bool
  pub has_esi : Bool
  pub require_surrogate_control : Bool
  pub preserve_etag : Bool
  pub tag_header_name : Text
  pub is_closed : Bool

-- `requestContext`
pub record Context : Type 0 where
  pub request : Request
  pub directives : Option RequestDirectives
  pub primary_key : Text
  pub variant_key : Text
  pub meta : Option CacheMetadata
  pub is_soft_purged : Bool
  pub variant : Option VariantInfo
  pub now : ℤ
  pub is_vary_miss : Bool

-- The world of one request: the store, the origin (`none` is a panic), the clock, and the parsers of other packages.
-- `storage_then` is the store as the function in the singleflight finds it, `rechecked_at` and
-- `answered_at` the clock there and when the response is written, `is_shared` whether the result went to
-- several requests, and `format_time` the HTTP date of a Unix time. `clock` is read when the freshness of an entry is evaluated, `judged_at` when that of a response is;
-- `configured` is the codec for new entries, with its name, and `decompress` the codec of a name, where
-- there is one. A codec returns its result or an error.
pub record World : Type 0 where
  pub storage : Storage
  pub origin : Request → Option Response
  pub clock : Instant
  pub request_time : Instant
  pub response_time : Instant
  pub judged_at : Instant
  pub storage_then : Storage
  pub rechecked_at : Instant
  pub answered_at : Instant
  pub is_shared : Bool
  pub format_time : ℤ → Text
  pub parsers : Parsers
  pub parse_request_cache_control : Text → Option RequestDirectives
  pub configured : Option (Text × (Text → Option Text))
  pub decompress : Text → Option (Text → Option Text)
  pub parse_duration : Text → Option ℤ

pub data Label : Type 0 where
  hit miss stale_hit revalidated bypass error : Label

-- The values of Cache-Status.
pub data Status : Type 0 where
  status_hit status_miss status_expired status_revalidated status_updating status_stale
        status_bypass status_dynamic :
      Status

-- What a state does, in its order: the metrics and the Cache-Status header, calls of the origin, writes
-- to the store, and the response to the client. `mutated` is the call of handleMutatingRequest,
-- `purged` that of Purge with a target, `forwarded` that of the next handler with the client's writer, `processed_esi` that of processESI,
-- and `panicked` a read through a nil pointer or past the end of a slice, or a panic of the origin
-- that is left to the caller.
pub data Event : Type 0 where
  recorded : Label → Event
  cache_status : Status → Event
  called_origin : Request → Event
  soft_purged : Text → Event
  set_variant : Text → CacheMetadata → VariantInfo → Text → ℤ → Event
  spawned_swr : Text → Text → Event
  mutated : Event
  purged : Text → Event
  forwarded : Event
  add_headers : Header → Event
  set_age : ℤ → Event
  reconciled : Event
  wrote_status : ℕ → Event
  wrote_body : Text → Event
  processed_esi : ℕ → Text → List Fragment → Status → Event
  http_error : ℕ → Event
  panicked : Event

pub data State : Type 0 where
  check_bypass lookup_metadata match_variant evaluate_freshness serve_304 serve_412 serve_cached_hit
        serve_swr fetch_origin_miss fetch_origin_revalidate bypass_origin :
      State

-- The result of a state function: what it did, the context it leaves, and the next state.
pub record Outcome : Type 0 where
  pub events : List Event
  pub context : Context
  pub next : Option State

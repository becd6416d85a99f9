-- ===== src/Key.antt =====
-- cache_key.go: the configuration of the keys, and the request they are made from.
pub mod Escape
pub mod Path
pub mod Query
pub mod Primary
pub mod Variant
use titip.Prelude.{ℕ, Bool, List}
use titip.Text.{Text}
use titip.Http.{Header}

-- What the keys read of an `http.Request` and its URL. `cookies` holds the named cookies as
-- `r.Cookie` returns them.
pub record Request : Type 0 where
  pub method : Text
  pub path : Text
  pub raw_query : Text
  pub url_host : Text
  pub url_scheme : Text
  pub host : Text
  pub is_tls : Bool
  pub header : Header
  pub cookies : List (Text × Text)

-- `CacheKey`
pub record CacheKey : Type 0 where
  pub include_protocol : Bool
  pub exclude_host : Bool
  pub exclude_query : Bool
  pub preserve_query_order : Bool
  pub included_query_params : List Text
  pub excluded_query_params : List Text
  pub exclude_marketing_query_params : Bool
  pub included_header_names : List Text
  pub included_cookie_names : List Text
  pub case_insensitive_path : Bool
  pub included_query_param_values : List (Text × List Text)

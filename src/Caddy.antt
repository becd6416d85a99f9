-- ===== src/Caddy.antt =====
-- adapter/caddy: the configuration of the handler and of the global app, as caddy.go and app.go declare it.
-- What is read of Caddy and of other packages is the record `Host`.
pub mod Provision
pub mod Admin
pub mod Caddyfile
use titip.Prelude.{ℕ, Bool, true, false, ◌||◌, Option, none, some, List, [], ◌∷◌, if◌then◌else◌}
use titip.Prelude.Int.{ℤ}
use titip.Text.{Text}
use titip.Key.{CacheKey}
use titip.Storage.Dict.{Dict, insert}
use titip.Esi.Options.{Fetcher}

-- `CacheKey` of caddy.go
pub record KeyRules : Type 0 where
  pub include_protocol : Option Bool
  pub exclude_host : Option Bool
  pub exclude_query : Option Bool
  pub preserve_query_order : Option Bool
  pub included_query_params : List Text
  pub excluded_query_params : List Text
  pub exclude_marketing_query_params : Option Bool
  pub included_header_names : List Text
  pub included_cookie_names : List Text
  pub case_insensitive_path : Option Bool
  pub included_query_param_values : Dict (List Text)

-- `ESIConfig`
pub record EsiRules : Type 0 where
  pub enabled : Option Bool
  pub require_surrogate_control : Option Bool
  pub max_depth : Option ℕ
  pub max_timeout : Text
  pub max_concurrent_requests : Option ℤ
  pub block_private_ips : Option Bool
  pub allowed_hosts : List Text
  pub allow_private_ips_for_allowed_hosts : Option Bool
  pub max_response_size : Text
  pub forward_fragment_cookies : Option Bool
  pub preserve_etag : Option Bool
  pub error_marker : Text

-- `ServerTimingConfig`
pub record TimingRules : Type 0 where
  pub enabled : Option Bool
  pub cookie_name : Text
  pub cookie_value : Text

-- `App`; `storage_raw` is empty where no storage is given.
pub record App : Type 0 where
  pub storage_raw : Text
  pub cache_status : Text
  pub respect_client_cache_control : Option Bool
  pub auto_invalidate_mutating_methods : Option Bool
  pub convert_head_to_get : Option Bool
  pub background_fetch_timeout : Text
  pub storage_timeout : Text
  pub cache_key : Option KeyRules
  pub esi : Option EsiRules
  pub use_rewritten_url : Option Bool
  pub server_timing : Option TimingRules
  pub storage_compression : Text

-- `Handler`: the same parts, and the name of the header of tags.
pub record Handler : Type 0 where
  pub of_route : App
  pub tag_header : Text

-- `new(App)`
abbrev pub empty_app : App
empty_app = record {
  storage_raw = [];
  cache_status = [];
  respect_client_cache_control = none;
  auto_invalidate_mutating_methods = none;
  convert_head_to_get = none;
  background_fetch_timeout = [];
  storage_timeout = [];
  cache_key = none;
  esi = none;
  use_rewritten_url = none;
  server_timing = none;
  storage_compression = [];
}

-- What `LoadModule` gives: an error, a module that is no storage module, or what its `Storage` returns.
pub data Loaded (S : Type 0) : Type 0 where
  not_loaded not_storage : Loaded S
  loaded : Option S → Loaded S

-- Caddy and go-humanize: `ctx.LoadModule`, `caddy.ParseDuration`, `humanize.ParseBytes`, whether there is
-- a registry of metrics, and the in-process fetcher that goes through the server of the request.
pub record Host (S : Type 0) : Type 0 where
  pub load_module : Text → Loaded S
  pub parse_duration : Text → Option ℤ
  pub parse_bytes : Text → Option ℕ
  pub has_registry : Bool
  pub fetcher : Fetcher

-- `coalesce` of two
abbrev pub coalesce {ℓ} : {A : Type ℓ} → Option A → Option A → Option A
coalesce none b = b
coalesce (some a) b = some a

-- `cmp.Or` of two texts
abbrev pub or_text : Text → Text → Text
or_text [] b = b
or_text (c ∷ a) b = c ∷ a

abbrev pub set_by : Option Bool → Bool → Bool
set_by none b = b
set_by (some v) b = v

abbrev pub list_by : List Text → List Text → List Text
list_by [] old = old
list_by (t ∷ ts) old = t ∷ ts

abbrev pub is_given {ℓ} : {A : Type ℓ} → List A → Bool
is_given [] = false
is_given (a ∷ more) = true

-- The rule of `exclude_query`: lists of parameters turn it off where nothing is said of it.
abbrev pub exclude_query_by : KeyRules → Option Bool → Bool → Bool
exclude_query_by src (some v) old = v
exclude_query_by src none old =
    if is_given src.included_query_params || is_given src.included_query_param_values
    then false
    else old

unfoldable pub insert_all : Dict (List Text) → Dict (List Text) → Dict (List Text)
insert_all [] old = old
insert_all ((k, v) ∷ more) old = insert_all more (insert k v old)

-- `applyCacheKey`, for a source that is given
unfoldable pub apply_cache_key : KeyRules → CacheKey → CacheKey
unfolding insert_all
apply_cache_key src key = record key {
  include_protocol = set_by src.include_protocol key.include_protocol;
  exclude_host = set_by src.exclude_host key.exclude_host;
  exclude_query = exclude_query_by src src.exclude_query key.exclude_query;
  preserve_query_order = set_by src.preserve_query_order key.preserve_query_order;
  included_query_params = list_by src.included_query_params key.included_query_params;
  excluded_query_params = list_by src.excluded_query_params key.excluded_query_params;
  exclude_marketing_query_params =
      set_by src.exclude_marketing_query_params key.exclude_marketing_query_params;
  included_header_names = list_by src.included_header_names key.included_header_names;
  included_cookie_names = list_by src.included_cookie_names key.included_cookie_names;
  case_insensitive_path = set_by src.case_insensitive_path key.case_insensitive_path;
  included_query_param_values =
      insert_all src.included_query_param_values key.included_query_param_values;
}

-- ===== src/Tests/Handler.antt =====
-- Requests for a page: one that is fresh in the store, one whose origin panics, one that is not there.
use titip.Handler.Save.{save_variant}
use titip.Text.{join}
use titip.Http.{get_header_values}
use titip.Freshness.Cacheable.{directives_allow}
use titip.Freshness.Cacheable.{varies_on_all}
use titip.Freshness.Cacheable.{uncacheable_status}
use titip.Freshness.Cacheable.{is_response_cacheable}
use titip.Freshness.Calculate.{calculate_freshness}
use titip.Prelude.{◌+◌, ◌*◌, ◌≡◌, refl, inl, true, false, Option, none, some, [], ◌∷◌}
use titip.Prelude.Int.{pos, negsuc}
use titip.Text.{to_lower, contains, Text, codes}
use titip.Http.{get, values, is_empty}
use titip.Freshness.{Instant, Directives, second}
use titip.Precondition.{unix_epoch}
use titip.Key.{Request}
use titip.Storage.{VariantInfo, CacheMetadata, Storage, meta_absent, variant_found}
use titip.Handler.{Config, Context, World, Response}
use titip.Handler.Serve.{decoded}
use titip.Handler.Miss.{
  freshness_of, should_cache, inspect_and_prepare_esi, state_fetch_origin_miss,
}
use titip.Handler.Miss.NoCookie.{MayStore, miss_stores}
use titip.Handler.Revalidate.{rechecked}
use titip.Handler.Revalidate.Answer.{respond_revalidated}
use titip.Handler.Revalidate.Stale.{asked_origin, stale_if_error, panic_unanswered}

abbrev pub config : Config
config = record {
  cache_key = record {
    include_protocol = false;
    exclude_host = false;
    exclude_query = false;
    preserve_query_order = false;
    included_query_params = [];
    excluded_query_params = [];
    exclude_marketing_query_params = false;
    included_header_names = [];
    included_cookie_names = [];
    case_insensitive_path = false;
    included_query_param_values = [];
  };
  respect_client_cache_control = true;
  convert_head_to_get = true;
  has_esi = false;
  require_surrogate_control = true;
  preserve_etag = false;
  tag_header_name = [];
  is_closed = false;
}

abbrev pub get_page : Request
get_page = record {
  method = codes "GET";
  path = codes "/page";
  raw_query = [];
  url_host = [];
  url_scheme = [];
  host = codes "example.com";
  is_tls = false;
  header = [];
  cookies = [];
}

abbrev fresh_for_a_minute : Directives
fresh_for_a_minute = record {
  max_age = pos 60;
  s_max_age = negsuc 0;
  stale_while_revalidate = negsuc 0;
  stale_if_error = negsuc 0;
  no_cache_present = false;
  no_cache = [];
  no_store = false;
  private_present = false;
  private = [];
  public = false;
  must_revalidate = false;
  proxy_revalidate = false;
}

abbrev noon : Instant
noon = unix_epoch + 1000 * second

abbrev page : VariantInfo
page = record {
  variant_key = codes "default";
  status_code = 200;
  response_headers = [];
  etag = [];
  last_modified_unix_nano = pos 0;
  raw_body_size = pos 2;
  esi_fragments = [];
  storage_compression = codes "none";
}

abbrev entry : CacheMetadata
entry = record {
  primary_key = codes "p=/page:h=example.com:m=GET:";
  vary_header_names = [];
  variants = (codes "default", page) ∷ [];
  created_at_unix_nano = pos 0;
  expires_at_unix_nano = pos (2000 * second);
  stale_until_unix_nano = pos 0;
  corrected_initial_age_seconds = pos 0;
  tags = [];
}

abbrev store : Storage
store = record { get_meta = λ k. meta_absent; get_variant = λ k v. variant_found page (codes "hi") }

-- A world whose origin answers, or panics, as it is told to.
abbrev pub world : Option Response → (Text → Option (Text → Option Text)) → World
world answer codecs = record {
  storage = store;
  origin = λ r. answer;
  clock = noon;
  request_time = noon;
  response_time = noon;
  judged_at = noon;
  storage_then = store;
  rechecked_at = noon;
  answered_at = noon;
  is_shared = false;
  format_time = λ t. [];
  parsers = record {
    parse_time = λ t. none;
    parse_response_cache_control = λ t. some fresh_for_a_minute;
  };
  parse_request_cache_control = λ t. none;
  configured = none;
  decompress = codecs;
  parse_duration = λ t. none;
}

abbrev pub stored_as_is : Text → Option (Text → Option Text)
stored_as_is name = some (λ t. some t)

abbrev no_codecs : Text → Option (Text → Option Text)
no_codecs name = none

abbrev started : Context
started = record {
  request = get_page;
  directives = none;
  primary_key = codes "p=/page:h=example.com:m=GET:";
  variant_key = codes "default";
  meta = none;
  is_soft_purged = false;
  variant = none;
  now = pos 0;
  is_vary_miss = false;
}

abbrev pub answer : Response
answer = record {
  code = 200;
  header = (codes "Cache-Control", codes "max-age=60" ∷ []) ∷ [];
  body = codes "hi";
}

abbrev broken : World
broken = world none stored_as_is

miss_stores_example : MayStore config (world (some answer) stored_as_is) started
unfolding state_fetch_origin_miss is_empty values contains to_lower get inspect_and_prepare_esi
    should_cache freshness_of calculate_freshness is_response_cacheable uncacheable_status
    varies_on_all directives_allow get_header_values join save_variant
miss_stores_example = miss_stores config (world (some answer) stored_as_is) started refl

panic_unanswered_example :
    (respond_revalidated config (world none no_codecs) started entry page).events
    ≡ asked_origin config (world none no_codecs) started entry page ∷ []
unfolding rechecked decoded
panic_unanswered_example =
    panic_unanswered config (world none no_codecs) started entry page refl (inl refl) refl

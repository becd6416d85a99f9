-- ===== src/Tests/Purge.antt =====
-- A purge of one page.
use titip.Prelude.{ℕ, Bool, not, ◌||◌, all, arith, ◌==◌, ◌≡◌, refl, true, false, [], ◌∷◌, some}
use titip.Prelude.Int.{pos}
use titip.Text.{◌==ₜ◌, Text, codes, has_prefix, split, contains, join, to_lower, index, lower_byte}
use titip.Key.Escape.Safe.{Each}
use titip.Purge.Named.{by_key}
use titip.Purge.Run.{run_keys, purge_target}
use titip.Purge.Run.Removes.{IsLiteral, purge_removes, is_counted}
use titip.Http.{is_empty}
use titip.Storage.{CacheMetadata}
use titip.Storage.Memory.{Store, new_store}
use titip.Storage.Memory.Purges.{memory_backend, purge}
use titip.Storage.Memory.Contract.{has_entry, memory-HardPurge}
use titip.Key.{CacheKey}
use titip.Key.Primary.{resolve_scheme, normalize_host, trim_suffix}
use titip.Purge.{
  ParsedUrl, Target, purge_operation, path_operation, path_prefix, build_purge_operation,
  parse_target, query_operation,
}
use titip.Purge.Covers.{request_for}
use titip.Key.Query.{
  build_query_string, parse_parts, sorted_pairs, keys_of, kept_values, is_query_param_allowed,
  allowed_pairs, build_sorted_query_string, build_unsorted_query_string, cut, find_values,
  raw_pairs,
}
use titip.Key.Escape.{query_unescape, query_escape, path_escape}
use titip.Text.Order.{insert_new, sort, before, insert}
use titip.Key.Path.{clean, clean_segments, cleaned_path, write_escaped_path}

abbrev config : CacheKey
config = record {
  include_protocol = true;
  exclude_host = false;
  exclude_query = false;
  preserve_query_order = false;
  included_query_params = [];
  excluded_query_params = [];
  exclude_marketing_query_params = true;
  included_header_names = [];
  included_cookie_names = [];
  case_insensitive_path = false;
  included_query_param_values = [];
}

abbrev api_url : ParsedUrl
api_url = record {
  scheme = codes "https";
  path = codes "/api";
  host = codes "Example.com:443";
  raw_query = codes "id=42";
}

abbrev api : Target
api = record { scheme = codes "https"; url = api_url }

api-request : resolve_scheme (request_for api api.url.raw_query true [] [] []) ≡ codes "https"
unfolding resolve_scheme
api-request = refl

purge_of_api :
    build_purge_operation
      (λ target. some api_url)
      (codes "https://Example.com:443/api?id=42")
      config
    ≡ some (record {
      is_exact = true;
      keys = codes "p=/api:h=example.com:s=https:qs=id=42:m=GET:" ∷ [];
    })
unfolding build_purge_operation has_prefix is_empty build_query_string parse_parts split contains
    query_unescape join sorted_pairs keys_of insert_new sort kept_values is_query_param_allowed
    to_lower query_escape normalize_host path_escape clean clean_segments cleaned_path
    write_escaped_path trim_suffix allowed_pairs build_sorted_query_string
    build_unsorted_query_string cut find_values raw_pairs parse_target path_operation path_prefix
    purge_operation query_operation before insert index lower_byte ◌==ₜ◌
purge_of_api = refl

api-exact : (purge_operation config api).is_exact ≡ true
unfolding has_prefix is_empty build_query_string parse_parts split contains query_unescape join
    sorted_pairs keys_of insert_new sort kept_values is_query_param_allowed to_lower query_escape
    normalize_host path_escape clean clean_segments cleaned_path write_escaped_path trim_suffix
    allowed_pairs build_sorted_query_string build_unsorted_query_string cut find_values raw_pairs
    path_operation path_prefix purge_operation query_operation before insert index lower_byte ◌==ₜ◌
api-exact = refl

abbrev pub is_literal : ℕ → Bool
is_literal c = not (c == b'*' || c == b'?' || c == b'[' || c == 92 || c == b'\n')

pub all-IsLiteral : (t : Text) → all is_literal t ≡ true → Each IsLiteral t
all-IsLiteral [] e = tt
all-IsLiteral (c ∷ t) e = (
  record {
    no_star = ground (arith, e);
    no_question = ground (arith, e);
    no_bracket = ground (arith, e);
    no_backslash = ground (arith, e);
    no_line_feed = ground (arith, e);
  },
  all-IsLiteral t (ground (arith, e)),
)

abbrev api_key : Text
api_key = codes "p=/api:h=example.com:s=https:qs=id=42:m=GET:"

abbrev api_meta : CacheMetadata
api_meta = record {
  primary_key = api_key;
  vary_header_names = [];
  variants = [];
  created_at_unix_nano = pos 0;
  expires_at_unix_nano = pos 2000;
  stale_until_unix_nano = pos 0;
  corrected_initial_age_seconds = pos 0;
  tags = codes "api" ∷ [];
}

-- The store in memory with an entry under the key.
abbrev one_entry : Store
one_entry = record new_store {
  meta = (api_key, record { meta = api_meta; soft_purged = false; expires_at = 0 }) ∷ [];
}

abbrev api_text : Text
api_text = codes "https://Example.com:443/api?id=42"

api-counted :
    is_counted
      (purge_target memory_backend (λ target. some api_url) config false one_entry api_text).1
    ≡ true
unfolding purge_target run_keys purge
api-counted = rw (purge_of_api, purge_target) refl

purge_removes_example :
    has_entry
      (purge_target memory_backend (λ target. some api_url) config false one_entry api_text).0
      api_key
    ≡ false
purge_removes_example =
    purge_removes memory_backend has_entry memory-HardPurge (λ target. some api_url) config
      one_entry api_text api_key (record { is_exact = true; keys = api_key ∷ [] }) purge_of_api
      (by_key refl refl) (all-IsLiteral api_key refl) api-counted

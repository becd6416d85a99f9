-- ===== src/Tests/Keys.antt =====
-- The keys of two requests for one page.
use mathlib.Core.List.{Permᴰ}
use titip.Prelude.{◌≡◌, refl, arith, true, false, [], ◌∷◌}
use titip.Text.{◌==ₜ◌, to_lower, trim_space, codes, split}
use titip.Http.{values, is_empty, Header}
use titip.Key.{Request, CacheKey}
use titip.Text.Order.{sort}
use titip.Key.Escape.RoundTrip.{IsBytes}
use titip.Key.Primary.{generate_primary_key}
use titip.Key.Primary.Order.{generate_primary_key-Permᴰ}
use titip.Key.Variant.{is_sortable_vary_header, tokens_of, generate_variant_key}
use titip.Key.Variant.Order.{generate_variant_key-SameValues}

abbrev config : CacheKey
config = record {
  include_protocol = true;
  exclude_host = false;
  exclude_query = false;
  preserve_query_order = false;
  included_query_params = [];
  excluded_query_params = codes "fbclid" ∷ [];
  exclude_marketing_query_params = true;
  included_header_names = codes "X-Region" ∷ [];
  included_cookie_names = [];
  case_insensitive_path = false;
  included_query_param_values = [];
}

abbrev get_page : Request
get_page = record {
  method = codes "GET";
  path = codes "/shop/../shoes/";
  raw_query = codes "size=9&color=red";
  url_host = [];
  url_scheme = [];
  host = codes "Example.com:80";
  is_tls = false;
  header = (codes "X-Region", codes "eu" ∷ []) ∷ [];
  cookies = [];
}

special-IsBytes : IsBytes (codes "a&*")
special-IsBytes = (omega arith, (omega arith, (omega arith, tt)))

generate_primary_key-Permᴰ_example :
    generate_primary_key get_page config
    ≡ generate_primary_key (record get_page { raw_query = codes "color=red&size=9" }) config
unfolding split
generate_primary_key-Permᴰ_example =
    generate_primary_key-Permᴰ config refl get_page (codes "color=red&size=9")
      (Permᴰ.swap refl refl)

abbrev gzip_first : Header
gzip_first =
    (codes "Accept-Encoding", codes "gzip, br" ∷ []) ∷ (codes "Cookie", codes "a=1" ∷ []) ∷ []

abbrev br_first : Header
br_first = (codes "Accept-Encoding", codes "br,gzip" ∷ []) ∷ []

generate_variant_key-SameValues_example :
    generate_variant_key gzip_first (codes "Accept-Encoding" ∷ [])
    ≡ generate_variant_key br_first (codes "Accept-Encoding" ∷ [])
unfolding sort is_sortable_vary_header ◌==ₜ◌ to_lower trim_space tokens_of values split is_empty
generate_variant_key-SameValues_example =
    generate_variant_key-SameValues gzip_first br_first (codes "Accept-Encoding" ∷ [])
      (codes "Accept-Encoding" ∷ []) (Permᴰ.cons refl Permᴰ.nil) (Permᴰ.swap refl refl, tt)

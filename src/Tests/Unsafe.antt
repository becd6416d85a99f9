-- ===== src/Tests/Unsafe.antt =====
-- A request that changes a page, and what it has purged.
use titip.Prelude.{refl, false, some, []}
use titip.Text.{codes, ◌==ₜ◌, to_lower}
use titip.Http.{get, is_empty}
use titip.Key.{Request}
use titip.Key.Primary.{resolve_scheme, normalize_host, generate_primary_key}
use titip.Purge.{purge_operation, ParsedUrl}
use titip.Purge.Named.{IsNamed, purge_covers}
use titip.Purge.Covers.{request_for}
use titip.Handler.Unsafe.{UrlPackage}
use titip.Handler.Unsafe.Invalidate.{own_target}
use titip.Tests.Handler.{config, get_page}

abbrev page_url : ParsedUrl
page_url = record {
  scheme = codes "http";
  path = codes "/page";
  host = codes "example.com";
  raw_query = [];
}

-- How net/url reads `evil.com/page`.
abbrev bare_url : ParsedUrl
bare_url = record { scheme = []; path = codes "evil.com/page"; host = []; raw_query = [] }

abbrev reads_as : ParsedUrl → UrlPackage
reads_as u = record {
  parse = λ t. some u;
  string_of = λ r. codes "/page";
  request_uri = λ r. codes "/page";
}

abbrev post_page : Request
post_page = record get_page { method = codes "POST" }

purge_covers_example :
    IsNamed (purge_operation config.cache_key (own_target (reads_as page_url) post_page page_url)) (
      generate_primary_key
        (request_for (own_target (reads_as page_url) post_page page_url) [] false [] [] [])
        config.cache_key)
unfolding resolve_scheme normalize_host is_empty ◌==ₜ◌ get to_lower
purge_covers_example =
    purge_covers config.cache_key (own_target (reads_as page_url) post_page page_url) false [] [] []
      refl refl

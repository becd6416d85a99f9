-- ===== src/Tests/Store.antt =====
-- The store in memory with one page that has a tag.
use titip.Freshness.{FreshnessInfo, second}
use titip.Key.Primary.{generate_primary_key}
use titip.Handler.{World}
use titip.Handler.Save.{new_metadata, new_variant}
use titip.Tests.Handler.{config, get_page, world, answer, stored_as_is}
use titip.Prelude.{◌*◌, true, none, Option}
use titip.Prelude.{◌≡◌, refl, false, ◌&&◌, some, List, [], ◌∷◌, if◌then◌else◌}
use titip.Prelude.Int.{pos}
use titip.Text.{Text, codes, ◌==ₜ◌}
use titip.Http.{is_empty}
use titip.Storage.{VariantInfo, CacheMetadata, variant_absent, variant_found}
use titip.Storage.Dict.{lookup, insert, remove}
use titip.Storage.Memory.{
  Store, MetaEntry, has_expired, with_default, expiry, new_store, holds_key, with_variant,
  set_variant, get_variant,
}
use titip.Storage.Memory.Purges.{Change, sets, after, purge_by_tag}
use titip.Storage.Memory.RoundTrip.{get_variant-set_variant}
use titip.Storage.Memory.Tags.Removes.{purge_by_tag-removes}

abbrev page_key : Text
page_key = codes "p=/page:h=example.com:m=GET:"

abbrev other_key : Text
other_key = codes "p=/other:h=example.com:m=GET:"

abbrev page : VariantInfo
page = record {
  variant_key = [];
  status_code = 200;
  response_headers = [];
  etag = [];
  last_modified_unix_nano = pos 0;
  raw_body_size = pos 2;
  esi_fragments = [];
  storage_compression = codes "none";
}

abbrev tagged : List Text → CacheMetadata
tagged ts = record {
  primary_key = page_key;
  vary_header_names = [];
  variants = [];
  created_at_unix_nano = pos 0;
  expires_at_unix_nano = pos 2000;
  stale_until_unix_nano = pos 0;
  corrected_initial_age_seconds = pos 0;
  tags = ts;
}

abbrev kept : Store
kept = with_variant new_store page_key (tagged (codes "news" ∷ [])) page (codes "hi") 60

page_set :
    set_variant new_store 10 page_key (tagged (codes "news" ∷ [])) page (codes "hi") (pos 50)
    ≡ some kept
unfolding set_variant
page_set = refl

get_variant-set_variant_example : get_variant kept 20 page_key (codes "default") ≡ (
    if page_key ==ₜ page_key && with_default page.variant_key ==ₜ with_default (codes "default")
    then (if has_expired 20 (expiry 10 (pos 50))
        then variant_absent
        else variant_found
            (record page { variant_key = with_default page.variant_key })
            (codes "hi"))
    else get_variant new_store 20 page_key (codes "default"))
get_variant-set_variant_example =
    get_variant-set_variant new_store kept 10 20 page_key page_key (codes "default")
      (tagged (codes "news" ∷ [])) page (codes "hi") (pos 50) page_set

-- Two pages are stored, and one of them has the tag.
abbrev calls : List Change
calls =
    sets 20 other_key (tagged (codes "sport" ∷ [])) page (codes "ho") (pos 50)
    ∷ sets 10 page_key (tagged (codes "news" ∷ [])) page (codes "hi") (pos 50)
    ∷ []

abbrev other_entry : MetaEntry
other_entry = record { meta = tagged (codes "sport" ∷ []); soft_purged = false; expires_at = 70 }

one_purged : (purge_by_tag (after calls) (codes "news") false).1 ≡ some (pos 1)
unfolding purge_by_tag after set_variant is_empty lookup insert ◌==ₜ◌
one_purged = refl

other_left :
    lookup other_key (purge_by_tag (after calls) (codes "news") false).0.meta ≡ some other_entry
unfolding lookup purge_by_tag after set_variant is_empty insert ◌==ₜ◌ remove
other_left = refl

purge_by_tag-removes_example : holds_key (codes "news") other_entry.meta.tags ≡ false
purge_by_tag-removes_example =
    purge_by_tag-removes calls (codes "news") other_key other_entry (pos 1) one_purged other_left

abbrev for_a_minute : FreshnessInfo
for_a_minute = record {
  apparent_age = pos 0;
  current_age = pos 0;
  freshness_lifetime = pos (60 * second);
  directives = none;
  effective_ttl = pos (60 * second);
  stale_while_revalidate_ttl = pos 0;
  stale_if_error_ttl = pos 0;
  corrected_initial_age = pos 0;
  is_cacheable = true;
}

abbrev reading : World
reading = world none stored_as_is

abbrev as_it_is : Text → Option Text
as_it_is t = some t

-- The store after the answer for a page was stored in an empty one.
abbrev filled : Store
filled =
    with_variant new_store (generate_primary_key get_page config.cache_key)
      (new_metadata config reading (generate_primary_key get_page config.cache_key) answer.header
        for_a_minute)
      (new_variant config reading (codes "default") 200 answer.header (codes "hi") []) (codes "hi")
      (expiry reading.clock (pos (60 * second)))

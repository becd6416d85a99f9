-- ===== src/Tests/Responses.antt =====
-- A cacheable response, a conditional request, and a page with ESI tags.
use titip.Prelude.{
  ◌+◌, ◌*◌, ◌≡◌, ◌≢◌, ◌↔◌, refl, true, false, Option, none, some, List, [], ◌∷◌, arith, length,
}
use titip.Prelude.Int.{ℤ, pos, negsuc, ◌≤ℤ◌}
use titip.Text.{contains, Text, codes, index_byte}
use titip.Http.{values, Header, set}
use titip.Http.Name
use titip.Freshness.{Instant, Parsers, Directives, FreshnessInfo, max_cache_ttl, second}
use titip.Freshness.Cacheable.{is_response_cacheable}
use titip.Freshness.Calculate.{calculate_freshness}
use titip.Freshness.Storable.{Storable, cacheable_iff}
use titip.Freshness.Ttl.{exact_ttl, effective_ttl_exact}
use titip.Freshness.Tiers.{tier_precedence}
use titip.Precondition.{evaluate_preconditions}
use titip.Precondition.Rules.{Fails, IsCurrent, preconditions_exact}
use titip.Esi.Fragment.{strip, Ordered}
use titip.Esi.Tag.{err, out_of_fuel}
use titip.Esi.Scanner.{scan}
use titip.Esi.Scanner.Bounds.{scan-Ordered}
use titip.Esi.Scanner.Termination.{scan_terminates}
use titip.Esi.Splice.{FragmentResult}

-- Parsers that read any date as one instant, and any directives as max-age=60.
abbrev a_minute : Directives
a_minute = record {
  max_age = pos 60;
  s_max_age = negsuc 0;
  stale_while_revalidate = pos 30;
  stale_if_error = negsuc 0;
  no_cache_present = false;
  no_cache = [];
  no_store = false;
  private_present = false;
  private = [];
  public = true;
  must_revalidate = false;
  proxy_revalidate = false;
}

abbrev noon : Instant
noon = 63000000000 * second

abbrev parsers : Parsers
parsers = record { parse_time = λ t. some noon; parse_response_cache_control = λ t. some a_minute }

abbrev request : Header
request = (codes "If-None-Match", codes "W/\"v1\"" ∷ []) ∷ []

abbrev response : Header
response =
    (codes "Titip-Cache-Control", codes "public, max-age=60, stale-while-revalidate=30" ∷ [])
    ∷ (codes "Age", codes "7" ∷ [])
    ∷ (codes "Date", codes "Thu, 01 Jan 1998 12:00:00 GMT" ∷ [])
    ∷ []

cacheable_iff_example :
    (is_response_cacheable parsers noon 200 request response (some a_minute) ≡ true)
    ↔ Storable parsers noon 200 request response (some a_minute)
cacheable_iff_example = cacheable_iff parsers noon 200 request response (some a_minute)

abbrev computed : FreshnessInfo
computed =
    calculate_freshness parsers noon 200 request response noon (noon + second) (noon + 2 * second)

effective_ttl_exact_example :
    (pos 0 ≤ℤ computed.corrected_initial_age)
    × (computed.effective_ttl
        ≡ exact_ttl computed.freshness_lifetime computed.corrected_initial_age)
    × (pos 0 ≤ℤ computed.effective_ttl)
    × (computed.effective_ttl ≤ℤ max_cache_ttl)
effective_ttl_exact_example =
    effective_ttl_exact parsers noon 200 request response noon (noon + second) (noon + 2 * second)

tier_precedence_example :
    calculate_freshness parsers noon 200 request
      (set response Name.cache_control (codes "no-store"))
      noon
      noon
      noon
    ≡ calculate_freshness parsers noon 200 request response noon noon noon
unfolding values
tier_precedence_example =
    tier_precedence parsers response (codes "no-store")
      (codes "public, max-age=60, stale-while-revalidate=30") [] refl noon 200 request noon noon
      noon

preconditions_exact_example :
    ((evaluate_preconditions parsers request (codes "\"v1\"") (pos 5) ≡ some 412)
      ↔ Fails parsers request (codes "\"v1\"") (pos 5))
    × ((evaluate_preconditions parsers request (codes "\"v1\"") (pos 5) ≡ some 304) ↔ (
        (¬ Fails parsers request (codes "\"v1\"") (pos 5))
        × IsCurrent parsers request (codes "\"v1\"") (pos 5)))
preconditions_exact_example = preconditions_exact parsers request (codes "\"v1\"") (pos 5)

abbrev page : Text
page = codes "a<esi:remove>b</esi:remove>c"

abbrev no_duration : Text → Option ℤ
no_duration t = none

scan-Ordered_example : Ordered 0 (length page) (strip 1 27 ∷ [])
unfolding scan contains index_byte
scan-Ordered_example = scan-Ordered no_duration page (strip 1 27 ∷ []) refl

scan_terminates_example : scan no_duration page ≢ err out_of_fuel
scan_terminates_example = scan_terminates no_duration page

-- A page with one tag, and what stands for it.
abbrev placed : Text → List FragmentResult
placed body = record { spec = strip 1 27; body = body; set_cookies = [] } ∷ []

removed-Ordered : Ordered 0 (length page) (strip 1 27 ∷ [])
removed-Ordered = (
  omega arith,
  record { start_le_end = omega arith; inner_le = omega arith; inner_in = omega arith },
  omega arith,
)

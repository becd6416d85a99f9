-- ===== src/Freshness.antt =====
-- freshness.go: the age and the freshness of a response (RFC 9111), and whether it may be stored.
-- An instant is in nanoseconds from Go's zero time, a duration is an `int64` in nanoseconds.
-- `http.ParseTime` and the parser of Cache-Control, which is another project's, are parameters.
pub mod Signed
pub mod Ttl
pub mod Storable
pub mod Age
pub mod Tiers
pub mod Lifetime
pub mod Cacheable
pub mod Calculate
use titip.Prelude.{
  ℕ, zero, suc, ◌+◌, ◌-◌, ◌*◌, ◌<◌, ◌≤◌, ◌^◌, ◌≡◌, refl, Bool, true, false, not, ◌&&◌, ◌||◌, Option,
  none, some, List, [], ◌∷◌, ◌++◌, arith, ltb, leb, ◌==◌, if◌then◌else◌, length, any, min,
}
use titip.Prelude.Int.{ℤ, pos, negsuc, ◌+ℤ◌, ◌-ℤ◌, ltb_ℤ, leb_ℤ, max_ℤ, two_63, wrap_64}
use titip.Text.{Text, codes, ◌==ₜ◌, trim_space, to_lower, contains, decimal, split, join}
use titip.Http.{Header, get, values, get_header_values, is_empty}
use titip.Http.Name

abbrev pub Instant : Type 0
Instant = ℕ

abbrev pub Duration : Type 0
Duration = ℤ

abbrev pub second : ℕ
second = 1000000000

-- cacheobject.ResponseCacheDirectives: the fields that the program reads. An absent delta is -1.
pub record Directives : Type 0 where
  pub max_age : ℤ
  pub s_max_age : ℤ
  pub stale_while_revalidate : ℤ
  pub stale_if_error : ℤ
  pub no_cache_present : Bool
  pub no_cache : List Text
  pub no_store : Bool
  pub private_present : Bool
  pub private : List Text
  pub public : Bool
  pub must_revalidate : Bool
  pub proxy_revalidate : Bool

pub record FreshnessInfo : Type 0 where
  pub apparent_age : Duration
  pub corrected_initial_age : Duration
  pub current_age : Duration
  pub effective_ttl : Duration
  pub freshness_lifetime : Duration
  pub stale_while_revalidate_ttl : Duration
  pub stale_if_error_ttl : Duration
  pub is_cacheable : Bool
  pub directives : Option Directives

-- 365 days.
abbrev pub max_cache_ttl : Duration
max_cache_ttl = pos (365 * 24 * 3600 * second)

abbrev pub zero_duration : Duration
zero_duration = pos 0

-- `a.After(b)`
abbrev pub after : Instant → Instant → Bool
after a b = ltb b a

-- `a.Sub(b)` where `a` is after `b`: the difference, at most the largest `int64`.
unfoldable pub sub : Instant → Instant → Duration
sub a b = pos (min (a - b) (two_63 - 1))

-- `time.Duration(n) * time.Second`
unfoldable pub seconds : ℤ → Duration
unfolding wrap_64
seconds (pos n) = wrap_64 (pos (n * second))
seconds (negsuc n) = wrap_64 (negsuc (n * second + (second - 1)))

in_range : Bool → ℕ → Option ℤ
in_range false n = if ltb n two_63 then some (pos n) else none
in_range true zero = some (pos 0)
in_range true (suc n) = if ltb n two_63 then some (negsuc n) else none

signed : Bool → Text → Option ℤ
unfolding in_range
signed negative t = elim (decimal t) [ none ↦ none | some n ↦ in_range negative n ]

-- `strconv.ParseInt(s, 10, 64)`
unfoldable pub parse_int : Text → Option ℤ
unfolding signed
parse_int [] = none
parse_int (c ∷ cs) =
    if c == b'-'
    then signed true cs
    else if c == b'+'
    then signed false cs
    else signed false (c ∷ cs)

-- `parseAge`
unfoldable pub parse_age : Text → Duration
parse_age header =
    let trimmed = trim_space header in
    if is_empty trimmed then zero_duration else elim (parse_int trimmed) [
      | none ↦ zero_duration
      | some n ↦ if ltb_ℤ n (pos 0) then zero_duration else seconds n
    ]

-- `extractTieredCacheControl`
unfoldable pub extract_tiered_cache_control : Header → Text
extract_tiered_cache_control h =
    let titip = get_header_values h Name.titip_cache_control in
    let cdn = get_header_values h Name.cdn_cache_control in
    let standard = get_header_values h Name.cache_control in
    if not (is_empty titip)
    then join (codes ", ") titip
    else if not (is_empty cdn)
    then join (codes ", ") cdn
    else if not (is_empty standard)
    then join (codes ", ") standard
    else []

-- What the package takes from elsewhere: `http.ParseTime`, and `ParseResponseCacheControl` of
-- cacheobject, where `none` is an error.
pub record Parsers : Type 0 where
  pub parse_time : Text → Option Instant
  pub parse_response_cache_control : Text → Option Directives

-- Sum and difference of durations, with the wrap-around of `int64`.
unfoldable pub add_64 : Duration → Duration → Duration
unfolding wrap_64 ◌+ℤ◌
add_64 a b = wrap_64 (a +ℤ b)

unfoldable pub sub_64 : Duration → Duration → Duration
unfolding wrap_64 ◌-ℤ◌
sub_64 a b = wrap_64 (a -ℤ b)

module _ (p : Parsers) where
  -- `parseDate`: `none` is an error, and the zero time stands for no date.
  unfoldable pub parse_date : Text → Option Instant
  parse_date header =
      let trimmed = trim_space header in
      if is_empty trimmed || trimmed ==ₜ codes "0" || trimmed ==ₜ codes "-1"
      then some 0
      else p.parse_time trimmed

  -- The error of `parseDate` is dropped: the zero time comes with it.
  unfoldable pub date_or_zero : Text → Instant
  unfolding parse_date
  date_or_zero header = elim (parse_date header) [ none ↦ 0 | some date ↦ date ]

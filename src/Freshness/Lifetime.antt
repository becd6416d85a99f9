-- ===== src/Freshness/Lifetime.antt =====
-- freshness.go: the lifetime, the TTL and the stale windows of a response.
use titip.Prelude.{not, ◌&&◌, ◌||◌, Option, none, some, ◌==◌, if◌then◌else◌}
use titip.Prelude.Int.{ℤ, pos, ltb_ℤ, leb_ℤ}
use titip.Text.{Text}
use titip.Http.{Header, get, is_empty}
use titip.Http.Name
use titip.Freshness.{
  Instant, Duration, Directives, max_cache_ttl, zero_duration, after, sub, seconds, Parsers, sub_64,
  parse_date,
}

-- The difference, or 0 where `a` is not after `b`.
unfoldable pub elapsed : Instant → Instant → Duration
unfolding sub
elapsed a b = if after a b then sub a b else zero_duration

-- Step 1 of the age: how far the response's date lies behind its arrival.
unfoldable pub apparent_age_of : Instant → Instant → Duration
unfolding elapsed
apparent_age_of response_time date =
    if not (date == 0) then elapsed response_time date else zero_duration

-- The stale windows of one directive: a positive delta, in nanoseconds.
unfoldable pub window : ℤ → Duration
unfolding seconds
window delta = if ltb_ℤ (pos 0) delta then seconds delta else zero_duration

-- The largest of 0 and `lifetime - age`, at most a year.
unfoldable pub ttl_of : Duration → Duration → Duration
unfolding sub_64
ttl_of lifetime age =
    let ttl = if ltb_ℤ age lifetime then sub_64 lifetime age else zero_duration in
    if ltb_ℤ max_cache_ttl ttl then max_cache_ttl else ttl

module _ (p : Parsers) where
  -- `parseExpiresLifetime`
  unfoldable pub parse_expires_lifetime : Text → Instant → Instant → Duration
  unfolding parse_date sub
  parse_expires_lifetime header date response_time = elim (parse_date p header) [
    | none ↦ zero_duration
    | some expires ↦
        if expires == 0
        then zero_duration
        else if not (date == 0) && after expires date
        then sub expires date
        else if after expires response_time
        then sub expires response_time
        else zero_duration
  ]

  -- The lifetime by an Expires header, where there is one.
  unfoldable pub expires_lifetime : Header → Instant → Instant → Duration
  unfolding parse_expires_lifetime
  expires_lifetime h date response_time =
      let expires = get h Name.expires in
      if not (is_empty expires)
      then parse_expires_lifetime expires date response_time
      else zero_duration

  unfoldable pub declared_lifetime : Directives → Header → Instant → Instant → Duration
  unfolding expires_lifetime seconds
  declared_lifetime d h date response_time =
      if leb_ℤ (pos 0) d.s_max_age
      then seconds d.s_max_age
      else if leb_ℤ (pos 0) d.max_age
      then seconds d.max_age
      else expires_lifetime h date response_time

  -- `FreshnessLifetime`, step 4 of `calculateFreshness`.
  unfoldable pub freshness_lifetime_of : Option Directives → Header → Instant → Instant → Duration
  unfolding expires_lifetime declared_lifetime
  freshness_lifetime_of none h date response_time = expires_lifetime h date response_time
  freshness_lifetime_of (some d) h date response_time =
      let declared = declared_lifetime d h date response_time in
      if d.no_cache_present || not (is_empty d.no_cache) then zero_duration else declared

  -- The stale windows, which must-revalidate and proxy-revalidate forbid.
  unfoldable pub stale_window_of : (Directives → ℤ) → Option Directives → Duration
  unfolding window
  stale_window_of delta none = zero_duration
  stale_window_of delta (some d) =
      if not d.must_revalidate && not d.proxy_revalidate then window (delta d) else zero_duration

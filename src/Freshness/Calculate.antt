-- ===== src/Freshness/Calculate.antt =====
-- freshness.go: `calculateFreshness`.
use titip.Prelude.{ℕ, not, Option, none, if◌then◌else◌}
use titip.Prelude.Int.{max_ℤ}
use titip.Http.{Header, get, is_empty}
use titip.Http.Name
use titip.Freshness.{
  Instant, Directives, FreshnessInfo, parse_age, extract_tiered_cache_control, Parsers, add_64,
  date_or_zero,
}
use titip.Freshness.Lifetime.{
  elapsed, apparent_age_of, ttl_of, freshness_lifetime_of, stale_window_of,
}
use titip.Freshness.Cacheable.{is_response_cacheable}

module _ (p : Parsers) where
  unfoldable pub directives_of : Header → Option Directives
  unfolding extract_tiered_cache_control
  directives_of h =
      let header = extract_tiered_cache_control h in
      if not (is_empty header) then p.parse_response_cache_control header else none

  -- `calculateFreshness`; `clock` is what `time.Now` returns in it.
  unfoldable pub calculate_freshness :
      Instant → ℕ → Header → Header → Instant → Instant → Instant → FreshnessInfo
  unfolding directives_of date_or_zero apparent_age_of elapsed add_64 freshness_lifetime_of
      stale_window_of ttl_of
  calculate_freshness clock code request h request_time response_time now =
      let directives = directives_of h in
      let date = date_or_zero p (get h Name.date) in
      let apparent = apparent_age_of response_time date in
      let corrected = add_64 (parse_age (get h Name.age)) (elapsed response_time request_time) in
      let initial = max_ℤ apparent corrected in
      let lifetime = freshness_lifetime_of p directives h date response_time in
      record {
        apparent_age = apparent;
        corrected_initial_age = initial;
        current_age = add_64 initial (elapsed now response_time);
        effective_ttl = ttl_of lifetime initial;
        freshness_lifetime = lifetime;
        stale_while_revalidate_ttl = stale_window_of p (λ d. d.stale_while_revalidate) directives;
        stale_if_error_ttl = stale_window_of p (λ d. d.stale_if_error) directives;
        is_cacheable = is_response_cacheable p clock code request h directives;
        directives = directives;
      }

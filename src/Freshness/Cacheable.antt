-- ===== src/Freshness/Cacheable.antt =====
-- freshness.go: `isResponseCacheable`.
use titip.Prelude.{
  ℕ, Bool, true, false, not, ◌&&◌, ◌||◌, Option, none, some, ltb, ◌==◌, if◌then◌else◌, any,
}
use titip.Prelude.Int.{pos, ltb_ℤ}
use titip.Text.{codes, ◌==ₜ◌, trim_space, to_lower, contains, split}
use titip.Http.{Header, get, values, is_empty}
use titip.Http.Name
use titip.Freshness.{Instant, Directives, after, Parsers, parse_date}

-- The switch on the status at the head of `isResponseCacheable`.
unfoldable pub uncacheable_status : ℕ → Bool
uncacheable_status code =
    code == 304
    || code == 205
    || code == 206
    || code == 303
    || code == 401
    || code == 407
    || code == 421
    || code == 426

-- `Vary: *`, in any of the values.
unfoldable pub varies_on_all : Header → Bool
varies_on_all h =
    any (λ v. any (λ name. trim_space name ==ₜ codes "*") (split b',' v)) (values h Name.vary)

module _ (p : Parsers) where
  -- `hasFutureExpires`, by the clock of the machine.
  unfoldable pub has_future_expires : Instant → Header → Bool
  unfolding parse_date
  has_future_expires clock h =
      let expires = get h Name.expires in
      if is_empty expires then false else elim (parse_date p expires) [
        | none ↦ false
        | some date ↦ not (date == 0) && after date clock
      ]

  -- The tests of `isResponseCacheable` that look at the directives.
  unfoldable pub directives_allow : Instant → Header → Header → Option Directives → Bool
  directives_allow clock request h none =
      if not (has_future_expires clock h)
      then false
      else not (not (is_empty (get request Name.authorization)))
  directives_allow clock request h (some d) =
      if d.no_store
      then false
      else if d.private_present || not (is_empty d.private)
      then false
      else if not (is_empty (get request Name.authorization))
          && not d.public
          && ltb_ℤ d.s_max_age (pos 0)
          && not d.must_revalidate
      then false
      else if ltb_ℤ d.max_age (pos 0)
          && ltb_ℤ d.s_max_age (pos 0)
          && not d.public
          && not d.no_cache_present
          && is_empty d.no_cache
      then has_future_expires clock h
      else true

  unfoldable pub is_response_cacheable : Instant → ℕ → Header → Header → Option Directives → Bool
  is_response_cacheable clock code request h directives =
      if uncacheable_status code
      then false
      else if ltb code 200
      then false
      else if not (is_empty (get h Name.set_cookie))
      then false
      else if contains Name.content_type_event_stream (to_lower (get h Name.content_type))
      then false
      else if varies_on_all h
      then false
      else directives_allow clock request h directives

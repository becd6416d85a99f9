-- ===== src/Freshness/Ttl.antt =====
-- freshness.go: the TTL of `calculateFreshness`, against the arithmetic without wrap-around.
use titip.Prelude.{
  ◌*◌, ◌+◌, Bool-cases, Option-cases, inl, inr, ℕ, ◌-◌, ◌≤◌, ◌<◌, ◌≡◌, true, arith, if◌then◌else◌,
  Option, none, some,
}
use titip.Prelude.Int.{
  ℤ, pos, negsuc, pos_part, neg_part, ◌-ℤ◌, ◌≤ℤ◌, ltb_ℤ, max_ℤ, two_63, wrap_64,
}
use titip.Text.{Text}
use titip.Http.{Header, get}
use titip.Http.Name
use titip.Freshness.{
  Instant, Duration, Parsers, FreshnessInfo, Directives, max_cache_ttl, second, sub, add_64,
  parse_age, date_or_zero, seconds, sub_64, parse_date, zero_duration,
}
use titip.Freshness.Lifetime.{
  elapsed, apparent_age_of, ttl_of, parse_expires_lifetime, declared_lifetime,
  freshness_lifetime_of,
}
use titip.Freshness.Calculate.{directives_of, calculate_freshness}

-- The values of an `int64`.
abbrev pub IsInt64 : ℤ → Type 0
IsInt64 a = (pos_part a < two_63) × (neg_part a ≤ two_63)

pub wrap_64-IsInt64 : (a : ℤ) → IsInt64 (wrap_64 a)
unfolding wrap_64
wrap_64-IsInt64 (pos n) = ground arith
wrap_64-IsInt64 (negsuc n) = ground arith

seconds-IsInt64 : (n : ℤ) → IsInt64 (seconds n)
unfolding seconds
seconds-IsInt64 (pos n) = wrap_64-IsInt64 (pos (n * second))
seconds-IsInt64 (negsuc n) = wrap_64-IsInt64 (negsuc (n * second + (second - 1)))

sub-IsInt64 : (a b : Instant) → IsInt64 (sub a b)
unfolding sub
sub-IsInt64 a b = omega arith

-- A difference of instants is not negative.
elapsed-nonneg : (a b : Instant) → pos 0 ≤ℤ elapsed a b
unfolding elapsed
elapsed-nonneg a b = ground arith

wrap_64-IsInt64_keeps : (a : ℤ) → IsInt64 a → wrap_64 a ≡ a
unfolding wrap_64
wrap_64-IsInt64_keeps (pos n) h = ground arith
wrap_64-IsInt64_keeps (negsuc n) h = ground arith

-- The difference that is not wrapped, at most a year, or 0.
abbrev pub exact_ttl : Duration → Duration → Duration
exact_ttl lifetime age =
    if ltb_ℤ age lifetime
    then (if ltb_ℤ max_cache_ttl (lifetime -ℤ age) then max_cache_ttl else lifetime -ℤ age)
    else zero_duration

difference-IsInt64 :
    (lifetime age : Duration)
    → IsInt64 lifetime
    → pos 0 ≤ℤ age
    → ltb_ℤ age lifetime ≡ true
    → IsInt64 (lifetime -ℤ age)
unfolding ◌-ℤ◌
difference-IsInt64 (pos n) (pos m) h p e = ground arith
difference-IsInt64 (pos n) (negsuc m) h p e = absurd (omega arith)
difference-IsInt64 (negsuc n) (pos m) h p e = ground arith
difference-IsInt64 (negsuc n) (negsuc m) h p e = absurd (omega arith)

sub_64_exact :
    (lifetime age : Duration)
    → IsInt64 lifetime
    → pos 0 ≤ℤ age
    → ltb_ℤ age lifetime ≡ true
    → sub_64 lifetime age ≡ lifetime -ℤ age
unfolding sub_64
sub_64_exact lifetime age h p e =
    wrap_64-IsInt64_keeps (lifetime -ℤ age) (difference-IsInt64 lifetime age h p e)

ttl_of_exact :
    (lifetime age : Duration)
    → IsInt64 lifetime
    → pos 0 ≤ℤ age
    → ttl_of lifetime age ≡ exact_ttl lifetime age
unfolding ttl_of
ttl_of_exact lifetime age h p = elim (Bool-cases (ltb_ℤ age lifetime)) [
  | inl e ↦ rw e (rw (sub_64_exact lifetime age h p e))
  | inr e ↦ rw e
]

exact_ttl_bounds :
    (lifetime age : Duration)
    → (pos 0 ≤ℤ exact_ttl lifetime age) × (exact_ttl lifetime age ≤ℤ max_cache_ttl)
unfolding ◌-ℤ◌
exact_ttl_bounds lifetime age = ground arith

apparent_age-nonneg : (a b : Instant) → pos 0 ≤ℤ apparent_age_of a b
unfolding apparent_age_of
apparent_age-nonneg a b = ground arith

max_ℤ-nonneg : (a b : ℤ) → pos 0 ≤ℤ a → pos 0 ≤ℤ max_ℤ a b
max_ℤ-nonneg a b h = ground arith

module _ (p : Parsers) where
  parse_expires_lifetime-IsInt64 :
      (header : Text) (date response_time : Instant)
      → IsInt64 (parse_expires_lifetime p header date response_time)
  unfolding parse_expires_lifetime
  parse_expires_lifetime-IsInt64 header date response_time =
      elim (Option-cases (parse_date p header)) [
        | inl e ↦ rw (e, parse_expires_lifetime) (omega arith)
        | inr (expires, e) ↦ rw (e, parse_expires_lifetime) (ground arith)
      ]

  declared_lifetime-IsInt64 :
      (d : Directives) (h : Header) (date response_time : Instant)
      → IsInt64 (declared_lifetime p d h date response_time)
  unfolding declared_lifetime
  declared_lifetime-IsInt64 d h date response_time = ground (
    arith,
    seconds-IsInt64 d.s_max_age,
    seconds-IsInt64 d.max_age,
    parse_expires_lifetime-IsInt64 (get h Name.expires) date response_time,
  )

  freshness_lifetime_of-IsInt64 :
      (d : Option Directives) (h : Header) (date response_time : Instant)
      → IsInt64 (freshness_lifetime_of p d h date response_time)
  unfolding freshness_lifetime_of
  freshness_lifetime_of-IsInt64 none h date response_time =
      ground (arith, parse_expires_lifetime-IsInt64 (get h Name.expires) date response_time)
  freshness_lifetime_of-IsInt64 (some d) h date response_time =
      ground (arith, declared_lifetime-IsInt64 d h date response_time)

  module _ (clock : Instant) (code : ℕ) (request h : Header)
      (request_time response_time now : Instant) where
    abbrev info : FreshnessInfo
    info = calculate_freshness p clock code request h request_time response_time now

    initial_age-nonneg : pos 0 ≤ℤ info.corrected_initial_age
    unfolding calculate_freshness
    initial_age-nonneg =
        let date = date_or_zero p (get h Name.date) in
        max_ℤ-nonneg (apparent_age_of response_time date)
          (add_64 (parse_age (get h Name.age)) (elapsed response_time request_time))
          (apparent_age-nonneg response_time date)

    -- The initial age is never negative, and the TTL is the lifetime less that age, computed without
    -- overflow: 0 where the response is no fresher than it is old, and a year at most. It holds for
    -- every response, whatever its headers say.
    pub effective_ttl_exact :
        (pos 0 ≤ℤ info.corrected_initial_age)
        × (info.effective_ttl ≡ exact_ttl info.freshness_lifetime info.corrected_initial_age)
        × (pos 0 ≤ℤ info.effective_ttl)
        × (info.effective_ttl ≤ℤ max_cache_ttl)
    unfolding calculate_freshness
    effective_ttl_exact =
        let exact =
          ttl_of_exact info.freshness_lifetime info.corrected_initial_age
            (freshness_lifetime_of-IsInt64 (directives_of p h) h (date_or_zero p (get h Name.date))
              response_time)
            initial_age-nonneg in
        let bounds = exact_ttl_bounds info.freshness_lifetime info.corrected_initial_age in
        (initial_age-nonneg, exact, rw exact bounds.0, rw exact bounds.1)

-- ===== src/Freshness/Storable.antt =====
-- `isResponseCacheable` against the rules of RFC 9111 that it is written for.
use titip.Prelude.{
  ℕ, ◌≤◌, ◌<◌, ◌≡◌, ◌≢◌, ◌↔◌, ◌⊎◌, inl, inr, true, false, Option, none, some, [], arith,
  Option-cases, Bool-cases,
}
use titip.Prelude.Int.{pos, ◌≤ℤ◌}
use titip.Text.{contains, to_lower}
use titip.Http.{Header, get, is_empty}
use titip.Http.Name
use titip.Freshness.{Instant, Parsers, Directives, parse_date}
use titip.Freshness.Cacheable.{
  uncacheable_status, varies_on_all, has_future_expires, directives_allow, is_response_cacheable,
}

-- A status that a cache may store without understanding it.
abbrev pub HasStorableStatus : ℕ → Type 0
HasStorableStatus code =
    (200 ≤ code)
    × (code ≢ 205)
    × (code ≢ 206)
    × (code ≢ 303)
    × (code ≢ 304)
    × (code ≢ 401)
    × (code ≢ 407)
    × (code ≢ 421)
    × (code ≢ 426)

module _ (p : Parsers) (clock : Instant) where
  -- An Expires header with a date that is still to come.
  abbrev pub ExpiresLater : Header → Type 0
  ExpiresLater h =
      (get h Name.expires ≢ [])
      × (date : Instant) × (parse_date p (get h Name.expires) ≡ some date)
      × (0 < date)
      × (clock < date)

  -- What the directives must say, for a response to `request`.
  abbrev pub Permits : Header → Header → Option Directives → Type 0
  Permits request h none = (get request Name.authorization ≡ []) × ExpiresLater h
  Permits request h (some d) =
      (d.no_store ≡ false)
      × (d.private_present ≡ false)
      × (d.private ≡ [])
      × ((get request Name.authorization ≡ [])
          ⊎ (d.public ≡ true)
          ⊎ (pos 0 ≤ℤ d.s_max_age)
          ⊎ (d.must_revalidate ≡ true))
      × ((pos 0 ≤ℤ d.max_age)
          ⊎ (pos 0 ≤ℤ d.s_max_age)
          ⊎ (d.public ≡ true)
          ⊎ (d.no_cache_present ≡ true)
          ⊎ (d.no_cache ≢ [])
          ⊎ ExpiresLater h)

  -- When a response may be stored: nothing here mentions the order of the tests.
  pub record Storable (code : ℕ) (request h : Header) (d : Option Directives) : Type 0 where
    pub status : HasStorableStatus code
    pub no_cookie : get h Name.set_cookie ≡ []
    pub no_stream :
        contains Name.content_type_event_stream (to_lower (get h Name.content_type)) ≡ false
    pub no_star : varies_on_all h ≡ false
    pub permits : Permits request h d

  has_future_expires_sound : (h : Header) → has_future_expires p clock h ≡ true → ExpiresLater h
  unfolding has_future_expires is_empty
  has_future_expires_sound h e = elim (Option-cases (parse_date p (get h Name.expires))) [
    | inl n ↦ ground (arith, n)
    | inr (date, n) ↦ (ground (arith, n), date, n, ground (arith, n), ground (arith, n))
  ]

  has_future_expires_complete : (h : Header) → ExpiresLater h → has_future_expires p clock h ≡ true
  unfolding has_future_expires is_empty
  has_future_expires_complete h (some_date, date, n, pos_date, later) = ground (arith, n)

  directives_allow_sound :
      (request h : Header) (d : Option Directives)
      → directives_allow p clock request h d ≡ true
      → Permits request h d
  unfolding directives_allow is_empty
  directives_allow_sound request h none e =
      (ground arith, has_future_expires_sound h (ground arith))
  directives_allow_sound request h (some d) e = (
    ground arith,
    ground arith,
    ground arith,
    ground arith,
    elim (Bool-cases (has_future_expires p clock h)) [
      | inl later ↦ inr (inr (inr (inr (inr (has_future_expires_sound h later)))))
      | inr never ↦ ground (arith, never)
    ],
  )

  directives_allow_complete :
      (request h : Header) (d : Option Directives)
      → Permits request h d
      → directives_allow p clock request h d ≡ true
  unfolding directives_allow is_empty
  directives_allow_complete request h none (a, x) = ground (arith, has_future_expires_complete h x)
  directives_allow_complete request h (some d) (store, present, names, auth, inl m) = ground arith
  directives_allow_complete request h (some d) (store, present, names, auth, inr (inl m)) =
      ground arith
  directives_allow_complete request h (some d) (store, present, names, auth, inr (inr (inl m))) =
      ground arith
  directives_allow_complete request h (some d)
        (store, present, names, auth, inr (inr (inr (inl m)))) =
      ground arith
  directives_allow_complete request h (some d)
        (store, present, names, auth, inr (inr (inr (inr (inl m))))) =
      ground arith
  directives_allow_complete request h (some d)
        (store, present, names, auth, inr (inr (inr (inr (inr m))))) =
      ground (arith, has_future_expires_complete h m)

  uncacheable_status_lem :
      (code : ℕ) → 200 ≤ code → uncacheable_status code ≡ false → HasStorableStatus code
  unfolding uncacheable_status
  uncacheable_status_lem code h e = (
    h,
    ground arith,
    ground arith,
    ground arith,
    ground arith,
    ground arith,
    ground arith,
    ground arith,
    ground arith,
  )

  status_passes : (code : ℕ) → HasStorableStatus code → uncacheable_status code ≡ false
  unfolding uncacheable_status
  status_passes code s = ground arith

  cacheable_sound :
      (code : ℕ) (request h : Header) (d : Option Directives)
      → is_response_cacheable p clock code request h d ≡ true
      → Storable code request h d
  unfolding is_response_cacheable is_empty
  cacheable_sound code request h d e = record {
    status = uncacheable_status_lem code (ground arith) (ground arith);
    no_cookie = ground arith;
    no_stream = ground arith;
    no_star = ground arith;
    permits = directives_allow_sound request h d (ground arith);
  }

  cacheable_complete :
      (code : ℕ) (request h : Header) (d : Option Directives)
      → Storable code request h d
      → is_response_cacheable p clock code request h d ≡ true
  unfolding is_response_cacheable is_empty
  cacheable_complete code request h d s = ground (
    arith,
    status_passes code s.status,
    directives_allow_complete request h d s.permits,
    s.no_cookie,
    s.no_stream,
    s.no_star,
  )

  -- A response may be stored exactly when its status is storable, it sets no cookie, is no event
  -- stream and does not vary on everything, and: with no directives, the request carries no
  -- credentials and Expires lies ahead; else neither no-store nor private stands in them, credentials
  -- need public, s-maxage or must-revalidate, and max-age, s-maxage, public, no-cache or an Expires
  -- date ahead makes the freshness explicit.
  pub cacheable_iff :
      (code : ℕ) (request h : Header) (d : Option Directives)
      → (is_response_cacheable p clock code request h d ≡ true) ↔ Storable code request h d
  cacheable_iff code request h d =
      (cacheable_sound code request h d, cacheable_complete code request h d)

-- ===== src/Freshness/Tiers.antt =====
-- header.go and freshness.go: Titip-Cache-Control, CDN-Cache-Control (RFC 9213) and Cache-Control.
use titip.Prelude.{ℕ, ◌≡◌, refl, sym, ◌∙◌, false, Option, none, some, List, ◌∷◌}
use titip.Text.{Text, codes, join, ◌==ₜ◌}
use titip.Http.{Header, canonical_header_key, values, get, set, get_header_values, is_empty}
use titip.Http.Laws.{values-set}
use titip.Http.Name
use titip.Freshness.{Instant, Parsers, Directives, extract_tiered_cache_control}
use titip.Freshness.Lifetime.{expires_lifetime, declared_lifetime, freshness_lifetime_of}
use titip.Freshness.Cacheable.{
  varies_on_all, has_future_expires, directives_allow, is_response_cacheable,
}
use titip.Freshness.Calculate.{directives_of, calculate_freshness}

module _ (h : Header) (v : Text) where
  abbrev changed : Header
  changed = set h Name.cache_control v

  kept :
      (name : Text)
      → (canonical_header_key Name.cache_control ==ₜ canonical_header_key name) ≡ false
      → values changed name ≡ values h name
  kept name e = rw (values-set h Name.cache_control name v, e)

  get_kept :
      (name : Text)
      → (canonical_header_key Name.cache_control ==ₜ canonical_header_key name) ≡ false
      → get changed name ≡ get h name
  unfolding get
  get_kept name e = rw (kept name e, get)

  expires_kept : get changed Name.expires ≡ get h Name.expires
  unfolding canonical_header_key ◌==ₜ◌
  expires_kept = get_kept Name.expires refl

  date_kept : get changed Name.date ≡ get h Name.date
  unfolding canonical_header_key ◌==ₜ◌
  date_kept = get_kept Name.date refl

  age_kept : get changed Name.age ≡ get h Name.age
  unfolding canonical_header_key ◌==ₜ◌
  age_kept = get_kept Name.age refl

  cookie_kept : get changed Name.set_cookie ≡ get h Name.set_cookie
  unfolding canonical_header_key ◌==ₜ◌
  cookie_kept = get_kept Name.set_cookie refl

  type_kept : get changed Name.content_type ≡ get h Name.content_type
  unfolding canonical_header_key ◌==ₜ◌
  type_kept = get_kept Name.content_type refl

  vary_kept : values changed Name.vary ≡ values h Name.vary
  unfolding canonical_header_key ◌==ₜ◌
  vary_kept = kept Name.vary refl

  titip_kept : values changed Name.titip_cache_control ≡ values h Name.titip_cache_control
  unfolding canonical_header_key ◌==ₜ◌
  titip_kept = kept Name.titip_cache_control refl

  varies_kept : varies_on_all changed ≡ varies_on_all h
  unfolding varies_on_all
  varies_kept = rw vary_kept

tiered_of_titip :
    (h : Header) (v : Text) (vs : List Text)
    → values h Name.titip_cache_control ≡ v ∷ vs
    → extract_tiered_cache_control h ≡ join (codes ", ") (v ∷ vs)
unfolding extract_tiered_cache_control get_header_values is_empty
tiered_of_titip h v vs e = rw (e, extract_tiered_cache_control, get_header_values)

module _ (p : Parsers) (h : Header) (v t : Text) (ts : List Text)
    (titip : values h Name.titip_cache_control ≡ t ∷ ts) where
  tiered_kept : extract_tiered_cache_control (changed h v) ≡ extract_tiered_cache_control h
  tiered_kept =
      tiered_of_titip (changed h v) t ts (titip_kept h v ∙ titip)
      ∙ sym (tiered_of_titip h t ts titip)

  directives_kept : directives_of p (changed h v) ≡ directives_of p h
  unfolding directives_of
  directives_kept = rw (tiered_kept, directives_of)

  future_kept :
      (clock : Instant) → has_future_expires p clock (changed h v) ≡ has_future_expires p clock h
  unfolding has_future_expires
  future_kept clock = rw (expires_kept h v, has_future_expires)

  allow_kept :
      (clock : Instant) (request : Header) (d : Option Directives)
      → directives_allow p clock request (changed h v) d ≡ directives_allow p clock request h d
  unfolding directives_allow
  allow_kept clock request none = rw (future_kept clock, directives_allow)
  allow_kept clock request (some d) = rw (future_kept clock, directives_allow)

  cacheable_kept :
      (clock : Instant) (code : ℕ) (request : Header) (d : Option Directives)
      → is_response_cacheable p clock code request (changed h v) d
        ≡ is_response_cacheable p clock code request h d
  unfolding is_response_cacheable
  cacheable_kept clock code request d = rw (
    cookie_kept h v,
    type_kept h v,
    varies_kept h v,
    allow_kept clock request d,
    is_response_cacheable,
  )

  lifetime_kept :
      (d : Option Directives) (date response_time : Instant)
      → freshness_lifetime_of p d (changed h v) date response_time
        ≡ freshness_lifetime_of p d h date response_time
  unfolding freshness_lifetime_of
  lifetime_kept none date response_time =
      rw (expires_kept h v, freshness_lifetime_of, expires_lifetime)
  lifetime_kept (some d) date response_time =
      rw (expires_kept h v, freshness_lifetime_of, declared_lifetime, expires_lifetime)

  -- A response with a Titip-Cache-Control header is judged the same whatever its Cache-Control header
  -- says: every age, the TTL, the stale windows and whether it may be stored.
  pub tier_precedence :
      (clock : Instant) (code : ℕ) (request : Header) (request_time response_time now : Instant)
      → calculate_freshness p clock code request
          (set h Name.cache_control v)
          request_time
          response_time
          now
        ≡ calculate_freshness p clock code request h request_time response_time now
  unfolding calculate_freshness
  tier_precedence clock code request request_time response_time now = rw (
    directives_kept,
    date_kept h v,
    age_kept h v,
    lifetime_kept,
    cacheable_kept,
    calculate_freshness,
  )

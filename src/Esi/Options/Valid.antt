-- ===== src/Esi/Options/Valid.antt =====
-- esi/config.go: the settings that options can lead to.
use titip.Prelude.{
  ◌≡◌, refl, inl, inr, Bool, true, false, not, any, Option, none, some, List, [], ◌∷◌, ◌==◌,
  Option-cases,
}
use titip.Prelude.Int.{pos, leb_ℤ, ltb_ℤ}
use titip.Validated.{where_valid, not_set}
use titip.Esi.Options.{
  Settings, Processor, EsiOption, without_surrogate_control_requirement, with_allow_private_ips,
  with_allow_private_ips_for_allowed_hosts, without_forward_cookies, with_preserve_etag,
  with_internal_fetcher, with_max_depth, with_max_timeout, with_max_concurrent_requests,
  with_max_response_size, with_allowed_hosts, with_include_error_marker, with_logger, with_metrics,
  with_http_client, is_blank, apply_option, default_settings, apply_all, new_processor,
}

-- A processor goes at least one level deep, has time and a worker for a fragment, no negative limit on
-- sizes, and no blank host in its list.
pub record IsValid (c : Settings) : Type 0 where
  pub is_deep : (c.max_depth == 0) ≡ false
  pub has_time : ltb_ℤ (pos 0) c.max_timeout ≡ true
  pub has_worker : ltb_ℤ (pos 0) c.max_concurrent_requests ≡ true
  pub has_size : leb_ℤ (pos 0) c.max_response_size ≡ true
  pub has_hosts : any is_blank c.allowed_hosts ≡ false

-- No settings, or valid ones.
abbrev IsValidIfAny : Option Settings → Type 0
IsValidIfAny none = Unit
IsValidIfAny (some c) = IsValid c

-- No processor, or one with valid settings.
abbrev IsReadyIfAny : Option Processor → Type 0
IsReadyIfAny none = Unit
IsReadyIfAny (some p) = IsValid p.config

where_valid-IsValidIfAny :
    (b : Bool) (c : Settings) → (b ≡ true → IsValid c) → IsValidIfAny (where_valid b c)
where_valid-IsValidIfAny true c v = v refl
where_valid-IsValidIfAny false c v = tt

module _ (c : Settings) (v : IsValid c) where
  -- Settings that differ in no part that is restricted.
  alike :
      (d : Settings)
      → d.max_depth ≡ c.max_depth
      → d.max_timeout ≡ c.max_timeout
      → d.max_concurrent_requests ≡ c.max_concurrent_requests
      → d.max_response_size ≡ c.max_response_size
      → d.allowed_hosts ≡ c.allowed_hosts
      → IsValid d
  alike d a b e f g = record {
    is_deep = rw a v.is_deep;
    has_time = rw b v.has_time;
    has_worker = rw e v.has_worker;
    has_size = rw f v.has_size;
    has_hosts = rw g v.has_hosts;
  }

  option-IsValidIfAny : (o : EsiOption) → IsValidIfAny (apply_option c o)
  unfolding apply_option
  option-IsValidIfAny without_surrogate_control_requirement =
      alike (record c { require_surrogate_control = false }) refl refl refl refl refl
  option-IsValidIfAny with_allow_private_ips =
      alike (record c { allow_private_ips = true }) refl refl refl refl refl
  option-IsValidIfAny with_allow_private_ips_for_allowed_hosts =
      alike (record c { allow_private_ips_for_allowed_hosts = true }) refl refl refl refl refl
  option-IsValidIfAny without_forward_cookies =
      alike (record c { disable_forward_cookies = true }) refl refl refl refl refl
  option-IsValidIfAny with_preserve_etag =
      alike (record c { preserve_etag = true }) refl refl refl refl refl
  option-IsValidIfAny (with_internal_fetcher none) = tt
  option-IsValidIfAny (with_internal_fetcher (some f)) =
      alike (record c { internal_fetcher = some f }) refl refl refl refl refl
  option-IsValidIfAny (with_max_depth n) =
      where_valid-IsValidIfAny (not (n == 0)) (record c { max_depth = n })
        (λ e. record {
          is_deep = not_set (n == 0) e;
          has_time = v.has_time;
          has_worker = v.has_worker;
          has_size = v.has_size;
          has_hosts = v.has_hosts;
        })
  option-IsValidIfAny (with_max_timeout t) =
      where_valid-IsValidIfAny (ltb_ℤ (pos 0) t) (record c { max_timeout = t })
        (λ e. record {
          is_deep = v.is_deep;
          has_time = e;
          has_worker = v.has_worker;
          has_size = v.has_size;
          has_hosts = v.has_hosts;
        })
  option-IsValidIfAny (with_max_concurrent_requests n) =
      where_valid-IsValidIfAny (ltb_ℤ (pos 0) n) (record c { max_concurrent_requests = n })
        (λ e. record {
          is_deep = v.is_deep;
          has_time = v.has_time;
          has_worker = e;
          has_size = v.has_size;
          has_hosts = v.has_hosts;
        })
  option-IsValidIfAny (with_allowed_hosts hosts) =
      where_valid-IsValidIfAny (not (any is_blank hosts)) (record c { allowed_hosts = hosts })
        (λ e. record {
          is_deep = v.is_deep;
          has_time = v.has_time;
          has_worker = v.has_worker;
          has_size = v.has_size;
          has_hosts = not_set (any is_blank hosts) e;
        })
  option-IsValidIfAny (with_max_response_size n) =
      where_valid-IsValidIfAny (leb_ℤ (pos 0) n) (record c { max_response_size = n })
        (λ e. record {
          is_deep = v.is_deep;
          has_time = v.has_time;
          has_worker = v.has_worker;
          has_size = e;
          has_hosts = v.has_hosts;
        })
  option-IsValidIfAny (with_include_error_marker m) =
      alike (record c { include_error_marker = m }) refl refl refl refl refl
  option-IsValidIfAny (with_logger given) = where_valid-IsValidIfAny given c (λ e. v)
  option-IsValidIfAny (with_metrics given) = where_valid-IsValidIfAny given c (λ e. v)
  option-IsValidIfAny (with_http_client given) =
      where_valid-IsValidIfAny given (record c { has_client = true })
        (λ e. alike (record c { has_client = true }) refl refl refl refl refl)

all-IsValidIfAny :
    (c : Settings) (os : List (Option EsiOption)) → IsValid c → IsValidIfAny (apply_all c os)
unfolding apply_all
all-IsValidIfAny c [] v = v
all-IsValidIfAny c (none ∷ os) v = tt
all-IsValidIfAny c (some o ∷ os) v = elim (Option-cases (apply_option c o)) [
  | inl e ↦ rw (e, apply_all) tt
  | inr (d, e) ↦ rw (e, apply_all) (all-IsValidIfAny d os (rw e at (option-IsValidIfAny c v o)))
]

default-IsValid : IsValid default_settings
default-IsValid = record {
  is_deep = refl;
  has_time = refl;
  has_worker = refl;
  has_size = refl;
  has_hosts = refl;
}

-- Every list of options on which a processor is made, in any order and with any repeats, leads to valid
-- settings: a depth, a timeout and a number of workers above 0, a size limit of 0 or more, and no blank
-- host.
pub new_processor-IsValid :
    (os : List (Option EsiOption)) (p : Processor) → new_processor os ≡ some p → IsValid p.config
unfolding new_processor
new_processor-IsValid os p e = rw e at ready
  where
    ready : IsReadyIfAny (new_processor os)
    ready = elim (Option-cases (apply_all default_settings os)) [
      | inl none_left ↦ rw (none_left, new_processor) tt
      | inr (c, found) ↦
          rw (found, new_processor)
            (rw found at (all-IsValidIfAny default_settings os default-IsValid))
    ]

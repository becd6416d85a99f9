-- ===== src/Esi/Options.antt =====
-- esi/config.go: the options of the ESI processor, and what `NewProcessor` makes of them. A logger, a
-- registerer and a client stand for whether one is given.
pub mod Valid
pub mod Guards
use titip.Prelude.{
  ℕ, ◌*◌, Bool, true, false, not, any, Option, none, some, List, [], ◌∷◌, ◌==◌, if◌then◌else◌,
}
use titip.Prelude.Int.{ℤ, pos, leb_ℤ, ltb_ℤ}
use titip.Text.{Text, trim_space}
use titip.Http.{is_empty}
use titip.Freshness.{second}
use titip.Validated.{where_valid}
use titip.Key.{Request}
use titip.Esi.Fetch.{State, InternalReply}
use titip.Esi.Guard.{Ip, SsrfConfig, dials}

-- `InternalFetcherFunc`
abbrev pub Fetcher : Type 0
Fetcher = Text → Request → State → InternalReply

-- `config`
pub record Settings : Type 0 where
  pub require_surrogate_control : Bool
  pub internal_fetcher : Option Fetcher
  pub max_depth : ℕ
  pub max_timeout : ℤ
  pub max_concurrent_requests : ℤ
  pub allow_private_ips : Bool
  pub allowed_hosts : List Text
  pub allow_private_ips_for_allowed_hosts : Bool
  pub max_response_size : ℤ
  pub disable_forward_cookies : Bool
  pub preserve_etag : Bool
  pub include_error_marker : Text
  pub has_client : Bool

pub data EsiOption : Type 0 where
  without_surrogate_control_requirement with_allow_private_ips : EsiOption
  with_allow_private_ips_for_allowed_hosts without_forward_cookies with_preserve_etag : EsiOption
  with_internal_fetcher : Option Fetcher → EsiOption
  with_max_depth : ℕ → EsiOption
  with_max_timeout with_max_concurrent_requests with_max_response_size : ℤ → EsiOption
  with_allowed_hosts : List Text → EsiOption
  with_include_error_marker : Text → EsiOption
  with_logger with_metrics with_http_client : Bool → EsiOption

-- A text of white space alone.
abbrev pub is_blank : Text → Bool
is_blank t = is_empty (trim_space t)

unfoldable pub apply_option : Settings → EsiOption → Option Settings
apply_option c without_surrogate_control_requirement =
    some (record c { require_surrogate_control = false })
apply_option c with_allow_private_ips = some (record c { allow_private_ips = true })
apply_option c with_allow_private_ips_for_allowed_hosts =
    some (record c { allow_private_ips_for_allowed_hosts = true })
apply_option c without_forward_cookies = some (record c { disable_forward_cookies = true })
apply_option c with_preserve_etag = some (record c { preserve_etag = true })
apply_option c (with_internal_fetcher none) = none
apply_option c (with_internal_fetcher (some f)) = some (record c { internal_fetcher = some f })
apply_option c (with_max_depth n) = where_valid (not (n == 0)) (record c { max_depth = n })
apply_option c (with_max_timeout t) = where_valid (ltb_ℤ (pos 0) t) (record c { max_timeout = t })
apply_option c (with_max_concurrent_requests n) =
    where_valid (ltb_ℤ (pos 0) n) (record c { max_concurrent_requests = n })
apply_option c (with_allowed_hosts hosts) =
    where_valid (not (any is_blank hosts)) (record c { allowed_hosts = hosts })
apply_option c (with_max_response_size n) =
    where_valid (leb_ℤ (pos 0) n) (record c { max_response_size = n })
apply_option c (with_include_error_marker m) = some (record c { include_error_marker = m })
apply_option c (with_logger given) = where_valid given c
apply_option c (with_metrics given) = where_valid given c
apply_option c (with_http_client given) = where_valid given (record c { has_client = true })

abbrev pub default_settings : Settings
default_settings = record {
  require_surrogate_control = true;
  internal_fetcher = none;
  max_depth = 3;
  max_timeout = pos (30 * second);
  max_concurrent_requests = pos 8;
  allow_private_ips = false;
  allowed_hosts = [];
  allow_private_ips_for_allowed_hosts = false;
  max_response_size = pos (10 * 1024 * 1024);
  disable_forward_cookies = false;
  preserve_etag = false;
  include_error_marker = [];
  has_client = false;
}

-- The options one after the other; an option that is nil is an error.
unfoldable pub apply_all : Settings → List (Option EsiOption) → Option Settings
unfolding apply_option
apply_all c [] = some c
apply_all c (none ∷ os) = none
apply_all c (some o ∷ os) = elim (apply_option c o) [ none ↦ none | some d ↦ apply_all d os ]

-- The guard of the client that a processor without one of its own gets.
abbrev pub ssrf_of : Settings → SsrfConfig
ssrf_of c = record {
  block_private_ips = not c.allow_private_ips;
  allowed_hosts = c.allowed_hosts;
  allow_private_ips_for_allowed_hosts = c.allow_private_ips_for_allowed_hosts;
}

-- The settings, and the guard of the client unless the caller gave one.
pub record Processor : Type 0 where
  pub config : Settings
  pub guard : Option SsrfConfig

abbrev pub processor_of : Settings → Processor
processor_of c = record { config = c; guard = if c.has_client then none else some (ssrf_of c) }

-- Does the processor's own client connect? `none` where the caller's client is used.
abbrev pub connects : Processor → Text → Option Ip → Option Bool
connects p addr resolved = elim p.guard [ none ↦ none | some g ↦ some (dials g addr resolved) ]

-- `NewProcessor`
unfoldable pub new_processor : List (Option EsiOption) → Option Processor
unfolding apply_all
new_processor os = elim (apply_all default_settings os) [
  | none ↦ none
  | some c ↦ some (processor_of c)
]

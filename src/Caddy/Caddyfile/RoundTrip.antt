-- ===== src/Caddy/Caddyfile/RoundTrip.antt =====
-- adapter/caddy/caddy.go: a block of ESI is read back as it was written.
use titip.Prelude.{ℕ, zero, suc, ◌<◌, ◌≡◌, refl, ◌∙◌, Bool, Option, none, some, List, [], length}
use mathlib.Core.List.{append-nil}
use titip.Prelude.Int.{ℤ}
use titip.Text.{Text, codes, ◌==ₜ◌}
use titip.Text.Decimal.{itoa}
use titip.Freshness.{parse_int}
use titip.Caddy.{EsiRules}
use titip.Caddy.Caddyfile.{Dispenser, ended, parse_uint_32, empty_esi, switch, block}
use titip.Caddy.Caddyfile.Directives.{esi_cases}
use titip.Caddy.Caddyfile.Turns.{
  Turns, text_reads, list_reads, parsed_reads, flag_reads, Turns-append, flag-Turns, depth-Turns,
  count-Turns, text-Turns, list-Turns,
}
use titip.Caddy.Caddyfile.Lines.{
  FitsCount, FitsDepth, Line, Presents, count_line, count_text, depth_line, esi_lines, flag_line,
  list_line, parse_int-count, parse_uint_32-itoa, text_line,
}

module _ {X : Type 0} (d : Dispenser X) (on : List Text → List Line → X) (after : X)
    (law : Presents d on after) where
  module _ (e : EsiRules) (fits_depth : FitsDepth e.max_depth)
      (fits_count : FitsCount e.max_concurrent_requests) where
    abbrev enabled_set : Option Bool → EsiRules
    enabled_set v = record empty_esi { enabled = v }

    enabled-Turns :
        Turns d on after law
          (enabled_set none)
          (flag_line (codes "enabled") e.enabled)
          (enabled_set e.enabled)
    unfolding switch ◌==ₜ◌
    enabled-Turns =
        flag-Turns d on after law (codes "enabled") e.enabled enabled_set
          (flag_reads d on after law (λ c. enabled_set (some c)))

    abbrev require_surrogate_control_set : Option Bool → EsiRules
    require_surrogate_control_set v = record (enabled_set e.enabled) {
      require_surrogate_control = v;
    }

    require_surrogate_control-Turns :
        Turns d on after law
          (require_surrogate_control_set none)
          (flag_line (codes "require_surrogate_control") e.require_surrogate_control)
          (require_surrogate_control_set e.require_surrogate_control)
    unfolding switch ◌==ₜ◌
    require_surrogate_control-Turns =
        flag-Turns d on after law (codes "require_surrogate_control") e.require_surrogate_control
          require_surrogate_control_set
          (flag_reads d on after law (λ c. require_surrogate_control_set (some c)))

    abbrev max_depth_set : Option ℕ → EsiRules
    max_depth_set v = record (require_surrogate_control_set e.require_surrogate_control) {
      max_depth = v;
    }

    max_depth-Turns :
        Turns d on after law
          (max_depth_set none)
          (depth_line (codes "max_depth") e.max_depth)
          (max_depth_set e.max_depth)
    unfolding switch ◌==ₜ◌
    max_depth-Turns =
        depth-Turns d on after law (codes "max_depth") e.max_depth max_depth_set
          (λ n ls less.
            parsed_reads d on after law parse_uint_32 (λ c. max_depth_set (some c)) (itoa n) n ls
              (parse_uint_32-itoa n less))
          fits_depth

    abbrev max_timeout_set : Text → EsiRules
    max_timeout_set v = record (max_depth_set e.max_depth) { max_timeout = v }

    max_timeout-Turns :
        Turns d on after law
          (max_timeout_set [])
          (text_line (codes "max_timeout") e.max_timeout)
          (max_timeout_set e.max_timeout)
    unfolding switch ◌==ₜ◌
    max_timeout-Turns =
        text-Turns d on after law (codes "max_timeout") e.max_timeout max_timeout_set
          (text_reads d on after law max_timeout_set)

    abbrev max_concurrent_requests_set : Option ℤ → EsiRules
    max_concurrent_requests_set v = record (max_timeout_set e.max_timeout) {
      max_concurrent_requests = v;
    }

    max_concurrent_requests-Turns :
        Turns d on after law
          (max_concurrent_requests_set none)
          (count_line (codes "max_concurrent_requests") e.max_concurrent_requests)
          (max_concurrent_requests_set e.max_concurrent_requests)
    unfolding switch ◌==ₜ◌
    max_concurrent_requests-Turns =
        count-Turns d on after law (codes "max_concurrent_requests") e.max_concurrent_requests
          max_concurrent_requests_set
          (λ n ls less.
            parsed_reads d on after law parse_int (λ c. max_concurrent_requests_set (some c))
              (count_text n) n ls (parse_int-count n less))
          fits_count

    abbrev block_private_ips_set : Option Bool → EsiRules
    block_private_ips_set v = record (max_concurrent_requests_set e.max_concurrent_requests) {
      block_private_ips = v;
    }

    block_private_ips-Turns :
        Turns d on after law
          (block_private_ips_set none)
          (flag_line (codes "block_private_ips") e.block_private_ips)
          (block_private_ips_set e.block_private_ips)
    unfolding switch ◌==ₜ◌
    block_private_ips-Turns =
        flag-Turns d on after law (codes "block_private_ips") e.block_private_ips
          block_private_ips_set (flag_reads d on after law (λ c. block_private_ips_set (some c)))

    abbrev allowed_hosts_set : List Text → EsiRules
    allowed_hosts_set v = record (block_private_ips_set e.block_private_ips) { allowed_hosts = v }

    allowed_hosts-Turns :
        Turns d on after law
          (allowed_hosts_set [])
          (list_line (codes "allowed_hosts") e.allowed_hosts)
          (allowed_hosts_set e.allowed_hosts)
    unfolding switch ◌==ₜ◌
    allowed_hosts-Turns =
        list-Turns d on after law (codes "allowed_hosts") e.allowed_hosts allowed_hosts_set
          (list_reads d on after law allowed_hosts_set)

    abbrev allow_private_ips_for_allowed_hosts_set : Option Bool → EsiRules
    allow_private_ips_for_allowed_hosts_set v = record (allowed_hosts_set e.allowed_hosts) {
      allow_private_ips_for_allowed_hosts = v;
    }

    allow_private_ips_for_allowed_hosts-Turns :
        Turns d on after law
          (allow_private_ips_for_allowed_hosts_set none)
          (flag_line
            (codes "allow_private_ips_for_allowed_hosts")
            e.allow_private_ips_for_allowed_hosts)
          (allow_private_ips_for_allowed_hosts_set e.allow_private_ips_for_allowed_hosts)
    unfolding switch ◌==ₜ◌
    allow_private_ips_for_allowed_hosts-Turns =
        flag-Turns d on after law (codes "allow_private_ips_for_allowed_hosts")
          e.allow_private_ips_for_allowed_hosts allow_private_ips_for_allowed_hosts_set
          (flag_reads d on after law (λ c. allow_private_ips_for_allowed_hosts_set (some c)))

    abbrev max_response_size_set : Text → EsiRules
    max_response_size_set v =
        record (allow_private_ips_for_allowed_hosts_set e.allow_private_ips_for_allowed_hosts) {
          max_response_size = v;
        }

    max_response_size-Turns :
        Turns d on after law
          (max_response_size_set [])
          (text_line (codes "max_response_size") e.max_response_size)
          (max_response_size_set e.max_response_size)
    unfolding switch ◌==ₜ◌
    max_response_size-Turns =
        text-Turns d on after law (codes "max_response_size") e.max_response_size
          max_response_size_set (text_reads d on after law max_response_size_set)

    abbrev forward_fragment_cookies_set : Option Bool → EsiRules
    forward_fragment_cookies_set v = record (max_response_size_set e.max_response_size) {
      forward_fragment_cookies = v;
    }

    forward_fragment_cookies-Turns :
        Turns d on after law
          (forward_fragment_cookies_set none)
          (flag_line (codes "forward_fragment_cookies") e.forward_fragment_cookies)
          (forward_fragment_cookies_set e.forward_fragment_cookies)
    unfolding switch ◌==ₜ◌
    forward_fragment_cookies-Turns =
        flag-Turns d on after law (codes "forward_fragment_cookies") e.forward_fragment_cookies
          forward_fragment_cookies_set
          (flag_reads d on after law (λ c. forward_fragment_cookies_set (some c)))

    abbrev preserve_etag_set : Option Bool → EsiRules
    preserve_etag_set v = record (forward_fragment_cookies_set e.forward_fragment_cookies) {
      preserve_etag = v;
    }

    preserve_etag-Turns :
        Turns d on after law
          (preserve_etag_set none)
          (flag_line (codes "preserve_etag") e.preserve_etag)
          (preserve_etag_set e.preserve_etag)
    unfolding switch ◌==ₜ◌
    preserve_etag-Turns =
        flag-Turns d on after law (codes "preserve_etag") e.preserve_etag preserve_etag_set
          (flag_reads d on after law (λ c. preserve_etag_set (some c)))

    abbrev error_marker_set : Text → EsiRules
    error_marker_set v = record (preserve_etag_set e.preserve_etag) { error_marker = v }

    error_marker-Turns :
        Turns d on after law
          (error_marker_set [])
          (text_line (codes "error_marker") e.error_marker)
          (error_marker_set e.error_marker)
    unfolding switch ◌==ₜ◌
    error_marker-Turns =
        text-Turns d on after law (codes "error_marker") e.error_marker error_marker_set
          (text_reads d on after law error_marker_set)

    lines-Turns : Turns d on after law empty_esi (esi_lines e) e
    lines-Turns = Turns-append d on after law _ _ _ _ _ enabled-Turns (
        Turns-append d on after law _ _ _ _ _ require_surrogate_control-Turns (
          Turns-append d on after law _ _ _ _ _ max_depth-Turns (
            Turns-append d on after law _ _ _ _ _ max_timeout-Turns (
              Turns-append d on after law _ _ _ _ _ max_concurrent_requests-Turns (
                Turns-append d on after law _ _ _ _ _ block_private_ips-Turns (
                  Turns-append d on after law _ _ _ _ _ allowed_hosts-Turns (
                    Turns-append d on after law _ _ _ _ _ allow_private_ips_for_allowed_hosts-Turns
                      (Turns-append d on after law _ _ _ _ _ max_response_size-Turns (
                        Turns-append d on after law _ _ _ _ _ forward_fragment_cookies-Turns (
                          Turns-append d on after law _ _ _ _ _ preserve_etag-Turns
                            (error_marker-Turns)))))))))))

    finishes : (f : ℕ) → 0 < f → block d (esi_cases d) 1 f e (on [] []) ≡ ended (e, after)
    unfolding block
    finishes zero h = elim h [ ]
    finishes (suc f) h = rw (law.closes, law.closes_at, block) refl

    -- A block of ESI that says what the rules are, a line for each setting that is set, is read back as those
    -- rules, on any fuel above the number of its lines, where the depth and the number of requests are ones
    -- that their types hold. The dispenser presents the lines and their arguments in order.
    pub block-esi_lines :
        (fuel : ℕ)
        → length (esi_lines e) < fuel
        → block d (esi_cases d) 1 fuel empty_esi (on [] (esi_lines e)) ≡ ended (e, after)
    block-esi_lines fuel h =
        let (g, less, read) = lines-Turns [] fuel (rw (append-nil (esi_lines e)) h) in
        rw (append-nil (esi_lines e)) at read ∙ finishes g less

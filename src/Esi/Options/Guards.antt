-- ===== src/Esi/Options/Guards.antt =====
-- esi/config.go, esi/ssrf.go: a processor that nothing has opened calls no private address.
use titip.Prelude.{
  ◌≡◌, refl, inl, inr, Bool, true, false, not, any, Option, none, some, List, [], ◌∷◌, ◌==◌,
  Option-cases, ◌&&◌, ◌||◌, Bool-cases,
}
use titip.Prelude.Int.{pos, leb_ℤ, ltb_ℤ}
use titip.Text.{Text}
use titip.Http.{is_empty}
use titip.Esi.Guard.{Ip, SsrfConfig, is_ip_blocked, match_host, split_host_port, control, dials}
use titip.Validated.{where_valid}
use titip.Esi.Options.{
  Settings, Processor, EsiOption, without_surrogate_control_requirement, with_allow_private_ips,
  with_allow_private_ips_for_allowed_hosts, without_forward_cookies, with_preserve_etag,
  with_internal_fetcher, with_max_depth, with_max_timeout, with_max_concurrent_requests,
  with_max_response_size, with_allowed_hosts, with_include_error_marker, with_logger, with_metrics,
  with_http_client, is_blank, apply_option, default_settings, ssrf_of, processor_of, connects,
  apply_all, new_processor,
}

-- The options that let private addresses in, or put the caller's client in place of the guarded one.
abbrev pub opens : Option EsiOption → Bool
opens (some with_allow_private_ips) = true
opens (some with_allow_private_ips_for_allowed_hosts) = true
opens (some (with_http_client given)) = true
opens o = false

-- Settings that let no private address in.
record IsClosed (c : Settings) : Type 0 where
  private_ips : c.allow_private_ips ≡ false
  private_hosts : c.allow_private_ips_for_allowed_hosts ≡ false
  client : c.has_client ≡ false

abbrev IsClosedIfAny : Option Settings → Type 0
IsClosedIfAny none = Unit
IsClosedIfAny (some c) = IsClosed c

where_valid-IsClosedIfAny : (b : Bool) (c : Settings) → IsClosed c → IsClosedIfAny (where_valid b c)
where_valid-IsClosedIfAny true c v = v
where_valid-IsClosedIfAny false c v = tt

module _ (c : Settings) (v : IsClosed c) where
  -- Settings with the same three switches.
  alike :
      (d : Settings)
      → d.allow_private_ips ≡ c.allow_private_ips
      → d.allow_private_ips_for_allowed_hosts ≡ c.allow_private_ips_for_allowed_hosts
      → d.has_client ≡ c.has_client
      → IsClosed d
  alike d a b e = record {
    private_ips = rw a v.private_ips;
    private_hosts = rw b v.private_hosts;
    client = rw e v.client;
  }

  option-IsClosedIfAny : (o : EsiOption) → opens (some o) ≡ false → IsClosedIfAny (apply_option c o)
  unfolding apply_option
  option-IsClosedIfAny without_surrogate_control_requirement e =
      alike (record c { require_surrogate_control = false }) refl refl refl
  option-IsClosedIfAny with_allow_private_ips e = cc
  option-IsClosedIfAny with_allow_private_ips_for_allowed_hosts e = cc
  option-IsClosedIfAny without_forward_cookies e =
      alike (record c { disable_forward_cookies = true }) refl refl refl
  option-IsClosedIfAny with_preserve_etag e =
      alike (record c { preserve_etag = true }) refl refl refl
  option-IsClosedIfAny (with_internal_fetcher none) e = tt
  option-IsClosedIfAny (with_internal_fetcher (some f)) e =
      alike (record c { internal_fetcher = some f }) refl refl refl
  option-IsClosedIfAny (with_max_depth n) e =
      where_valid-IsClosedIfAny (not (n == 0)) (record c { max_depth = n })
        (alike (record c { max_depth = n }) refl refl refl)
  option-IsClosedIfAny (with_max_timeout t) e =
      where_valid-IsClosedIfAny (ltb_ℤ (pos 0) t) (record c { max_timeout = t })
        (alike (record c { max_timeout = t }) refl refl refl)
  option-IsClosedIfAny (with_max_concurrent_requests n) e =
      where_valid-IsClosedIfAny (ltb_ℤ (pos 0) n) (record c { max_concurrent_requests = n })
        (alike (record c { max_concurrent_requests = n }) refl refl refl)
  option-IsClosedIfAny (with_allowed_hosts hosts) e =
      where_valid-IsClosedIfAny (not (any is_blank hosts)) (record c { allowed_hosts = hosts })
        (alike (record c { allowed_hosts = hosts }) refl refl refl)
  option-IsClosedIfAny (with_max_response_size n) e =
      where_valid-IsClosedIfAny (leb_ℤ (pos 0) n) (record c { max_response_size = n })
        (alike (record c { max_response_size = n }) refl refl refl)
  option-IsClosedIfAny (with_include_error_marker m) e =
      alike (record c { include_error_marker = m }) refl refl refl
  option-IsClosedIfAny (with_logger given) e = where_valid-IsClosedIfAny given c v
  option-IsClosedIfAny (with_metrics given) e = where_valid-IsClosedIfAny given c v
  option-IsClosedIfAny (with_http_client given) e = cc

right_of : (a b : Bool) → (a || b) ≡ false → b ≡ false
right_of true b e = cc
right_of false b e = e

left_of : (a b : Bool) → (a || b) ≡ false → a ≡ false
left_of true b e = e
left_of false b e = refl

all-IsClosedIfAny :
    (c : Settings) (os : List (Option EsiOption))
    → any opens os ≡ false
    → IsClosed c
    → IsClosedIfAny (apply_all c os)
unfolding apply_all
all-IsClosedIfAny c [] free v = v
all-IsClosedIfAny c (none ∷ os) free v = tt
all-IsClosedIfAny c (some o ∷ os) free v = elim (Option-cases (apply_option c o)) [
  | inl e ↦ rw (e, apply_all) tt
  | inr (d, e) ↦
      rw (e, apply_all)
        (all-IsClosedIfAny d os (right_of (opens (some o)) (any opens os) free)
          (rw e at (option-IsClosedIfAny c v o (left_of (opens (some o)) (any opens os) free))))
]

and_false : (b : Bool) → (b && false) ≡ false
and_false true = refl
and_false false = refl

-- Neither the list of hosts nor an address outside it changes what a closed guard says.
closed-dials :
    (g : SsrfConfig)
    → g.block_private_ips ≡ true
    → g.allow_private_ips_for_allowed_hosts ≡ false
    → (addr : Text) (ip : Ip) → is_ip_blocked ip ≡ true
    → dials g addr (some ip) ≡ false
unfolding dials control
closed-dials g blocks no_hosts addr ip bad = elim (Option-cases (split_host_port addr)) [
  | inl e ↦ rw (e, dials) refl
  | inr (host, e) ↦ elim (Bool-cases (is_empty g.allowed_hosts)) [
    | inl e1 ↦ rw (e, e1, blocks, bad, dials, control) refl
    | inr e1 ↦
        rw (e, e1, blocks, no_hosts, bad, dials, control)
          (and_false (match_host host g.allowed_hosts))
  ]
]

-- A client of its own, which does not connect to the address.
abbrev IsGuarded : Text → Ip → Option Processor → Type 0
IsGuarded addr ip none = Unit
IsGuarded addr ip (some p) = connects p addr (some ip) ≡ some false

default-IsClosed : IsClosed default_settings
default-IsClosed = record { private_ips = refl; private_hosts = refl; client = refl }

module _ (addr : Text) (ip : Ip) (bad : is_ip_blocked ip ≡ true) where
  closed-IsGuarded :
      (c : Settings) → IsClosed c → connects (processor_of c) addr (some ip) ≡ some false
  closed-IsGuarded c v =
      rw (v.client, closed-dials (ssrf_of c) (rw v.private_ips refl) v.private_hosts addr ip bad)
        refl

  -- A processor made of any options but the two that let private addresses in and the one that sets a
  -- client has a client of its own, and that client connects to no address that is blocked, whatever
  -- the host that led to it and whatever hosts the options list.
  pub new_processor-IsGuarded :
      (os : List (Option EsiOption)) (p : Processor)
      → any opens os ≡ false
      → new_processor os ≡ some p
      → connects p addr (some ip) ≡ some false
  unfolding new_processor
  new_processor-IsGuarded os p free e = rw e at guarded
    where
      guarded : IsGuarded addr ip (new_processor os)
      guarded = elim (Option-cases (apply_all default_settings os)) [
        | inl none_left ↦ rw (none_left, new_processor) tt
        | inr (c, found) ↦
            rw (found, new_processor)
              (closed-IsGuarded c
                (rw found at (all-IsClosedIfAny default_settings os free default-IsClosed)))
      ]

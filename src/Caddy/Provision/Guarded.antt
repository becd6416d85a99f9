-- ===== src/Caddy/Provision/Guarded.antt =====
-- adapter/caddy/caddy.go: a processor that neither the app nor the route opens calls no private address.
use titip.Prelude.{
  ◌≡◌, refl, sym, subst, ◌∙◌, inl, inr, Bool, true, false, any, Option, none, some, List, [], ◌∷◌,
  map, Option-cases, Bool-cases, arith,
}
use titip.Text.{Text}
use titip.Key.{CacheKey}
use titip.Options.{Codecs, TitipConfig, Titip, processor_options, with_processor}
use titip.Esi.Guard.{Ip, is_ip_blocked}
use titip.Esi.Options.{
  EsiOption, Processor, connects, new_processor, without_surrogate_control_requirement,
  with_allow_private_ips, with_allow_private_ips_for_allowed_hosts, without_forward_cookies,
  with_preserve_etag, with_internal_fetcher, with_max_depth, with_max_timeout,
  with_max_concurrent_requests, with_max_response_size, with_include_error_marker,
}
use titip.Esi.Options.Guards.{opens, new_processor-IsGuarded}
use titip.Caddy.Provision.Sets.{timing_by, timing_set}
use titip.Caddy.{coalesce, TimingRules, EsiRules, App, Handler, Host}
use titip.Caddy.Provision.{
  to_int64, esi_parts, apply_esi_config, esi_options, provision, Provisioned,
}
use titip.Caddy.Provision.Runs.{new_titip-config}
use titip.Caddy.Provision.Precedence.{provision_did, provision-merged, esi_by, esi_behind}
use titip.Caddy.Provision.Shut.{
  says, opens_private, IsShutIfAny, collect-IsShut, when-IsShut, opt-IsShut, parsed-IsShut,
  hosts-IsShut, blank-IsShut, neither,
}

module _ {S : Type 0} (host : Host S) where
  rules-IsShut :
      (r : Option EsiRules) → opens_private r ≡ false → IsShutIfAny (apply_esi_config host r)
  unfolding apply_esi_config
  rules-IsShut none e = refl
  rules-IsShut (some r) e =
      let (ips, hosts) =
        neither (says r.block_private_ips false) (says r.allow_private_ips_for_allowed_hosts true)
          e in
      collect-IsShut (esi_parts host r) (
        when-IsShut r.require_surrogate_control false without_surrogate_control_requirement
            (inr refl),
        (
          opt-IsShut r.max_depth with_max_depth (λ n. refl),
          (
            parsed-IsShut host.parse_duration r.max_timeout with_max_timeout (λ n. refl),
            (
              opt-IsShut r.max_concurrent_requests with_max_concurrent_requests (λ n. refl),
              (
                when-IsShut r.block_private_ips false with_allow_private_ips (inl ips),
                (
                  hosts-IsShut r.allowed_hosts,
                  (
                    when-IsShut r.allow_private_ips_for_allowed_hosts true
                        with_allow_private_ips_for_allowed_hosts (inl hosts),
                    (
                      parsed-IsShut host.parse_bytes r.max_response_size
                          (λ n. with_max_response_size (to_int64 n)) (λ n. refl),
                      (
                        when-IsShut r.forward_fragment_cookies false without_forward_cookies
                            (inr refl),
                        (
                          when-IsShut r.preserve_etag true with_preserve_etag (inr refl),
                          (
                            blank-IsShut r.error_marker (with_include_error_marker r.error_marker)
                                refl,
                            tt,
                          ),
                        ),
                      ),
                    ),
                  ),
                ),
              ),
            ),
          ),
        ),
      )

  given-IsShut :
      (a r : Option EsiRules)
      → opens_private a ≡ false
      → opens_private r ≡ false
      → IsShutIfAny (esi_options host a r)
  unfolding esi_options
  given-IsShut a r e f =
      collect-IsShut
        (apply_esi_config host a
          ∷ apply_esi_config host r
          ∷ some (with_internal_fetcher (some host.fetcher) ∷ [])
          ∷ [])
        (rules-IsShut a e, (rules-IsShut r f, (refl, tt)))

  -- The options that a configuration holds open nothing.
  abbrev HoldsShut : Option (List (Option EsiOption)) → Type 0
  HoldsShut none = Unit
  HoldsShut (some os) = any opens os ≡ false

  behind-HoldsShut :
      (x : Option (List EsiOption)) → IsShutIfAny x → HoldsShut (esi_behind host none x)
  behind-HoldsShut none e = tt
  behind-HoldsShut (some os) e = e

  by-HoldsShut :
      (a r : Option EsiRules)
      → opens_private a ≡ false
      → opens_private r ≡ false
      → HoldsShut (esi_by host a r none)
  by-HoldsShut none none e f = tt
  by-HoldsShut (some a) r e f =
      behind-HoldsShut (esi_options host (some a) r) (given-IsShut (some a) r e f)
  by-HoldsShut none (some r) e f =
      behind-HoldsShut (esi_options host none (some r)) (given-IsShut none (some r) e f)

  set-HoldsShut :
      (b : Bool) (name value : Text) (c : TitipConfig)
      → HoldsShut c.esi_options
      → HoldsShut (timing_set b name value c).esi_options
  set-HoldsShut false name value c e = e
  set-HoldsShut true [] value c e = e
  set-HoldsShut true (x ∷ name) value c e = e

  timing-HoldsShut :
      (t : Option TimingRules) (c : TitipConfig)
      → HoldsShut c.esi_options
      → HoldsShut (timing_by t c).esi_options
  timing-HoldsShut none c e = e
  timing-HoldsShut (some t) c e =
      set-HoldsShut (elim t.enabled [ none ↦ true | some b ↦ b ]) t.cookie_name t.cookie_value c e

  all_shut :
      (c : TitipConfig) (os : List (Option EsiOption))
      → any opens os ≡ false
      → any opens (processor_options c os) ≡ false
  all_shut c os e = elim (Bool-cases c.has_metrics) [ inl m ↦ rw m e | inr m ↦ rw m e ]

  same_processor :
      {c : TitipConfig} {p q : Processor} {t : Titip}
      → some (record { config = c; esi_processor = some p }) ≡ some t
      → t.esi_processor ≡ some q
      → some p ≡ some q
  same_processor e g = cc

  made_of :
      (c : TitipConfig) (t : Titip) (q : Processor) (os : List (Option EsiOption))
      → c.esi_options ≡ some os
      → with_processor c ≡ some t
      → t.esi_processor ≡ some q
      → new_processor (processor_options c os) ≡ some q
  unfolding with_processor
  made_of c t q os f e g = elim (Option-cases (new_processor (processor_options c os))) [
    | inl n ↦ cc (rw (f, n, with_processor) at e)
    | inr (p, k) ↦ k ∙ same_processor (rw (f, k, with_processor) at e) g
  ]

  nothing_made :
      {c : TitipConfig} {t : Titip} {q : Processor}
      → some (record { config = c; esi_processor = none }) ≡ some t
      → t.esi_processor ≡ some q
      → ⊥
  nothing_made {c} {t} {q} e g = let x : t.esi_processor ≡ none = cc in ground arith

  no_processor :
      (c : TitipConfig) (t : Titip) (q : Processor)
      → c.esi_options ≡ none
      → with_processor c ≡ some t
      → t.esi_processor ≡ some q
      → ⊥
  unfolding with_processor
  no_processor c t q f e g = nothing_made (rw (f, with_processor) at e) g

  guarded_by :
      (c : TitipConfig) (t : Titip) (q : Processor) (addr : Text) (ip : Ip)
      → HoldsShut c.esi_options
      → with_processor c ≡ some t
      → t.esi_processor ≡ some q
      → is_ip_blocked ip ≡ true
      → connects q addr (some ip) ≡ some false
  guarded_by c t q addr ip shut e found bad = elim (Option-cases c.esi_options) [
    | inl n ↦ absurd (no_processor c t q n e found)
    | inr (os, f) ↦
        new_processor-IsGuarded addr ip bad (processor_options c os) q
          (all_shut c os (rw f at shut)) (made_of c t q os f e found)
  ]

  -- Where neither the app nor the route turns off the block on private addresses, or lifts it for the
  -- hosts in its list, the processor of the instance has a client of its own, and that client connects to
  -- no blocked address, whatever host led to it.
  pub provision-IsGuarded :
      (lib : Codecs) (empty : CacheKey) (a : App) (of_app : Option (Option S)) (h : Handler)
      (p : Provisioned host) (q : Processor) (addr : Text) (ip : Ip)
      → opens_private a.esi ≡ false
      → opens_private h.of_route.esi ≡ false
      → provision host lib empty a of_app h ≡ some p
      → p.instance_of.esi_processor ≡ some q
      → is_ip_blocked ip ≡ true
      → connects q addr (some ip) ≡ some false
  provision-IsGuarded lib empty a of_app h p q addr ip of_a of_r e found bad =
      let (os, collected, made) = provision_did host lib empty a of_app h p e in
      let t = p.instance_of in
      let shut : HoldsShut t.config.esi_options =
        subst (λ c. HoldsShut c.esi_options) (sym (provision-merged host lib empty a of_app h p e))
          (timing-HoldsShut (coalesce h.of_route.server_timing a.server_timing) _
            (by-HoldsShut a.esi h.of_route.esi of_a of_r)) in
      guarded_by t.config t q addr ip shut (new_titip-config lib empty (map some os) t made).1 found
        bad

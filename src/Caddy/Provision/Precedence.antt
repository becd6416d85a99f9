-- ===== src/Caddy/Provision/Precedence.antt =====
-- adapter/caddy/caddy.go: which settings win in `Provision`.
use titip.Prelude.{
  ◌≡◌, refl, subst, inl, inr, Bool, true, false, Option, none, some, List, ◌++◌, map, Option-cases,
  if◌then◌else◌,
}
use titip.Text.{trim_space}
use titip.Key.{CacheKey}
use titip.Options.{
  or_none, Codecs, TitipConfig, TitipOption, codec_name, default_config, apply_options, new_titip,
}
use titip.Esi.Options.{EsiOption}
use titip.Caddy.{EsiRules, App, Handler, Host, coalesce, or_text, set_by}
use titip.Caddy.Provision.{
  collect, esi_part, esi_options, esi_options_part, parts, provision, Provisioned, choose_store,
}
use titip.Caddy.Provision.Runs.{Runs, done, part, collect-Runs, new_titip-config}
use titip.Caddy.Provision.Sets

module _ {S : Type 0} (host : Host S) where
  -- The options of ESI, where the app or the route asks for it: those of the app, those of the route,
  -- and the fetcher, behind what is there.
  abbrev pub esi_behind :
      Option (List (Option EsiOption)) → Option (List EsiOption) → Option (List (Option EsiOption))
  esi_behind old none = old
  esi_behind old (some os) = some (or_none old ++ map some os)

  abbrev pub esi_by :
      Option EsiRules
      → Option EsiRules
      → Option (List (Option EsiOption))
      → Option (List (Option EsiOption))
  esi_by none none old = old
  esi_by (some a) r old = esi_behind old (esi_options host (some a) r)
  esi_by none (some r) old = esi_behind old (esi_options host none (some r))

  -- The configuration of an instance: the route over the app over the defaults.
  abbrev pub merged : Codecs → CacheKey → App → Handler → TitipConfig
  merged lib empty a h =
      let r = h.of_route in
      let c = default_config lib empty in
      Sets.timing_by (coalesce r.server_timing a.server_timing) (record c {
        has_metrics = if host.has_registry then true else false;
        cache_status_mode = Sets.mode_of (or_text r.cache_status a.cache_status);
        storage_compression =
            Sets.text_by codec_name (or_text r.storage_compression a.storage_compression)
              c.storage_compression;
        respect_client_cache_control =
            set_by (coalesce r.respect_client_cache_control a.respect_client_cache_control) false;
        auto_invalidate_mutating_methods =
            set_by (coalesce r.auto_invalidate_mutating_methods a.auto_invalidate_mutating_methods)
              false;
        convert_head_to_get = set_by (coalesce r.convert_head_to_get a.convert_head_to_get) true;
        background_fetch_timeout =
            Sets.duration_by host.parse_duration
              (or_text r.background_fetch_timeout a.background_fetch_timeout)
              c.background_fetch_timeout;
        storage_timeout =
            Sets.duration_by host.parse_duration (or_text r.storage_timeout a.storage_timeout)
              c.storage_timeout;
        tag_header_name = Sets.text_by trim_space h.tag_header c.tag_header_name;
        cache_key = Sets.key_by empty a.cache_key r.cache_key empty;
        esi_options = esi_by a.esi r.esi none;
      })

  instance_eq : {q p : Provisioned host} → some q ≡ some p → q.instance_of ≡ p.instance_of
  instance_eq e = cc

  -- What `Provision` did where it gave no error.
  pub provision_did :
      (lib : Codecs) (empty : CacheKey) (a : App) (of_app : Option (Option S)) (h : Handler)
      (p : Provisioned host)
      → provision host lib empty a of_app h ≡ some p
      → (os : List TitipOption) × (collect (parts host empty a h) ≡ some os)
        × (new_titip lib empty true (map some os) ≡ some p.instance_of)
  unfolding provision
  provision_did lib empty a of_app h p e =
      elim (Option-cases (choose_store host h.of_route.storage_raw of_app)) [
        | inl n ↦ cc (rw (n, provision) at e)
        | inr (s, f) ↦ elim (Option-cases (collect (parts host empty a h))) [
          | inl n ↦ cc (rw (f, n, provision) at e)
          | inr (os, g) ↦ elim (Option-cases (new_titip lib empty true (map some os))) [
            | inl n ↦ cc (rw (f, g, n, provision) at e)
            | inr (t, k) ↦ (
              os,
              g,
              subst (λ x. new_titip lib empty true (map some os) ≡ some x)
                  (instance_eq (rw (f, g, k, provision) at e)) k,
            )
          ]
        ]
      ]

  of_known :
      (c e : TitipConfig) {x p : List TitipOption}
      → some x ≡ some p
      → apply_options c (map some p) ≡ some e
      → apply_options c (map some x) ≡ some e
  of_known c e {x} {p} q r = let same : x ≡ p = cc in rw same r

  turned-on : (v : Option Bool) → Sets.turned v true true false ≡ set_by v false
  turned-on none = refl
  turned-on (some true) = refl
  turned-on (some false) = refl

  turned-off : (v : Option Bool) → Sets.turned v false false true ≡ set_by v true
  turned-off none = refl
  turned-off (some true) = refl
  turned-off (some false) = refl

  esi_found :
      (c e : TitipConfig) (x : Option (List EsiOption)) (p : List TitipOption)
      → esi_options_part x ≡ some p
      → apply_options c (map some p) ≡ some e
      → e ≡ record c { esi_options = esi_behind c.esi_options x }
  esi_found c e none p f h = cc
  esi_found c e (some os) p f h = Sets.esi_sets c e os (of_known c e f h)

  esi_sets :
      (c e : TitipConfig) (a r : Option EsiRules) (p : List TitipOption)
      → esi_part host a r ≡ some p
      → apply_options c (map some p) ≡ some e
      → e ≡ record c { esi_options = esi_by a r c.esi_options }
  unfolding esi_part
  esi_sets c e none none p f h = Sets.nothing c e (of_known c e f h)
  esi_sets c e (some a) r p f h = esi_found c e (esi_options host (some a) r) p f h
  esi_sets c e none (some r) p f h = esi_found c e (esi_options host none (some r)) p f h

  merged_by :
      (lib : Codecs) (empty : CacheKey) (a : App) (h : Handler) (d : TitipConfig)
      → Runs (default_config lib empty) (parts host empty a h) d
      → d ≡ merged lib empty a h
  merged_by lib empty a h d
        (part p1 q1 r1 (
          part p2 q2 r2 (
            part p3 q3 r3 (
              part p4 q4 r4 (
                part p5 q5 r5 (
                  part p6 q6 r6 (
                    part p7 q7 r7 (
                      part p8 q8 r8 (
                        part p9 q9 r9 (
                          part p10 q10 r10 (
                            part p11 q11 r11
                              (part p12 q12 r12 (part p13 q13 r13 (done _)))))))))))))) =
      let e1 = Sets.metrics_sets _ _ host.has_registry (of_known _ _ q1 r1) in
      let e2 = Sets.logger_sets _ _ (of_known _ _ q2 r2) in
      let e3 = Sets.status_sets _ _ (or_text h.of_route.cache_status a.cache_status) p3 q3 r3 in
      let e4 =
        Sets.compression_sets _ _ (or_text h.of_route.storage_compression a.storage_compression)
          (of_known _ _ q4 r4) in
      let e5 =
        Sets.respect_sets _ _
          (coalesce h.of_route.respect_client_cache_control a.respect_client_cache_control)
          (of_known _ _ q5 r5) in
      let e6 =
        Sets.invalidate_sets _ _
          (coalesce h.of_route.auto_invalidate_mutating_methods a.auto_invalidate_mutating_methods)
          (of_known _ _ q6 r6) in
      let e7 =
        Sets.convert_sets _ _ (coalesce h.of_route.convert_head_to_get a.convert_head_to_get)
          (of_known _ _ q7 r7) in
      let e8 =
        Sets.background_sets _ _ host.parse_duration
          (or_text h.of_route.background_fetch_timeout a.background_fetch_timeout) p8 q8 r8 in
      let e9 =
        Sets.storage_timeout_sets _ _ host.parse_duration
          (or_text h.of_route.storage_timeout a.storage_timeout) p9 q9 r9 in
      let e10 = Sets.tag_header_sets _ _ h.tag_header (of_known _ _ q10 r10) in
      let e11 = Sets.key_sets _ _ empty a.cache_key h.of_route.cache_key (of_known _ _ q11 r11) in
      let e12 = esi_sets _ _ a.esi h.of_route.esi p12 q12 r12 in
      let e13 =
        Sets.timing_sets _ _ (coalesce h.of_route.server_timing a.server_timing)
          (of_known _ _ q13 r13) in
      rw (e13, e12, e11, e10, e9, e8, e7, e6, e5, e4, e3, e2, e1)
        (rw
          (
            turned-on
                (coalesce h.of_route.respect_client_cache_control a.respect_client_cache_control),
            turned-on (
                coalesce h.of_route.auto_invalidate_mutating_methods
                  a.auto_invalidate_mutating_methods),
            turned-off (coalesce h.of_route.convert_head_to_get a.convert_head_to_get),
          )
          refl)

  pub provision-merged :
      (lib : Codecs) (empty : CacheKey) (a : App) (of_app : Option (Option S)) (h : Handler)
      (p : Provisioned host)
      → provision host lib empty a of_app h ≡ some p
      → p.instance_of.config ≡ merged lib empty a h
  provision-merged lib empty a of_app h p e =
      let (os, collected, made) = provision_did lib empty a of_app h p e in
      merged_by lib empty a h p.instance_of.config (
        collect-Runs (default_config lib empty) p.instance_of.config (parts host empty a h) os
          collected (new_titip-config lib empty (map some os) p.instance_of made).0)

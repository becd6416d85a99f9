-- ===== src/Caddy/Caddyfile/Ends.antt =====
-- adapter/caddy: the parser of a Caddyfile ends.
use titip.Prelude.{
  ℕ, ◌≤◌, ◌<◌, ◌≡◌, inl, inr, Bool, true, false, some, List, [], ◌∷◌, map, if◌then◌else◌, arith,
  Bool-cases, Option-cases, All, ◌++◌,
}
use titip.Text.{Text, codes, ◌==ₜ◌}
use titip.Freshness.{parse_int}
use titip.Caddy.{App, Handler, KeyRules, EsiRules, empty_app, is_given}
use titip.Caddy.Caddyfile.{
  Dispenser, Outcome, ended, rejected, exhausted, Reads, text_arg, block, parse_bool, parse_uint_32,
  empty_key, empty_esi,
}
use titip.Caddy.Caddyfile.Directives.{
  or_new, into_of, values_arg, key_cases, esi_cases, timing_cookie, timing_switch,
  parse_server_timing, parse_storage_module, into, app_cases, lift, handler_cases,
  unmarshal_handler, parse_caddyfile, parse_global_option,
}
use titip.Caddy.Caddyfile.Loops.{
  Counts, Settles, IsSettling, IsBelow, text_arg-IsSettling, of_parsed-Settles,
  parsed_arg-IsSettling, flag_arg-IsSettling, list_args-IsSettling, All-IsBelow, weaken,
  block-Settles, blocks-Settles,
}

module _ {X : Type 0} (d : Dispenser X) (left : X → ℕ) (law : Counts d left) where
  into-Settles :
      {A R : Type 0} (f : A → R) (n : ℕ) (o : Outcome (A × X))
      → Settles d left law n o
      → Settles d left law n (into_of d f o)
  into-Settles f n (ended (a, y)) h = h
  into-Settles f n rejected h = h
  into-Settles f n exhausted h = h

  values_left :
      (x y : X) (t : Text) → d.next_arg x ≡ some (t, y) → left (d.remaining_args y).1 ≤ left x
  values_left x y t e = let a = law.by_args y in let b = law.by_arg x y t e in omega arith

  values_arg-IsSettling : (k : KeyRules) → IsSettling d left law (values_arg d k)
  values_arg-IsSettling k x = elim (Option-cases (d.next_arg x)) [
    | inl n ↦ rw (n, values_arg) tt
    | inr ((t, y), e) ↦ elim (Bool-cases (is_given (d.remaining_args y).0)) [
      | inl g ↦ rw (e, g, values_arg) (values_left x y t e)
      | inr g ↦ rw (e, g, values_arg) tt
    ]
  ]

  key_cases-AreSettling : (k : KeyRules) → All (λ c. IsSettling d left law c.1) (key_cases d k)
  key_cases-AreSettling k = (
    parsed_arg-IsSettling d left law parse_bool (λ b. record k { include_protocol = some b }),
    (
      parsed_arg-IsSettling d left law parse_bool (λ b. record k { exclude_host = some b }),
      (
        parsed_arg-IsSettling d left law parse_bool (λ b. record k { exclude_query = some b }),
        (
          parsed_arg-IsSettling d left law parse_bool
              (λ b. record k { preserve_query_order = some b }),
          (
            list_args-IsSettling d left law
                (λ ts. record k { included_query_params = k.included_query_params ++ ts }),
            (
              list_args-IsSettling d left law
                  (λ ts. record k { excluded_query_params = k.excluded_query_params ++ ts }),
              (
                flag_arg-IsSettling d left law
                    (λ b. record k { exclude_marketing_query_params = some b }),
                (
                  list_args-IsSettling d left law
                      (λ ts. record k { included_header_names = k.included_header_names ++ ts }),
                  (
                    list_args-IsSettling d left law
                        (λ ts. record k { included_cookie_names = k.included_cookie_names ++ ts }),
                    (
                      flag_arg-IsSettling d left law
                          (λ b. record k { case_insensitive_path = some b }),
                      (values_arg-IsSettling k, tt),
                    ),
                  ),
                ),
              ),
            ),
          ),
        ),
      ),
    ),
  )

  esi_cases-AreSettling : (e : EsiRules) → All (λ c. IsSettling d left law c.1) (esi_cases d e)
  esi_cases-AreSettling e = (
    flag_arg-IsSettling d left law (λ b. record e { enabled = some b }),
    (
      flag_arg-IsSettling d left law (λ b. record e { require_surrogate_control = some b }),
      (
        parsed_arg-IsSettling d left law parse_uint_32 (λ n. record e { max_depth = some n }),
        (
          text_arg-IsSettling d left law (λ t. record e { max_timeout = t }),
          (
            parsed_arg-IsSettling d left law parse_int
                (λ n. record e { max_concurrent_requests = some n }),
            (
              flag_arg-IsSettling d left law (λ b. record e { block_private_ips = some b }),
              (
                list_args-IsSettling d left law
                    (λ ts. record e { allowed_hosts = e.allowed_hosts ++ ts }),
                (
                  flag_arg-IsSettling d left law
                      (λ b. record e { allow_private_ips_for_allowed_hosts = some b }),
                  (
                    text_arg-IsSettling d left law (λ t. record e { max_response_size = t }),
                    (
                      flag_arg-IsSettling d left law
                          (λ b. record e { forward_fragment_cookies = some b }),
                      (
                        flag_arg-IsSettling d left law (λ b. record e { preserve_etag = some b }),
                        (text_arg-IsSettling d left law (λ t. record e { error_marker = t }), tt),
                      ),
                    ),
                  ),
                ),
              ),
            ),
          ),
        ),
      ),
    ),
  )

  below :
      {R : Type 0} (most : ℕ) (read : Reads d R)
      → IsSettling d left law read
      → IsBelow d left law most read
  below most read h x less = h x

  into-IsSettling :
      {A R : Type 0} (f : A → R) (read : Reads d A)
      → IsSettling d left law read
      → IsSettling d left law (into d f read)
  into-IsSettling f read h x = into-Settles f (left x) (read x) (h x)

  module_left :
      (x y z : X) (t name raw : Text)
      → d.next_arg x ≡ some (t, y)
      → d.unmarshal_module name y ≡ some (raw, z)
      → left z ≤ left x
  module_left x y z t name raw e f =
      let a = law.by_arg x y t e in let b = law.by_module name raw y z f in omega arith

  storage-IsSettling : IsSettling d left law (parse_storage_module d)
  unfolding parse_storage_module
  storage-IsSettling x = elim (Option-cases (d.next_arg x)) [
    | inl n ↦ rw (n, parse_storage_module) tt
    | inr ((t, y), e) ↦ elim (Bool-cases (d.has_module (codes "titip.storage." ++ t))) [
      | inr g ↦ rw (e, g, parse_storage_module) tt
      | inl g ↦ elim (Option-cases (d.unmarshal_module t y)) [
        | inl n ↦ rw (e, g, n, parse_storage_module) tt
        | inr ((raw, z), f) ↦ rw (e, g, f, parse_storage_module) (module_left x y z t t raw e f)
      ]
    ]
  ]

  cookie-IsSettling : IsSettling d left law (timing_cookie d)
  cookie-IsSettling x = elim (Option-cases (d.next_arg x)) [
    | inl n ↦ rw (n, timing_cookie) tt
    | inr ((t, y), e) ↦
        rw (e, timing_cookie)
          (weaken d left law (left x) (left y)
            (text_arg d (λ v. record { enabled = some true; cookie_name = t; cookie_value = v }) y)
            (text_arg-IsSettling d left law
              (λ v. record { enabled = some true; cookie_name = t; cookie_value = v }) y)
            (law.by_arg x y t e))
  ]

  timing-IsSettling : IsSettling d left law (parse_server_timing d)
  unfolding parse_server_timing
  timing-IsSettling x = elim (Option-cases (d.next_arg x)) [
    | inl n ↦ rw (n, parse_server_timing) (omega arith)
    | inr ((t, y), e) ↦ elim (Bool-cases (t ==ₜ codes "cookie")) [
      | inl g ↦
          rw (e, g, parse_server_timing)
            (weaken d left law (left x) (left y) (timing_cookie d y) (cookie-IsSettling y)
              (law.by_arg x y t e))
      | inr g ↦
          rw (e, g, parse_server_timing)
            (of_parsed-Settles d left law timing_switch (left x) y (parse_bool t)
              (law.by_arg x y t e))
    ]
  ]

  key_block :
      {R : Type 0} (fuel : ℕ) (f : KeyRules → R) (k : KeyRules)
      → IsBelow d left law fuel (into d f (block d (key_cases d) 1 fuel k))
  key_block fuel f k x h = into-Settles f (left x) (block d (key_cases d) 1 fuel k x) (
      block-Settles d left law (key_cases d) 1 fuel fuel k x
        (λ s. All-IsBelow d left law fuel (key_cases d s) (key_cases-AreSettling s)) h h)

  esi_block :
      {R : Type 0} (fuel : ℕ) (f : EsiRules → R) (e : EsiRules)
      → IsBelow d left law fuel (into d f (block d (esi_cases d) 1 fuel e))
  esi_block fuel f e x h = into-Settles f (left x) (block d (esi_cases d) 1 fuel e x) (
      block-Settles d left law (esi_cases d) 1 fuel fuel e x
        (λ s. All-IsBelow d left law fuel (esi_cases d s) (esi_cases-AreSettling s)) h h)

  app_cases-AreBelow :
      (keeps : Bool) (fuel : ℕ) (a : App)
      → All (λ c. IsBelow d left law fuel c.1) (app_cases d keeps fuel a)
  app_cases-AreBelow keeps fuel a = (
    below fuel _ (
        into-IsSettling (λ t. record a { storage_raw = t }) (parse_storage_module d)
          storage-IsSettling),
    (
      below fuel _ (text_arg-IsSettling d left law (λ t. record a { cache_status = t })),
      (
        below fuel _ (
            parsed_arg-IsSettling d left law parse_bool
              (λ b. record a { respect_client_cache_control = some b })),
        (
          below fuel _ (
              parsed_arg-IsSettling d left law parse_bool
                (λ b. record a { auto_invalidate_mutating_methods = some b })),
          (
            below fuel _ (
                parsed_arg-IsSettling d left law parse_bool
                  (λ b. record a { convert_head_to_get = some b })),
            (
              below fuel _
                  (text_arg-IsSettling d left law (λ t. record a { background_fetch_timeout = t })),
              (
                below fuel _
                    (text_arg-IsSettling d left law (λ t. record a { storage_timeout = t })),
                (
                  key_block fuel (λ k. record a { cache_key = some k })
                      (if keeps then or_new empty_key a.cache_key else empty_key),
                  (
                    esi_block fuel (λ e. record a { esi = some e })
                        (if keeps then or_new empty_esi a.esi else empty_esi),
                    (
                      below fuel _ (
                          flag_arg-IsSettling d left law
                            (λ b. record a { use_rewritten_url = some b })),
                      (
                        below fuel _ (
                            into-IsSettling (λ t. record a { server_timing = some t })
                              (parse_server_timing d) timing-IsSettling),
                        (
                          below fuel _ (
                              text_arg-IsSettling d left law
                                (λ t. record a { storage_compression = t })),
                          tt,
                        ),
                      ),
                    ),
                  ),
                ),
              ),
            ),
          ),
        ),
      ),
    ),
  )

  lifted-AreBelow :
      (fuel : ℕ) (h : Handler) (cases : List (Text × Reads d App))
      → All (λ c. IsBelow d left law fuel c.1) cases
      → All (λ c. IsBelow d left law fuel c.1) (map (lift d h) cases)
  lifted-AreBelow fuel h [] a = tt
  lifted-AreBelow fuel h ((k, read) ∷ cases) a = (
    λ x less. into-Settles (λ b. record h { of_route = b }) (left x) (read x) (a.0 x less),
    lifted-AreBelow fuel h cases a.1,
  )

  -- The directives of a Caddyfile are parsed to their end, or to an error, on any fuel above the number of
  -- tokens, with no more tokens left than there were: those of a handler and those of the app, with the
  -- blocks in them. The dispenser counts its tokens.
  pub parse_caddyfile-Settles :
      (fuel : ℕ) (x : X)
      → left x < fuel
      → Settles d left law (left x) (parse_caddyfile d fuel x)
        × Settles d left law (left x) (parse_global_option d fuel x)
  unfolding parse_caddyfile unmarshal_handler parse_global_option
  parse_caddyfile-Settles fuel x h = (
    blocks-Settles d left law (handler_cases d fuel) fuel fuel
        (record { of_route = empty_app; tag_header = [] }) x
        (λ s. (
          below fuel _ (text_arg-IsSettling d left law (λ t. record s { tag_header = t })),
          lifted-AreBelow fuel s (app_cases d true fuel s.of_route)
              (app_cases-AreBelow true fuel s.of_route),
        ))
        h h,
    blocks-Settles d left law (app_cases d false fuel) fuel fuel empty_app x
        (app_cases-AreBelow false fuel) h h,
  )

-- ===== src/Purge/Covers.antt =====
-- purge.go: what a purge names, against the keys under which responses are stored.
use mathlib.Core.List.{append_assoc}
use titip.Prelude.{
  ◌≡◌, refl, sym, ap, ◌∙◌, inl, inr, Bool, true, false, not, ◌&&◌, ◌||◌, List, [], ◌∷◌, ◌++◌, arith,
  if◌then◌else◌, Bool-cases,
}
use titip.Text.{Text, codes, to_lower, ◌==ₜ◌}
use titip.Text.Order.{sort}
use titip.Http.{Header, is_empty}
use titip.Key.{Request, CacheKey}
use titip.Key.Query.{build_query_string}
use titip.Key.Primary.{
  trim_suffix, component, unless_empty, normalize_host, host_component, query_component,
  header_components, cookie_components, resolve_scheme, generate_primary_key,
}
use titip.Purge.{
  Target, target_path, target_host, knows_host, host_part, scheme_part, query_part, is_plain,
  query_operation, path_prefix, path_operation, purge_operation,
}

regroup : (p h s t : Text) → p ++ (h ++ (s ++ t)) ≡ (p ++ (h ++ s)) ++ t
regroup p h s t = ap (λ u. p ++ u) (sym (append_assoc h s t)) ∙ sym (append_assoc p (h ++ s) t)

pub normalize_nothing : (scheme : Text) → normalize_host [] scheme ≡ []
unfolding normalize_host to_lower trim_suffix
normalize_nothing scheme = ground arith

-- The host component of a key, by the text of the host.
host_text :
    (exclude : Bool) (h scheme : Text)
    → (if exclude
        then []
        else if is_empty h
        then []
        else unless_empty (codes "h=") (normalize_host h scheme))
      ≡ (if not exclude && not (is_empty (normalize_host h scheme))
          then component (codes "h=") (normalize_host h scheme)
          else [])
unfolding is_empty
host_text true h scheme = refl
host_text false [] scheme = rw (normalize_nothing scheme) refl
host_text false (c ∷ h) scheme = elim (Bool-cases (is_empty (normalize_host (c ∷ h) scheme))) [
  | inl e ↦ rw e refl
  | inr e ↦ rw e refl
]

resolve_scheme_named : (r : Request) → is_empty (resolve_scheme r) ≡ false
unfolding resolve_scheme is_empty
resolve_scheme_named r = ground arith

-- A GET request for the path and the host of the target, with a query.
abbrev pub request_for : Target → Text → Bool → Text → Header → List (Text × Text) → Request
request_for t raw is_tls url_scheme header cookies = record {
  method = codes "GET";
  path = t.url.path;
  raw_query = raw;
  url_host = t.url.host;
  url_scheme = url_scheme;
  host = t.url.host;
  is_tls = is_tls;
  header = header;
  cookies = cookies;
}

module _ (cfg : CacheKey) (t : Target) (raw : Text) (is_tls : Bool) (url_scheme : Text)
    (header : Header) (cookies : List (Text × Text)) where
  abbrev requested : Request
  requested = request_for t raw is_tls url_scheme header cookies

  module _ (scheme : resolve_scheme requested ≡ t.scheme) where
    host_agrees : host_component cfg requested ≡ host_part cfg t
    unfolding host_component
    host_agrees = elim (Bool-cases (is_empty t.url.host)) [
      | inl e ↦ rw (e, scheme) (host_text cfg.exclude_host t.url.host t.scheme)
      | inr e ↦ rw (e, scheme) (host_text cfg.exclude_host t.url.host t.scheme)
    ]

    named : is_empty t.scheme ≡ false
    named = rw scheme at (resolve_scheme_named requested)

    scheme_agrees :
        (if cfg.include_protocol then component (codes "s=") (resolve_scheme requested) else [])
        ≡ scheme_part cfg t
    scheme_agrees = rw (scheme, named) (ground arith)

    -- The key of the request, in the words of the purge.
    pub key_of_target :
        generate_primary_key requested cfg
        ≡ component (codes "p=") (target_path cfg t)
          ++ (host_part cfg t
              ++ (scheme_part cfg t
                  ++ (query_component cfg raw
                      ++ (codes "m=GET:"
                          ++ (header_components header (sort cfg.included_header_names)
                              ++ cookie_components cookies (sort cfg.included_cookie_names))))))
    unfolding generate_primary_key is_empty ◌==ₜ◌
    key_of_target = rw (host_agrees, scheme_agrees) refl

    -- The key behind the host and the scheme.
    abbrev tail : Text
    tail =
        query_component cfg raw
        ++ (codes "m=GET:"
            ++ (header_components header (sort cfg.included_header_names)
                ++ cookie_components cookies (sort cfg.included_cookie_names)))

    -- Where a purge by path is for a target whose scheme is that of the request, the pattern is a
    -- literal prefix and a star, and the key of every GET request for the path and the host, whatever
    -- its query, its headers and its cookies, begins with that prefix.
    pub path_covers :
        ((path_operation cfg t).keys ≡ (path_prefix cfg t ++ codes "*") ∷ [])
        × ((rest : Text) × (generate_primary_key requested cfg ≡ path_prefix cfg t ++ rest))
    unfolding path_operation path_prefix
    path_covers = (
      refl,
      elim (Bool-cases (knows_host cfg t)) [
        | inl e ↦ (
          tail,
          key_of_target
              ∙ rw e (
                  regroup (component (codes "p=") (target_path cfg t))
                    (component (codes "h=") (target_host cfg t)) (scheme_part cfg t) tail),
        )
        | inr e ↦ (
          scheme_part cfg t ++ tail,
          key_of_target
              ∙ rw e (
                  regroup (component (codes "p=") (target_path cfg t)) [] []
                    (scheme_part cfg t ++ tail)),
        )
      ],
    )

module _ (cfg : CacheKey) (t : Target) (is_tls : Bool) (url_scheme : Text) (header : Header)
    (cookies : List (Text × Text))
    (scheme : resolve_scheme (request_for t t.url.raw_query is_tls url_scheme header cookies)
      ≡ t.scheme) where
  abbrev qs : Text
  qs = build_query_string cfg t.url.raw_query

  -- What the text of an exact key and the key of a plain configuration share.
  exact_text :
      (p h s q : Text)
      → p ++ (h ++ ((s ++ (codes "qs=" ++ q)) ++ codes ":m=GET:"))
        ≡ p ++ (h ++ (s ++ (component (codes "qs=") q ++ (codes "m=GET:" ++ []))))
  exact_text p h s q =
      ap (λ u. p ++ (h ++ u))
        (append_assoc s (codes "qs=" ++ q) (codes ":m=GET:")
          ∙ ap (λ u. s ++ (codes "qs=" ++ u))
              (sym (append_assoc q (codes ":") (codes "m=GET:" ++ []))))

  sorted_headers :
      (names : List Text) → is_empty names ≡ true → header_components header (sort names) ≡ []
  unfolding sort header_components is_empty
  sorted_headers [] e = refl
  sorted_headers (n ∷ ns) e = ground (arith, e)

  sorted_cookies :
      (names : List Text) → is_empty names ≡ true → cookie_components cookies (sort names) ≡ []
  unfolding sort cookie_components is_empty
  sorted_cookies [] e = refl
  sorted_cookies (n ∷ ns) e = ground (arith, e)

  module _ (exact : (purge_operation cfg t).is_exact ≡ true) where
    has_query : (not cfg.exclude_query && not (is_empty t.url.raw_query)) ≡ true
    unfolding purge_operation
    has_query = ground (arith, exact)

    has_text : is_empty qs ≡ false
    unfolding purge_operation
    has_text = ground (arith, exact)

    plain : is_plain cfg t ≡ true
    unfolding purge_operation query_operation
    plain = ground (arith, exact)

    known : (cfg.exclude_host || not (is_empty (target_host cfg t))) ≡ true
    unfolding purge_operation query_operation
    known = ground (arith, exact)

    keys_exact :
        (purge_operation cfg t).keys
        ≡ (component (codes "p=") (target_path cfg t)
            ++ (host_part cfg t ++ (query_part cfg t qs ++ codes ":m=GET:")))
          ∷ []
    unfolding purge_operation query_operation
    keys_exact = rw (has_query, has_text, known, plain) refl

    query_is : query_component cfg t.url.raw_query ≡ component (codes "qs=") qs
    unfolding query_component
    query_is = rw (has_query, has_text) refl

    no_headers : header_components header (sort cfg.included_header_names) ≡ []
    no_headers = sorted_headers cfg.included_header_names (ground (arith, plain))

    no_cookies : cookie_components cookies (sort cfg.included_cookie_names) ≡ []
    no_cookies = sorted_cookies cfg.included_cookie_names (ground (arith, plain))

    -- A purge that is exact names one key, and it is the key under which the response to a GET request
    -- for the target is stored, whatever its headers and its cookies, where the target names the scheme
    -- of the request.
    pub purge_exact :
        (purge_operation cfg t).keys
        ≡ generate_primary_key (request_for t t.url.raw_query is_tls url_scheme header cookies) cfg
          ∷ []
    purge_exact =
        keys_exact
        ∙ ap (λ k. k ∷ [])
            (exact_text (component (codes "p=") (target_path cfg t)) (host_part cfg t)
                (scheme_part cfg t) qs
              ∙ sym (
                  key_of_target cfg t t.url.raw_query is_tls url_scheme header cookies scheme
                  ∙ rw (query_is, no_headers, no_cookies) refl))

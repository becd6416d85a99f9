-- ===== src/Purge/Named.antt =====
-- purge.go: every purge of a target with a host names the entry of a GET request for it.
use mathlib.Core.List.{append_assoc}
use titip.Prelude.{
  ◌≡◌, refl, ap, ◌∙◌, inl, inr, Bool, true, false, not, ◌&&◌, ◌||◌, List, [], ◌∷◌, ◌++◌, Bool-cases,
}
use titip.Text.{Text, codes, has_prefix}
use titip.Http.{Header, is_empty}
use titip.Key.{CacheKey}
use titip.Key.Query.{build_query_string}
use titip.Key.Primary.{
  component, query_component, resolve_scheme, generate_primary_key, header_components,
  cookie_components,
}
use titip.Text.Order.{sort}
use titip.Purge.{
  Target, Operation, target_path, target_host, host_part, scheme_part, is_plain, query_operation,
  path_prefix, path_operation, purge_operation,
}
use titip.Purge.Covers.{request_for, purge_exact, path_covers, key_of_target}

-- The operation names the key: it is the one key, or a literal prefix of it that begins with `p=`,
-- with a star, is the one pattern.
pub data IsNamed (op : Operation) (key : Text) : Type 0 where
  by_key : op.is_exact ≡ true → op.keys ≡ key ∷ [] → IsNamed op key
  by_pattern :
      (prefix rest : Text)
      → has_prefix (codes "p=") prefix ≡ true
      → op.is_exact ≡ false
      → op.keys ≡ (prefix ++ codes "*") ∷ []
      → key ≡ prefix ++ rest
      → IsNamed op key

begins_with_p : (t rest : Text) → has_prefix (codes "p=") (component (codes "p=") t ++ rest) ≡ true
unfolding has_prefix
begins_with_p t rest = refl

pattern_text :
    (p h s q : Text)
    → p ++ (h ++ ((s ++ (codes "qs=" ++ q)) ++ codes ":*"))
      ≡ (p ++ (h ++ (s ++ component (codes "qs=") q))) ++ codes "*"
pattern_text p h s q = simp append_assoc

key_text : (p h s q t : Text) → p ++ (h ++ (s ++ (q ++ t))) ≡ (p ++ (h ++ (s ++ q))) ++ t
key_text p h s q t = simp append_assoc

module _ (cfg : CacheKey) (t : Target) (is_tls : Bool) (url_scheme : Text) (header : Header)
    (cookies : List (Text × Text))
    (scheme : resolve_scheme (request_for t t.url.raw_query is_tls url_scheme header cookies)
      ≡ t.scheme)
    (known : (cfg.exclude_host || not (is_empty (target_host cfg t))) ≡ true) where
  abbrev pub key : Text
  key = generate_primary_key (request_for t t.url.raw_query is_tls url_scheme header cookies) cfg

  abbrev qs : Text
  qs = build_query_string cfg t.url.raw_query

  path_operation-IsNamed :
      purge_operation cfg t ≡ path_operation cfg t → IsNamed (purge_operation cfg t) key
  unfolding path_operation
  path_operation-IsNamed e =
      let covers = path_covers cfg t t.url.raw_query is_tls url_scheme header cookies scheme in
      rw e (
        by_pattern (path_prefix cfg t) covers.1.0 (begins_with_p (target_path cfg t) _) refl
          covers.0 covers.1.1)

  module _ (has_query : (not cfg.exclude_query && not (is_empty t.url.raw_query)) ≡ true)
      (has_text : is_empty qs ≡ false) where
    query_operation-IsNamed : (plain : is_plain cfg t ≡ false) → IsNamed (purge_operation cfg t) key
    unfolding purge_operation query_operation query_component
    query_operation-IsNamed plain =
        by_pattern
          (component (codes "p=") (target_path cfg t)
            ++ (host_part cfg t ++ (scheme_part cfg t ++ component (codes "qs=") qs)))
          (codes "m=GET:"
            ++ (header_components header (sort cfg.included_header_names)
                ++ cookie_components cookies (sort cfg.included_cookie_names)))
          (begins_with_p (target_path cfg t) _) (rw (has_query, has_text, known, plain) refl)
          (rw (has_query, has_text, known, plain)
            (ap (λ k. k ∷ [])
              (pattern_text (component (codes "p=") (target_path cfg t)) (host_part cfg t)
                (scheme_part cfg t) qs)))
          (key_of_target cfg t t.url.raw_query is_tls url_scheme header cookies scheme
            ∙ rw (has_query, has_text)
                (key_text (component (codes "p=") (target_path cfg t)) (host_part cfg t)
                  (scheme_part cfg t) (component (codes "qs=") qs)
                  (codes "m=GET:"
                    ++ (header_components header (sort cfg.included_header_names)
                        ++ cookie_components cookies (sort cfg.included_cookie_names)))))

    exact_where_plain : is_plain cfg t ≡ true → (purge_operation cfg t).is_exact ≡ true
    unfolding purge_operation query_operation
    exact_where_plain plain = rw (has_query, has_text, known, plain) refl

    purge_operation-IsNamed : IsNamed (purge_operation cfg t) key
    purge_operation-IsNamed = elim (Bool-cases (is_plain cfg t)) [
      | inl plain ↦
          by_key (exact_where_plain plain)
            (purge_exact cfg t is_tls url_scheme header cookies scheme (exact_where_plain plain))
      | inr plain ↦ query_operation-IsNamed plain
    ]

  -- Where the purge knows the host of its target, or hosts are not in keys, and the target has the
  -- scheme of the request, the purge names the key of a GET request for the target, whatever its headers
  -- and its cookies: as its one key, or by its one pattern, a literal prefix of the key and a star.
  pub purge_covers : IsNamed (purge_operation cfg t) key
  unfolding purge_operation
  purge_covers = elim (Bool-cases (not cfg.exclude_query && not (is_empty t.url.raw_query))) [
    | inr no_query ↦ path_operation-IsNamed (rw no_query refl)
    | inl has_query ↦ elim (Bool-cases (is_empty qs)) [
      | inl no_text ↦ path_operation-IsNamed (rw (has_query, no_text) refl)
      | inr has_text ↦ purge_operation-IsNamed has_query has_text
    ]
  ]

-- ===== src/Key/Primary/Order.antt =====
-- cache_key.go: the order of the query in the primary key, and the requests that share a key.
use mathlib.Core.List.{Permᴰ}
use titip.Prelude.{◌≡◌, refl, sym, ◌∙◌, ap, false, [], ◌∷◌, Bool-cases, inl, inr}
use titip.Text.{join, contains, Text, codes, split}
use titip.Http.{is_empty}
use titip.Key.{Request, CacheKey}
use titip.Key.Query.{
  cut, parse_parts, keys_of, sorted_pairs, build_query_string, build_sorted_query_string,
}
use titip.Key.Query.Order.{build_sorted_query_string-Permᴰ}
use titip.Key.Primary.{
  unless_empty, query_component, host_component, resolve_scheme, generate_primary_key,
}

module _ (cfg : CacheKey) (sorted : cfg.preserve_query_order ≡ false) where
  build_sorted :
      (raw : Text)
      → cfg.exclude_query ≡ false
      → build_query_string cfg raw ≡ build_sorted_query_string cfg raw
  unfolding build_query_string
  build_sorted raw e = rw (e, sorted) refl

  -- The test on the raw query drops nothing that would be written.
  component_of :
      (raw : Text)
      → cfg.exclude_query ≡ false
      → query_component cfg raw ≡ unless_empty (codes "qs=") (build_sorted_query_string cfg raw)
  unfolding query_component is_empty build_sorted_query_string parse_parts cut contains keys_of
      sorted_pairs split join
  component_of [] e = rw e refl
  component_of (c ∷ raw) e = rw (build_sorted (c ∷ raw) e, e) refl

  query_component-Permᴰ :
      (raw raw' : Text)
      → Permᴰ (split b'&' raw) (split b'&' raw')
      → query_component cfg raw ≡ query_component cfg raw'
  query_component-Permᴰ raw raw' p = elim (Bool-cases cfg.exclude_query) [
    | inl e ↦ unfold query_component in rw e refl
    | inr e ↦
        component_of raw e
        ∙ ap (λ q. unless_empty (codes "qs=") q) (build_sorted_query_string-Permᴰ cfg raw raw' p)
        ∙ sym (component_of raw' e)
  ]

  -- Unless the order of the query is to be preserved, requests whose URLs differ in the order of the
  -- query's parameters have the same primary key.
  pub generate_primary_key-Permᴰ :
      (r : Request) (raw : Text)
      → Permᴰ (split b'&' r.raw_query) (split b'&' raw)
      → generate_primary_key r cfg ≡ generate_primary_key (record r { raw_query = raw }) cfg
  unfolding generate_primary_key resolve_scheme host_component
  generate_primary_key-Permᴰ r raw p = rw (query_component-Permᴰ r.raw_query raw p) refl

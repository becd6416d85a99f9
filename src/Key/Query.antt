-- ===== src/Key/Query.antt =====
-- cache_key.go: the query of a key, with `ParseQuery` of net/url.
pub mod Order
use titip.Prelude.{
  ℕ, Bool, true, false, not, ◌&&◌, ◌||◌, Option, none, some, List, [], ◌∷◌, ◌++◌, map, any, ◌==◌,
  if◌then◌else◌,
}
use titip.Text.{Text, codes, ◌==ₜ◌, split, join, to_lower, has_prefix, contains}
use titip.Text.Order.{sort, insert_new}
use titip.Http.{is_empty}
use titip.Key.{CacheKey}
use titip.Key.Escape.{query_escape, query_unescape}

abbrev pub Pair : Type 0
Pair = Text × Text

-- `strings.Cut(part, "=")`: without a `=` the value is empty.
unfoldable pub cut : Text → Pair
cut [] = ([], [])
cut (c ∷ cs) = let rest = cut cs in if c == b'=' then ([], cs) else (c ∷ rest.0, rest.1)

-- `slices.Contains`
abbrev pub holds : List Text → Text → Bool
holds ts t = any (λ u. t ==ₜ u) ts

-- A map whose values are lists.
unfoldable pub find_values : Text → List (Text × List Text) → Option (List Text)
find_values k [] = none
find_values k ((j, vs) ∷ m) = let rest = find_values k m in if k ==ₜ j then some vs else rest

abbrev pub default_marketing_query_params : List Text
default_marketing_query_params =
    codes "fbclid"
    ∷ codes "gclid"
    ∷ codes "igshid"
    ∷ codes "mc_cid"
    ∷ codes "mc_eid"
    ∷ codes "msclkid"
    ∷ codes "ttclid"
    ∷ codes "twclid"
    ∷ []

abbrev is_marketing : Text → Bool
is_marketing k =
    has_prefix (codes "utm_") (to_lower k) || holds default_marketing_query_params (to_lower k)

-- `isQueryParamAllowed`
unfoldable pub is_query_param_allowed : CacheKey → Text → Text → Bool
unfolding find_values
is_query_param_allowed cfg k v =
    if not (is_empty cfg.included_query_params) || not (is_empty cfg.included_query_param_values)
    then (if holds cfg.included_query_params k
        then true
        else elim (find_values k cfg.included_query_param_values) [
          | none ↦ false
          | some allowed ↦ holds allowed v
        ])
    else if holds cfg.excluded_query_params k
    then false
    else if cfg.exclude_marketing_query_params && is_marketing k
    then false
    else true

abbrev pub pair_onto : Option Text → Option Text → Option (List Pair) → Option (List Pair)
pair_onto (some k) (some v) (some ps) = some ((k, v) ∷ ps)
pair_onto (some k) (some v) none = none
pair_onto (some k) none ps = none
pair_onto none v ps = none

-- `url.ParseQuery` on the parts between the `&`: the pairs in their order, `none` for an error.
unfoldable pub parse_parts : List Text → Option (List Pair)
unfolding cut
parse_parts [] = some []
parse_parts (p ∷ ps) =
    let rest = parse_parts ps in
    let decoded = pair_onto (query_unescape (cut p).0) (query_unescape (cut p).1) rest in
    if contains (codes ";") p then none else if is_empty p then rest else decoded

-- The keys of the map that `ParseQuery` returns, in the order of `slices.Sort`.
unfoldable pub keys_of : List Pair → List Text
keys_of [] = []
keys_of ((k, v) ∷ ps) = insert_new k (keys_of ps)

-- The values of one key that pass the filter, in the order of the query.
unfoldable pub kept_values : CacheKey → Text → List Pair → List Text
kept_values cfg k [] = []
kept_values cfg k ((j, v) ∷ ps) =
    let rest = kept_values cfg k ps in
    if k ==ₜ j && is_query_param_allowed cfg k v then v ∷ rest else rest

-- One parameter as it is written.
abbrev pub encoded : Pair → Text
encoded kv = query_escape kv.0 ++ (b'=' ∷ query_escape kv.1)

-- The keys in their order, each with its values sorted. A key that keeps no value writes nothing.
unfoldable pub sorted_pairs : CacheKey → List Text → List Pair → List Pair
sorted_pairs cfg [] ps = []
sorted_pairs cfg (k ∷ ks) ps =
    map (λ v. (k, v)) (sort (kept_values cfg k ps)) ++ sorted_pairs cfg ks ps

abbrev pub sorted_query : CacheKey → Option (List Pair) → Text
sorted_query cfg none = []
sorted_query cfg (some ps) = join (codes "&") (map encoded (sorted_pairs cfg (keys_of ps) ps))

-- `buildSortedQueryString`
unfoldable pub build_sorted_query_string : CacheKey → Text → Text
build_sorted_query_string cfg raw = sorted_query cfg (parse_parts (split b'&' raw))

abbrev pub or_raw : Text → Option Text → Text
or_raw raw none = raw
or_raw raw (some t) = t

-- The pairs of the query in their order; what does not decode is taken as it stands.
unfoldable pub raw_pairs : List Text → List Pair
unfolding cut
raw_pairs [] = []
raw_pairs (p ∷ ps) =
    let rest = raw_pairs ps in
    if is_empty p
    then rest
    else (or_raw (cut p).0 (query_unescape (cut p).0), or_raw (cut p).1 (query_unescape (cut p).1))
      ∷ rest

unfoldable pub allowed_pairs : CacheKey → List Pair → List Pair
allowed_pairs cfg [] = []
allowed_pairs cfg ((k, v) ∷ ps) =
    let rest = allowed_pairs cfg ps in
    if is_query_param_allowed cfg k v then (k, v) ∷ rest else rest

-- `buildUnsortedQueryString`
unfoldable pub build_unsorted_query_string : CacheKey → Text → Text
unfolding raw_pairs allowed_pairs
build_unsorted_query_string cfg raw =
    join (codes "&") (map encoded (allowed_pairs cfg (raw_pairs (split b'&' raw))))

-- `buildQueryString`
unfoldable pub build_query_string : CacheKey → Text → Text
unfolding build_sorted_query_string build_unsorted_query_string
build_query_string cfg raw =
    if cfg.exclude_query
    then []
    else if cfg.preserve_query_order
    then build_unsorted_query_string cfg raw
    else build_sorted_query_string cfg raw

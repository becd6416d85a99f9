-- ===== src/Key/Primary.antt =====
-- cache_key.go: the primary key of a request.
pub mod Order
use titip.Prelude.{
  ℕ, ◌-◌, Bool, true, false, not, ◌&&◌, ◌||◌, Option, none, some, List, [], ◌∷◌, ◌++◌, map, length,
  take, ◌==◌, leb, if◌then◌else◌,
}
use titip.Text.{Text, codes, ◌==ₜ◌, join, to_lower, has_prefix, trim_space}
use titip.Text.Order.{sort}
use titip.Http.{Header, get, values, is_empty}
use titip.Http.Name
use titip.Key.{Request, CacheKey}
use titip.Key.Escape.{query_escape}
use titip.Key.Path.{cleaned_path, write_escaped_path}
use titip.Key.Query.{build_query_string}

-- `strings.TrimSuffix`
unfoldable pub trim_suffix : Text → Text → Text
trim_suffix suffix [] = []
trim_suffix suffix (c ∷ cs) =
    let rest = trim_suffix suffix cs in if (c ∷ cs) ==ₜ suffix then [] else c ∷ rest

-- `resolveScheme`
unfoldable pub resolve_scheme : Request → Text
resolve_scheme r =
    if r.is_tls
    then codes "https"
    else if get r.header Name.x_forwarded_proto ==ₜ codes "https"
    then codes "https"
    else if r.url_scheme ==ₜ codes "https"
    then codes "https"
    else codes "http"

-- `normalizeHost`
unfoldable pub normalize_host : Text → Text → Text
unfolding trim_suffix
normalize_host host scheme =
    let h = to_lower host in
    if scheme ==ₜ codes "http"
    then trim_suffix (codes ":80") h
    else if scheme ==ₜ codes "https"
    then trim_suffix (codes ":443") h
    else h

-- A component: its label, its value, and the colon that ends it.
abbrev pub component : Text → Text → Text
component label value = label ++ (value ++ codes ":")

-- The component is left out where the value is empty.
abbrev pub unless_empty : Text → Text → Text
unless_empty label value = if is_empty value then [] else component label value

unfoldable pub host_component : CacheKey → Request → Text
host_component cfg r =
    let host = if is_empty r.host then r.url_host else r.host in
    if cfg.exclude_host
    then []
    else if is_empty host
    then []
    else unless_empty (codes "h=") (normalize_host host (resolve_scheme r))

-- HEAD is GET in a key.
abbrev pub key_method : Text → Text
key_method method = if method ==ₜ codes "HEAD" || is_empty method then codes "GET" else method

unfoldable pub header_components : Header → List Text → Text
header_components h [] = []
header_components h (name ∷ names) =
    let rest = header_components h names in
    let vals = values h name in
    if is_empty vals
    then rest
    else component (codes "he=")
        (to_lower name ++ (b'~' ∷ join (codes ",") (map (λ v. query_escape (trim_space v)) vals)))
      ++ rest

-- `r.Cookie(name)`, where the first cookie of the name counts.
unfoldable pub cookie : List (Text × Text) → Text → Text
cookie [] name = []
cookie ((n, v) ∷ cs) name = let rest = cookie cs name in if n ==ₜ name then v else rest

unfoldable pub cookie_components : List (Text × Text) → List Text → Text
unfolding cookie
cookie_components cs [] = []
cookie_components cs (name ∷ names) =
    let rest = cookie_components cs names in
    let value = cookie cs name in
    if is_empty value
    then rest
    else component (codes "ck=") (name ++ (b'~' ∷ query_escape value)) ++ rest

unfoldable pub query_component : CacheKey → Text → Text
query_component cfg raw =
    if not cfg.exclude_query && not (is_empty raw)
    then unless_empty (codes "qs=") (build_query_string cfg raw)
    else []

-- `generatePrimaryKey`
unfoldable pub generate_primary_key : Request → CacheKey → Text
unfolding host_component header_components cookie_components query_component
generate_primary_key r cfg =
    component (codes "p=") (write_escaped_path (cleaned_path cfg.case_insensitive_path r.path))
    ++ (host_component cfg r
        ++ ((if cfg.include_protocol then component (codes "s=") (resolve_scheme r) else [])
            ++ (query_component cfg r.raw_query
                ++ (component (codes "m=") (key_method r.method)
                    ++ (header_components r.header (sort cfg.included_header_names)
                        ++ cookie_components r.cookies (sort cfg.included_cookie_names))))))

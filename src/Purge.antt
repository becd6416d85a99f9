-- ===== src/Purge.antt =====
-- purge.go: the keys and the patterns of a purge. `url.Parse` is a parameter.
pub mod Covers
pub mod Named
pub mod Run
use titip.Prelude.{
  ℕ, Bool, true, false, not, ◌&&◌, ◌||◌, Option, none, some, List, [], ◌∷◌, ◌++◌, if◌then◌else◌,
}
use titip.Text.{Text, codes, has_prefix, contains}
use titip.Http.{is_empty}
use titip.Key.{CacheKey}
use titip.Key.Path.{cleaned_path, write_escaped_path}
use titip.Key.Query.{build_query_string}
use titip.Key.Primary.{component, normalize_host}

-- What is read of a `url.URL`.
pub record ParsedUrl : Type 0 where
  pub scheme : Text
  pub path : Text
  pub host : Text
  pub raw_query : Text

-- The scheme that the target names, empty for none, and its URL.
pub record Target : Type 0 where
  pub scheme : Text
  pub url : ParsedUrl

-- The keys of a purge: one primary key, or patterns.
pub record Operation : Type 0 where
  pub is_exact : Bool
  pub keys : List Text

abbrev pub scheme_of : Text → Text
scheme_of target =
    if has_prefix (codes "https://") target
    then codes "https"
    else if has_prefix (codes "http://") target
    then codes "http"
    else []

abbrev pub with_scheme : Text → Option ParsedUrl → Option Target
with_scheme s none = none
with_scheme s (some u) = some (record { scheme = s; url = u })

unfoldable pub parse_target : (Text → Option ParsedUrl) → Text → Option Target
parse_target parse target =
    if has_prefix (codes "/") target
    then with_scheme [] (parse target)
    else with_scheme (scheme_of target)
        (parse (if contains (codes "://") target then target else codes "http://" ++ target))

module _ (cfg : CacheKey) (t : Target) where
  abbrev pub target_path : Text
  target_path = write_escaped_path (cleaned_path cfg.case_insensitive_path t.url.path)

  abbrev pub target_host : Text
  target_host = normalize_host t.url.host t.scheme

  abbrev pub knows_host : Bool
  knows_host = not cfg.exclude_host && not (is_empty target_host)

  abbrev pub host_part : Text
  host_part = if knows_host then component (codes "h=") target_host else []

  abbrev pub scheme_part : Text
  scheme_part =
      if cfg.include_protocol && not (is_empty t.scheme)
      then component (codes "s=") t.scheme
      else []

  -- What an exact key and a pattern with a query share, behind the host.
  abbrev pub query_part : Text → Text
  query_part qs = scheme_part ++ (codes "qs=" ++ qs)

  abbrev pub is_plain : Bool
  is_plain = is_empty cfg.included_header_names && is_empty cfg.included_cookie_names

  -- The operation for a target with a query that counts.
  unfoldable pub query_operation : Text → Operation
  query_operation qs =
      if cfg.exclude_host || not (is_empty target_host)
      then (if is_plain
          then record {
            is_exact = true;
            keys =
                (component (codes "p=") target_path
                  ++ (host_part ++ (query_part qs ++ codes ":m=GET:")))
                ∷ [];
          }
          else record {
            is_exact = false;
            keys =
                (component (codes "p=") target_path ++ (host_part ++ (query_part qs ++ codes ":*")))
                ∷ [];
          })
      else record {
        is_exact = false;
        keys =
            (component (codes "p=") target_path ++ (codes "h=*:" ++ (query_part qs ++ codes ":*")))
            ∷ [];
      }

  -- The literal text before the star of a pattern with no query.
  unfoldable pub path_prefix : Text
  path_prefix =
      component (codes "p=") target_path
      ++ (if knows_host then component (codes "h=") target_host ++ scheme_part else [])

  unfoldable pub path_operation : Operation
  unfolding path_prefix
  path_operation = record { is_exact = false; keys = (path_prefix ++ codes "*") ∷ [] }

  -- `buildPurgeOperation` behind the parsing of the target.
  unfoldable pub purge_operation : Operation
  unfolding query_operation path_operation
  purge_operation =
      if not cfg.exclude_query && not (is_empty t.url.raw_query)
      then (if is_empty (build_query_string cfg t.url.raw_query)
          then path_operation
          else query_operation (build_query_string cfg t.url.raw_query))
      else path_operation

  -- `buildPurgePrefixOperation` behind the parsing of the prefix.
  unfoldable pub purge_prefix_operation : List Text
  purge_prefix_operation =
      (codes "p="
        ++ (target_path
            ++ (codes "*"
                ++ (if knows_host
                    then codes ":"
                      ++ (component (codes "h=") target_host ++ (scheme_part ++ codes "*"))
                    else []))))
      ∷ []

-- `buildPurgeOperation`: `none` is an error, and the empty target purges nothing.
unfoldable pub build_purge_operation :
    (Text → Option ParsedUrl) → Text → CacheKey → Option Operation
unfolding parse_target purge_operation
build_purge_operation parse [] cfg = some (record { is_exact = false; keys = [] })
build_purge_operation parse (c ∷ cs) cfg = elim (parse_target parse (c ∷ cs)) [
  | none ↦ none
  | some t ↦ some (purge_operation cfg t)
]

-- `buildPurgePrefixOperation`: `none` is an error, as the empty prefix is.
unfoldable pub build_purge_prefix_operation :
    (Text → Option ParsedUrl) → Text → CacheKey → Option (List Text)
unfolding parse_target purge_prefix_operation
build_purge_prefix_operation parse [] cfg = none
build_purge_prefix_operation parse (c ∷ cs) cfg = elim (parse_target parse (c ∷ cs)) [
  | none ↦ none
  | some t ↦ some (purge_prefix_operation cfg t)
]

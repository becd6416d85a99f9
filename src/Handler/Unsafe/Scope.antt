-- ===== src/Handler/Unsafe/Scope.antt =====
-- handler.go: whose entries a response to an unsafe request can have purged (`sanitizePurgeURI`).
use titip.Prelude.{◌≡◌, refl, true, false, some, [], ◌++◌}
use titip.Text.{Text, codes, contains, has_prefix, trim_space}
use titip.Http.{is_empty}
use titip.Key.{Request}
use titip.Key.Primary.{resolve_scheme}
use titip.Purge.{ParsedUrl, parse_target, scheme_of, with_scheme}
use titip.Purge.Covers.{normalize_nothing}
use titip.Handler.Unsafe.{UrlPackage, is_foreign, sanitize_purge_uri}

module _ (urls : UrlPackage) (r : Request) where
  -- A target that the header of a response may name.
  pub data IsOwn (target : Text) : Type 0 where
    refused : target ≡ [] → IsOwn target
    own_path :
        (path : Text)
        → has_prefix (codes "/") path ≡ true
        → target ≡ resolve_scheme r ++ (codes "://" ++ (r.host ++ path))
        → IsOwn target
    own_host :
        (u : ParsedUrl) → urls.parse target ≡ some u → is_foreign urls r u ≡ false → IsOwn target

  no_host_own : (u : ParsedUrl) → u.host ≡ [] → is_foreign urls r u ≡ false
  unfolding is_foreign is_empty
  no_host_own u e = rw (e, normalize_nothing u.scheme) refl

  -- A URI that is trimmed, begins with no slash, holds no `://`, and has no host as url.Parse reads it,
  -- is let through as it is; the purge then puts `http://` in front of it, and so reads a host in it.
  pub schemeless_reread :
      (uri : Text) (u : ParsedUrl)
      → trim_space uri ≡ uri
      → is_empty uri ≡ false
      → has_prefix (codes "/") uri ≡ false
      → contains (codes "://") uri ≡ false
      → urls.parse uri ≡ some u
      → u.host ≡ []
      → (sanitize_purge_uri urls uri r ≡ uri)
        × (parse_target urls.parse uri
            ≡ with_scheme (scheme_of uri) (urls.parse (codes "http://" ++ uri)))
  unfolding sanitize_purge_uri parse_target
  schemeless_reread uri u trimmed named relative plain parsed hostless = (
    rw (trimmed, named, relative, parsed, no_host_own u hostless) trimmed,
    rw (relative, plain) refl,
  )

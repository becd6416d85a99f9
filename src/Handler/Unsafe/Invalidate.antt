-- ===== src/Handler/Unsafe/Invalidate.antt =====
-- handler.go: what is purged after a request with an unsafe method.
use titip.Prelude.{Bool, false, ◌++◌}
use titip.Text.{Text, codes, ◌==ₜ◌}
use titip.Key.{Request}
use titip.Key.Primary.{resolve_scheme}
use titip.Purge.{ParsedUrl, Target}
use titip.Handler.{Event, purged}
use titip.Handler.Unsafe.{UrlPackage}

-- Is the target purged?
abbrev pub purges : Text → Event → Bool
purges target (purged t) = t ==ₜ target
purges target _ = false

module _ (urls : UrlPackage) (r : Request) where
  -- The URL of the request, in full.
  abbrev pub full_url : Text
  full_url = resolve_scheme r ++ (codes "://" ++ (r.host ++ urls.request_uri r))

  -- The scheme of the request, and what its URL is parsed to.
  abbrev pub own_target : ParsedUrl → Target
  own_target u = record { scheme = resolve_scheme r; url = u }

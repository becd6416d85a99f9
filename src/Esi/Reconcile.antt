-- ===== src/Esi/Reconcile.antt =====
-- esi/processor.go: the headers of an assembled document (`ReconcileHeaders`).
pub mod Length
use titip.Prelude.{
  Bool, true, false, not, ◌||◌, Option, none, some, List, [], ◌∷◌, ◌++◌, if◌then◌else◌, length,
}
use titip.Text.{Text, codes, has_prefix}
use titip.Text.Decimal.{itoa}
use titip.Http.{Header, get, set, add, del, is_empty}
use titip.Http.Name
use titip.Esi.Surrogate.{clean_surrogate_control}
use titip.Esi.Execute.{Processed}

-- The weak form of an ETag.
abbrev pub weakened : Text → Text
weakened etag =
    if has_prefix (codes "W/") etag || has_prefix (codes "w/") etag
    then etag
    else codes "W/" ++ etag

-- The validators of the parent do not stand for the assembled document.
unfoldable pub reconcile_validators : Bool → Header → Header
reconcile_validators preserve h =
    if preserve
    then (if is_empty (get h Name.etag) then h else set h Name.etag (weakened (get h Name.etag)))
    else del (del h Name.etag) Name.last_modified

unfoldable pub reconcile_length : Text → Header → Header
reconcile_length body h =
    if is_empty (get h Name.content_length)
    then h
    else set h Name.content_length (itoa (length body))

unfoldable pub add_cookies : List Text → Header → Header
add_cookies [] h = h
add_cookies (c ∷ cs) h = add_cookies cs (add h Name.set_cookie c)

-- `ReconcileHeaders`
unfoldable pub reconcile_headers : Bool → Header → Option Processed → Header
unfolding reconcile_validators reconcile_length add_cookies
reconcile_headers preserve h none = reconcile_validators preserve (clean_surrogate_control h)
reconcile_headers preserve h (some p) =
    add_cookies p.set_cookies
      (reconcile_length p.body (reconcile_validators preserve (clean_surrogate_control h)))

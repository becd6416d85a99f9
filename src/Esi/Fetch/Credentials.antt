-- ===== src/Esi/Fetch/Credentials.antt =====
-- esi/processor.go: where the cookies and the credentials of a client go.
use titip.Prelude.{◌≡◌, false, List}
use titip.Text.{Text, codes, ◌==ₜ◌}
use titip.Http.{Header, values, canonical_header_key}
use titip.Key.{Request}
use titip.Esi.Fetch.{add_all, plain_header}

abbrev pub cookie_name : Text
cookie_name = codes "Cookie"

abbrev pub authorization_name : Text
authorization_name = codes "Authorization"

-- Two names that are not one field.
abbrev Differ : Text → Text → Type 0
Differ name other = (canonical_header_key name ==ₜ canonical_header_key other) ≡ false

module _ (parent : Request) where
  abbrev with_cookies : Header
  with_cookies = add_all cookie_name (values parent.header cookie_name) (plain_header parent)

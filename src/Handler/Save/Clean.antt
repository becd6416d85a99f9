-- ===== src/Handler/Save/Clean.antt =====
-- handler.go: the header fields that are stored.
use titip.Prelude.{◌≡◌, ◌≢◌, false, not, ◌&&◌, List, [], ◌∷◌}
use titip.Text.{Text, codes}
use titip.Http.{Header, canonical_header_key, is_empty}
use titip.Handler.Save.{is_hop_by_hop_header, named}

-- A name that may be stored: not that of a field for one connection, not Set-Cookie, and not one
-- that Connection lists.
pub record IsEndToEnd (tokens : List Text) (k : Text) : Type 0 where
  pub no_hop : is_hop_by_hop_header (canonical_header_key k) ≡ false
  pub no_cookie : canonical_header_key k ≢ codes "Set-Cookie"
  pub not_listed :
      (not (is_empty (canonical_header_key k)) && named (canonical_header_key k) tokens) ≡ false

-- Every field of the header has such a name.
abbrev pub EndToEnd : List Text → Header → Type 0
EndToEnd tokens [] = Unit
EndToEnd tokens ((k, vs) ∷ h) = IsEndToEnd tokens k × EndToEnd tokens h

-- ===== src/Key/Escape.antt =====
-- net/url as cache_key.go uses it: `PathEscape`, `QueryEscape` and `QueryUnescape`.
pub mod RoundTrip
pub mod Safe
use titip.Prelude.{
  ℕ, ◌+◌, ◌-◌, ◌*◌, ◌/◌, ◌%◌, Bool, true, false, ◌&&◌, ◌||◌, Option, none, some, [], ◌∷◌, ltb, leb,
  ◌==◌, if◌then◌else◌,
}
use titip.Text.{Text}

abbrev pub is_unreserved : ℕ → Bool
is_unreserved c =
    leb b'a' c && leb c b'z'
    || leb b'A' c && leb c b'Z'
    || leb b'0' c && leb c b'9'
    || c == b'-'
    || c == b'_'
    || c == b'.'
    || c == b'~'

-- The bytes that `PathEscape` leaves.
abbrev pub is_path_byte : ℕ → Bool
is_path_byte c =
    is_unreserved c || c == b'$' || c == b'&' || c == b'+' || c == b':' || c == b'=' || c == b'@'

abbrev pub upper_hex : ℕ → ℕ
upper_hex n = if ltb n 10 then b'0' + n else b'A' + (n - 10)

-- `url.PathEscape`
unfoldable pub path_escape : Text → Text
path_escape [] = []
path_escape (c ∷ cs) =
    let rest = path_escape cs in
    if is_path_byte c then c ∷ rest else b'%' ∷ upper_hex (c / 16) ∷ upper_hex (c % 16) ∷ rest

-- `url.QueryEscape`
unfoldable pub query_escape : Text → Text
query_escape [] = []
query_escape (c ∷ cs) =
    let rest = query_escape cs in
    if is_unreserved c
    then c ∷ rest
    else if c == b' '
    then b'+' ∷ rest
    else b'%' ∷ upper_hex (c / 16) ∷ upper_hex (c % 16) ∷ rest

-- The value of a hexadecimal digit.
abbrev pub unhex : ℕ → Option ℕ
unhex c =
    if leb b'0' c && leb c b'9'
    then some (c - b'0')
    else if leb b'a' c && leb c b'f'
    then some (c - b'a' + 10)
    else if leb b'A' c && leb c b'F'
    then some (c - b'A' + 10)
    else none

abbrev pub onto : ℕ → Option Text → Option Text
onto c none = none
onto c (some t) = some (c ∷ t)

-- A decoded byte, where both digits are hexadecimal.
abbrev pub byte_onto : Option ℕ → Option ℕ → Option Text → Option Text
byte_onto (some high) (some low) t = onto (high * 16 + low) t
byte_onto (some high) none t = none
byte_onto none low t = none

-- `url.QueryUnescape`, where `none` is an error.
unfoldable pub query_unescape : Text → Option Text
query_unescape [] = some []
query_unescape (c ∷ []) = if c == b'%' then none else some ((if c == b'+' then b' ' else c) ∷ [])
query_unescape (c ∷ d ∷ []) =
    let rest = query_unescape (d ∷ []) in
    if c == b'%' then none else onto (if c == b'+' then b' ' else c) rest
query_unescape (c ∷ h ∷ l ∷ cs) =
    let decoded = query_unescape cs in
    let rest = query_unescape (h ∷ l ∷ cs) in
    if c == b'%'
    then byte_onto (unhex h) (unhex l) decoded
    else onto (if c == b'+' then b' ' else c) rest

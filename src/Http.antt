-- ===== src/Http.antt =====
-- `http.Header` and the header names of header.go. A header map is an association list under
-- canonical keys; where Go ranges over the map, the list is read from its head.
pub mod Name
pub mod Laws
use titip.Prelude.{
  ℕ, ◌+◌, ◌≡◌, refl, Bool, true, false, not, ◌&&◌, ◌||◌, Option, none, some, List, [], ◌∷◌, ◌++◌,
  leb, ◌==◌, if◌then◌else◌, all, any,
}
use titip.Text.{Text, codes, ◌==ₜ◌, equal_fold, upper_byte, lower_byte}

abbrev pub Header : Type 0
Header = List (Text × List Text)

-- The bytes of a field name by RFC 9110; the others make `CanonicalHeaderKey` return its argument.
is_token_byte : ℕ → Bool
is_token_byte c =
    leb b'a' c && leb c b'z'
    || leb b'A' c && leb c b'Z'
    || leb b'0' c && leb c b'9'
    || any (λ d. c == d) (codes "!#$%&*+-.^_`|~")
    || c == 39

capitals : Bool → Text → Text
unfolding upper_byte lower_byte
capitals first [] = []
capitals first (c ∷ cs) = (if first then upper_byte c else lower_byte c) ∷ capitals (c == b'-') cs

-- `http.CanonicalHeaderKey`
unfoldable pub canonical_header_key : Text → Text
unfolding is_token_byte capitals
canonical_header_key k = if all is_token_byte k then capitals true k else k

unfoldable pub find_key : Text → Header → List Text
unfolding ◌==ₜ◌
find_key k [] = []
find_key k ((j, vs) ∷ h) = if j ==ₜ k then vs else find_key k h

-- `h.Values(key)`
unfoldable pub values : Header → Text → List Text
unfolding find_key canonical_header_key
values h key = find_key (canonical_header_key key) h

-- `h.Get(key)`
unfoldable pub get : Header → Text → Text
unfolding values
get h key = elim (values h key) [ [] ↦ [] | v ∷ vs ↦ v ]

-- Tests for the empty text and the empty list.
unfoldable pub is_empty {ℓ} : {A : Type ℓ} → List A → Bool
is_empty [] = true
is_empty (x ∷ xs) = false

unfoldable pub put_key : Text → List Text → Header → Header
unfolding ◌==ₜ◌
put_key k vs [] = (k, vs) ∷ []
put_key k vs ((j, ws) ∷ h) = if j ==ₜ k then (k, vs) ∷ h else (j, ws) ∷ put_key k vs h

drop_key : Text → Header → Header
unfolding ◌==ₜ◌
drop_key k [] = []
drop_key k ((j, vs) ∷ h) = let rest = drop_key k h in if j ==ₜ k then rest else (j, vs) ∷ rest

-- `h.Set(key, v)`
unfoldable pub set : Header → Text → Text → Header
unfolding put_key canonical_header_key
set h key v = put_key (canonical_header_key key) (v ∷ []) h

-- `h.Add(key, v)`
unfoldable pub add : Header → Text → Text → Header
unfolding put_key values canonical_header_key
add h key v = put_key (canonical_header_key key) (values h key ++ (v ∷ [])) h

-- `h.Del(key)`
unfoldable pub del : Header → Text → Header
unfolding drop_key canonical_header_key
del h key = drop_key (canonical_header_key key) h

fold_key : Text → Header → List Text
unfolding equal_fold
fold_key k [] = []
fold_key k ((j, vs) ∷ h) = if equal_fold j k then vs else fold_key k h

-- `getHeaderValues` of header.go
unfoldable pub get_header_values : Header → Text → List Text
unfolding values fold_key
get_header_values h key = elim (values h key) [ [] ↦ fold_key key h | v ∷ vs ↦ v ∷ vs ]

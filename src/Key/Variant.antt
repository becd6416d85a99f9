-- ===== src/Key/Variant.antt =====
-- cache_key.go: the key of a variant, from the Vary headers.
pub mod Order
use titip.Prelude.{ℕ, Bool, true, false, ◌||◌, List, [], ◌∷◌, ◌++◌, map, ◌==◌, if◌then◌else◌}
use titip.Text.{Text, codes, ◌==ₜ◌, split, join, to_lower, trim_space}
use titip.Text.Order.{sort}
use titip.Http.{Header, values, is_empty}

-- `isSortableVaryHeader`
unfoldable pub is_sortable_vary_header : Text → Bool
is_sortable_vary_header name =
    let n = to_lower (trim_space name) in
    n ==ₜ codes "accept-encoding" || n ==ₜ codes "accept-language" || n ==ₜ codes "accept"

unfoldable pub trimmed_tokens : List Text → List Text
trimmed_tokens [] = []
trimmed_tokens (t ∷ ts) =
    let rest = trimmed_tokens ts in if is_empty (trim_space t) then rest else trim_space t ∷ rest

-- The tokens of every value of the header.
unfoldable pub tokens_of : List Text → List Text
unfolding trimmed_tokens
tokens_of [] = []
tokens_of (v ∷ vs) = trimmed_tokens (split b',' v) ++ tokens_of vs

-- The value of one header in the key.
unfoldable pub vary_value : Text → List Text → Text
unfolding tokens_of is_sortable_vary_header
vary_value name vals =
    if is_sortable_vary_header name
    then join (codes ",") (sort (tokens_of vals))
    else join (codes ",") (map (λ v. trim_space v) (sort vals))

-- The parts of the key, one for each name that is not blank.
unfoldable pub vary_parts : Header → List Text → List Text
vary_parts h [] = []
vary_parts h (name ∷ names) =
    let rest = vary_parts h names in
    let n = to_lower (trim_space name) in
    if is_empty n then rest else (n ++ (b'=' ∷ vary_value n (values h n))) ∷ rest

-- `generateVariantKey`
unfoldable pub generate_variant_key : Header → List Text → Text
unfolding vary_parts
generate_variant_key h names = join (codes "|") (vary_parts h (sort names))

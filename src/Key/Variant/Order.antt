-- ===== src/Key/Variant/Order.antt =====
-- cache_key.go: the order of names and of tokens in the key of a variant.
use mathlib.Core.List.{Permᴰ}
use titip.Prelude.{◌≡◌, refl, true, false, Bool, List, [], ◌∷◌, Bool-cases, inl, inr}
use titip.Text.{Text, to_lower, trim_space}
use titip.Text.Order.{sort, sort-Permᴰ}
use titip.Http.{Header, values}
use titip.Key.Variant.{
  is_sortable_vary_header, tokens_of, vary_value, vary_parts, generate_variant_key,
}

-- The values of one header agree up to their order, or, where the header is sortable, up to the
-- order of their tokens.
abbrev pub Agree : Bool → List Text → List Text → Type 0
Agree true vs ws = Permᴰ (tokens_of vs) (tokens_of ws)
Agree false vs ws = Permᴰ vs ws

abbrev pub SameValues : Header → Header → List Text → Type 0
SameValues h g [] = Unit
SameValues h g (name ∷ names) =
    let n = to_lower (trim_space name) in
    Agree (is_sortable_vary_header n) (values h n) (values g n) × SameValues h g names

vary_value_same :
    (name : Text) (vs ws : List Text)
    → Agree (is_sortable_vary_header name) vs ws
    → vary_value name vs ≡ vary_value name ws
unfolding vary_value
vary_value_same name vs ws h = elim (Bool-cases (is_sortable_vary_header name)) [
  | inl e ↦ rw (e, sort-Permᴰ (tokens_of vs) (tokens_of ws) (rw e at h)) refl
  | inr e ↦ rw (e, sort-Permᴰ vs ws (rw e at h)) refl
]

vary_parts_same :
    (h g : Header) (names : List Text)
    → SameValues h g names
    → vary_parts h names ≡ vary_parts g names
unfolding vary_parts
vary_parts_same h g [] s = refl
vary_parts_same h g (name ∷ names) s =
    let n = to_lower (trim_space name) in
    rw (vary_value_same n (values h n) (values g n) s.0, vary_parts_same h g names s.1) refl

-- Two requests have the same variant key where the headers that Vary names agree in them, up to the
-- order of their values and, for Accept, Accept-Encoding and Accept-Language, of their tokens; the
-- order of the names in Vary, and every other header, do not count.
pub generate_variant_key-SameValues :
    (h g : Header) (names names' : List Text)
    → Permᴰ names names'
    → SameValues h g (sort names')
    → generate_variant_key h names ≡ generate_variant_key g names'
unfolding generate_variant_key
generate_variant_key-SameValues h g names names' p s =
    rw (sort-Permᴰ names names' p, vary_parts_same h g (sort names') s) refl

-- ===== src/Text.antt =====
-- Go strings and byte slices as lists of bytes, and the functions of `strings`, `bytes` and
-- `strconv` that the program calls. Letters and spaces outside ASCII are not folded or trimmed.
pub mod Order
pub mod Decimal
use Prim.Native.Char.{code}
use titip.Prelude.{
  ℕ, suc, ◌+◌, ◌-◌, ◌*◌, ◌<◌, ◌≤◌, String, ◌≡◌, ◌↔◌, inl, inr, Bool, true, false, ◌&&◌, ◌||◌,
  Option, none, some, List, [], ◌∷◌, ◌++◌, reverse, arith, leb, ◌==◌, if◌then◌else◌, length, drop,
  Option-cases,
}

abbrev pub Text : Type 0
Text = List ℕ

-- The bytes of a literal; every literal of the model is ASCII.
abbrev pub codes : String → Text
codes String.[] = []
codes (String.◌∷◌ c s) = code c ∷ codes s

infix 50 ◌==ₜ◌
unfoldable pub ◌==ₜ◌ : Text → Text → Bool
[] ==ₜ [] = true
(x ∷ xs) ==ₜ (y ∷ ys) = x == y && xs ==ₜ ys
_ ==ₜ _ = false

pub ==ₜ_iff : (a b : Text) → ((a ==ₜ b) ≡ true) ↔ (a ≡ b)
unfolding ◌==ₜ◌
==ₜ_iff (x ∷ a) (y ∷ b) = ground (arith, ==ₜ_iff a b)
==ₜ_iff _ _ = ground arith

-- `unicode.IsSpace` below 128.
unfoldable pub is_space : ℕ → Bool
is_space c = c == b' ' || leb 9 c && leb c 13

trim_left : Text → Text
unfolding is_space
trim_left [] = []
trim_left (c ∷ cs) = if is_space c then trim_left cs else c ∷ cs

-- `strings.TrimSpace`
unfoldable pub trim_space : Text → Text
unfolding trim_left
trim_space t = reverse (trim_left (reverse (trim_left t)))

unfoldable pub lower_byte : ℕ → ℕ
lower_byte c = if leb b'A' c && leb c b'Z' then c + 32 else c

unfoldable pub upper_byte : ℕ → ℕ
upper_byte c = if leb b'a' c && leb c b'z' then c - 32 else c

-- `strings.ToLower`
unfoldable pub to_lower : Text → Text
unfolding lower_byte
to_lower [] = []
to_lower (c ∷ cs) = lower_byte c ∷ to_lower cs

-- `strings.EqualFold`
unfoldable pub equal_fold : Text → Text → Bool
unfolding to_lower ◌==ₜ◌
equal_fold a b = to_lower a ==ₜ to_lower b

onto_head : ℕ → List Text → List Text
onto_head c [] = (c ∷ []) ∷ []
onto_head c (t ∷ ts) = (c ∷ t) ∷ ts

-- `strings.SplitSeq` with a separator of one byte.
unfoldable pub split : ℕ → Text → List Text
unfolding onto_head
split sep [] = [] ∷ []
split sep (c ∷ cs) = let rest = split sep cs in if c == sep then [] ∷ rest else onto_head c rest

-- `strings.Join`
unfoldable pub join : Text → List Text → Text
join sep [] = []
join sep (t ∷ []) = t
join sep (t ∷ u ∷ ts) = t ++ (sep ++ join sep (u ∷ ts))

-- `strings.HasPrefix`
unfoldable pub has_prefix : Text → Text → Bool
has_prefix [] t = true
has_prefix (p ∷ ps) [] = false
has_prefix (p ∷ ps) (c ∷ cs) = p == c && has_prefix ps cs

-- `strings.TrimPrefix`
unfoldable pub trim_prefix : Text → Text → Text
unfolding has_prefix
trim_prefix p t = if has_prefix p t then drop (length p) t else t

-- `bytes.Index`: the offset of the first occurrence.
unfoldable pub index : Text → Text → Option ℕ
unfolding has_prefix
index p [] = if has_prefix p [] then some 0 else none
index p (c ∷ cs) =
    let later = index p cs in
    if has_prefix p (c ∷ cs) then some 0 else elim later [ none ↦ none | some n ↦ some (suc n) ]

-- `strings.Contains`
unfoldable pub contains : Text → Text → Bool
unfolding index
contains p t = elim (index p t) [ none ↦ false | some _ ↦ true ]

-- `bytes.IndexByte`
unfoldable pub index_byte : ℕ → Text → Option ℕ
index_byte b [] = none
index_byte b (c ∷ cs) =
    let later = index_byte b cs in
    if c == b then some 0 else elim later [ none ↦ none | some n ↦ some (suc n) ]

is_digit : ℕ → Bool
is_digit c = leb b'0' c && leb c b'9'

digits_onto : ℕ → Text → Option ℕ
unfolding is_digit
digits_onto n [] = some n
digits_onto n (c ∷ cs) = if is_digit c then digits_onto (n * 10 + (c - b'0')) cs else none

-- A run of decimal digits with no sign, of any size: the part that `ParseUint` and `ParseInt` share.
unfoldable pub decimal : Text → Option ℕ
unfolding digits_onto
decimal [] = none
decimal (c ∷ cs) = digits_onto 0 (c ∷ cs)

pub has_prefix-length : (p t : Text) → has_prefix p t ≡ true → length p ≤ length t
unfolding has_prefix
has_prefix-length [] t h = omega arith
has_prefix-length (p ∷ ps) [] h = cc
has_prefix-length (p ∷ ps) (c ∷ cs) h = ground (arith, has_prefix-length ps cs)

-- A match lies inside the text.
pub index-bound : (p t : Text) (n : ℕ) → index p t ≡ some n → n + length p ≤ length t
unfolding index
index-bound p [] n h = ground (arith, has_prefix-length p [])
index-bound p (c ∷ cs) n h = elim (Option-cases (index p cs)) [
  | inl e ↦ ground (arith, has_prefix-length p (c ∷ cs))
  | inr (m, e) ↦ ground (arith, has_prefix-length p (c ∷ cs), index-bound p cs m e)
]

pub index_byte-bound : (b : ℕ) (t : Text) (n : ℕ) → index_byte b t ≡ some n → n < length t
unfolding index_byte
index_byte-bound b [] n h = cc
index_byte-bound b (c ∷ cs) n h = elim (Option-cases (index_byte b cs)) [
  | inl e ↦ ground arith
  | inr (m, e) ↦ ground (arith, index_byte-bound b cs m e)
]

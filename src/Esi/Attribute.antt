-- ===== src/Esi/Attribute.antt =====
-- esi/scanner.go: the end of an opening tag, and the attributes in it.
use titip.Prelude.{
  ℕ, zero, suc, ◌+◌, ◌<◌, ◌≤◌, ◌≡◌, ◌≢◌, refl, ◌⊎◌, inl, inr, Bool, true, false, not, ◌&&◌, ◌||◌,
  Option, none, some, [], ◌∷◌, arith, ltb, leb, ◌==◌, if◌then◌else◌, length, get_elem?, take, drop,
}
use titip.Text.{Text, index, index_byte}
use titip.Esi.Fragment.{is_ascii_whitespace}

abbrev is_quote : ℕ → Bool
is_quote c = c == b'"' || c == 39

-- The `inQuote` variable after the byte `c`; 0 stands for no quote.
next_quote : ℕ → ℕ → ℕ
next_quote q c = if q == 0 then (if is_quote c then c else 0) else if c == q then 0 else q

-- The loop of `scanTagHeaderEnd` at offset `i`, on the bytes from there; `prev` is the byte before.
pub header_end : ℕ → ℕ → ℕ → Text → Option (ℕ × Bool)
unfolding next_quote
header_end q prev i [] = none
header_end q prev i (c ∷ cs) =
    let rest = header_end (next_quote q c) c (suc i) cs in
    if q == 0 && c == b'>' then some (suc i, prev == b'/') else rest

unfoldable pub scan_tag_header_end : Text → ℕ → Option (ℕ × Bool)
unfolding header_end
scan_tag_header_end b tag_start = header_end 0 b'<' (suc tag_start) (drop (suc tag_start) b)

pub header_end-bound :
    (q prev i : ℕ) (t : Text) (e : ℕ) (closing : Bool)
    → header_end q prev i t ≡ some (e, closing)
    → (i < e) × (e ≤ i + length t)
unfolding header_end
header_end-bound q prev i [] e closing h = cc
header_end-bound q prev i (c ∷ cs) e closing h =
    ground (arith, header_end-bound (next_quote q c) c (suc i) cs e closing)

skip_whitespace : Text → Text
unfolding is_ascii_whitespace
skip_whitespace [] = []
skip_whitespace (c ∷ cs) = if is_ascii_whitespace c then skip_whitespace cs else c ∷ cs

-- At a `/` in an unquoted value: does the tag end here?
closes_tag : Text → Bool
closes_tag [] = true
closes_tag (c ∷ cs) = c == b'>'

unquoted : Text → Text
unfolding is_ascii_whitespace closes_tag
unquoted [] = []
unquoted (c ∷ cs) =
    if is_ascii_whitespace c || c == b'>' || (c == b'/' && closes_tag cs)
    then []
    else c ∷ unquoted cs

-- The bytes before the quote, or all of them where it is not closed.
quoted : ℕ → Text → Text
quoted q t = elim (index_byte q t) [ none ↦ t | some n ↦ take n t ]

-- One round of the loop of `extractAttributeRaw`.
pub data Round : Type 0 where
  absent : Round
  again : ℕ → Round
  found : Text → Round

read_value : Text → Round
unfolding quoted unquoted
read_value [] = absent
read_value (q ∷ cs) = if is_quote q then found (quoted q cs) else found (unquoted (q ∷ cs))

-- `rest` is the header from the first byte behind the name that is no whitespace.
at_equals : ℕ → Text → Round
unfolding read_value skip_whitespace
at_equals after [] = again after
at_equals after (c ∷ cs) = if c == b'=' then read_value (skip_whitespace cs) else again after

valid_before : Text → ℕ → Bool
unfolding is_ascii_whitespace
valid_before header zero = true
valid_before header (suc n) = elim (get_elem? header n) [
  | none ↦ false
  | some c ↦ is_ascii_whitespace c
]

at_name : Text → Text → ℕ → Round
unfolding at_equals valid_before
at_name header name start =
    let after = start + length name in
    if not (valid_before header start) || leb (length header) after
    then again after
    else at_equals after (skip_whitespace (drop after header))

pub attribute_round : Text → Text → ℕ → Round
unfolding at_name
attribute_round header name idx = elim (index name (drop idx header)) [
  | none ↦ absent
  | some m ↦ at_name header name (idx + m)
]

-- The loop of `extractAttributeRaw` from `idx`. The value [] is Go's nil too: the callers test the
-- length. `none` means that the fuel ran out.
pub attribute_loop : ℕ → Text → Text → ℕ → Option Text
attribute_loop zero header name idx = none
attribute_loop (suc f) header name idx = elim (ltb idx (length header)) [
  | false ↦ some []
  | true ↦ elim (attribute_round header name idx) [
    | absent ↦ some []
    | again next ↦ attribute_loop f header name next
    | found v ↦ some v
  ]
]

unfoldable pub extract_attribute : Text → Text → Text
unfolding attribute_loop attribute_round
extract_attribute header name = elim (attribute_loop (suc (length header)) header name 0) [
  | none ↦ []
  | some v ↦ v
]

-- A round that goes on has moved past the name.
attribute_round-again :
    (header name : Text) (idx next : ℕ)
    → attribute_round header name idx ≡ again next
    → idx + length name ≤ next
unfolding attribute_round
attribute_round-again header name idx next h = ground arith

Round-cases :
    (r : Round) → (r ≡ absent) ⊎ ((next : ℕ) × (r ≡ again next)) ⊎ ((v : Text) × (r ≡ found v))
Round-cases absent = inl refl
Round-cases (again next) = inr (inl (next, refl))
Round-cases (found v) = inr (inr (v, refl))

-- The loop of `extractAttributeRaw` ends by itself: `len(tagHeader) + 1` rounds are enough.
pub attribute_loop-ne-none :
    (f : ℕ) (header name : Text) (idx : ℕ)
    → 0 < length name
    → 0 < f
    → length header < f + idx
    → attribute_loop f header name idx ≢ none
unfolding attribute_loop
attribute_loop-ne-none zero header name idx p q h = elim q [ ]
attribute_loop-ne-none (suc f) header name idx p q h =
    elim (Round-cases (attribute_round header name idx)) [
      | inl e ↦ ground (arith, e)
      | inr (inl (next, e)) ↦ ground (
        arith,
        e,
        attribute_round-again header name idx next e,
        attribute_loop-ne-none f header name next,
      )
      | inr (inr (v, e)) ↦ ground (arith, e)
    ]

-- ===== src/Key/Escape/RoundTrip.antt =====
-- net/url: decoding what `QueryEscape` writes.
use titip.Prelude.{
  ℕ, ◌<◌, ◌/◌, ◌%◌, ◌≡◌, refl, ap, false, some, [], ◌∷◌, arith, ◌==◌, if◌then◌else◌, Bool-cases,
  inl, inr,
}
use titip.Text.{Text}
use titip.Key.Escape.{is_unreserved, upper_hex, query_escape, unhex, onto, query_unescape}

-- The values of a Go byte.
abbrev pub IsBytes : Text → Type 0
IsBytes [] = Unit
IsBytes (c ∷ cs) = (c < 256) × IsBytes cs

unhex-upper_hex : (n : ℕ) → n < 16 → unhex (upper_hex n) ≡ some n
unhex-upper_hex n h = ground arith

unescape_plain :
    (c : ℕ) (t : Text)
    → (c == b'%') ≡ false
    → query_unescape (c ∷ t) ≡ onto (if c == b'+' then b' ' else c) (query_unescape t)
unfolding query_unescape
unescape_plain c [] h = ground arith
unescape_plain c (d ∷ []) h = ground arith
unescape_plain c (d ∷ e ∷ t) h = ground arith

unescape_byte :
    (c : ℕ) (t : Text)
    → c < 256
    → query_unescape (b'%' ∷ upper_hex (c / 16) ∷ upper_hex (c % 16) ∷ t)
      ≡ onto c (query_unescape t)
unfolding query_unescape
unescape_byte c t h =
    rw (unhex-upper_hex (c / 16) (omega arith), unhex-upper_hex (c % 16) (omega arith))
      (ap (λ n. onto n (query_unescape t)) (omega arith))

-- `QueryUnescape` reads back what `QueryEscape` writes, for every string of bytes.
pub query_unescape-query_escape : (t : Text) → IsBytes t → query_unescape (query_escape t) ≡ some t
unfolding query_escape
query_unescape-query_escape [] h = unfold query_unescape in refl
query_unescape-query_escape (c ∷ t) h = elim (Bool-cases (is_unreserved c)) [
  | inl e ↦ ground (arith, e, unescape_plain c (query_escape t), query_unescape-query_escape t h.1)
  | inr e ↦ elim (Bool-cases (c == b' ')) [
    | inl k ↦
        ground
          (arith, e, k, unescape_plain b'+' (query_escape t), query_unescape-query_escape t h.1)
    | inr k ↦
        ground
          (arith, e, k, unescape_byte c (query_escape t) h.0, query_unescape-query_escape t h.1)
  ]
]

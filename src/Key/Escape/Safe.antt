-- ===== src/Key/Escape/Safe.antt =====
-- The bytes of an escaped text.
use titip.Prelude.{
  ℕ, ◌<◌, ◌/◌, ◌%◌, ◌≡◌, refl, true, ◌⊎◌, ◌≢◌, [], ◌∷◌, arith, ◌==◌, Bool-cases, inl, inr,
}
use titip.Text.{Text}
use titip.Key.Escape.{is_unreserved, is_path_byte, upper_hex, path_escape, query_escape}
use titip.Key.Escape.RoundTrip.{IsBytes}

-- Every byte of a text.
abbrev pub Each : (ℕ → Type 0) → Text → Type 0
Each P [] = Unit
Each P (c ∷ cs) = P c × Each P cs

-- No byte that ends a component of a key, joins the parts of a query or of the headers, or is special in a pattern.
pub record IsSafe (c : ℕ) : Type 0 where
  pub no_colon : c ≢ b':'
  pub no_equals : c ≢ b'='
  pub no_and : c ≢ b'&'
  pub no_comma : c ≢ b','
  pub no_star : c ≢ b'*'
  pub no_question : c ≢ b'?'
  pub no_bracket : c ≢ b'['

unreserved-IsSafe : (c : ℕ) → is_unreserved c ≡ true → IsSafe c
unreserved-IsSafe c h = record {
  no_colon = ground arith;
  no_equals = ground arith;
  no_and = ground arith;
  no_comma = ground arith;
  no_star = ground arith;
  no_question = ground arith;
  no_bracket = ground arith;
}

upper_hex_unreserved : (n : ℕ) → n < 16 → is_unreserved (upper_hex n) ≡ true
upper_hex_unreserved n h = ground arith

sign-IsSafe : (c : ℕ) → (c ≡ b'%') ⊎ (c ≡ b'+') → IsSafe c
sign-IsSafe c h = record {
  no_colon = ground arith;
  no_equals = ground arith;
  no_and = ground arith;
  no_comma = ground arith;
  no_star = ground arith;
  no_question = ground arith;
  no_bracket = ground arith;
}

digit-IsSafe : (n : ℕ) → n < 16 → IsSafe (upper_hex n)
digit-IsSafe n h = unreserved-IsSafe (upper_hex n) (upper_hex_unreserved n h)

-- What `QueryEscape` writes for a string of bytes holds no delimiter of a key and no special character of a pattern.
pub query_escape-IsSafe : (t : Text) → IsBytes t → Each IsSafe (query_escape t)
unfolding query_escape
query_escape-IsSafe [] h = tt
query_escape-IsSafe (c ∷ t) h = elim (Bool-cases (is_unreserved c)) [
  | inl e ↦ rw e (unreserved-IsSafe c e, query_escape-IsSafe t h.1)
  | inr e ↦ elim (Bool-cases (c == b' ')) [
    | inl k ↦ rw (e, k) (sign-IsSafe b'+' (inr refl), query_escape-IsSafe t h.1)
    | inr k ↦
        rw (e, k)
          (
            sign-IsSafe b'%' (inl refl),
            (
              digit-IsSafe (c / 16) (omega (arith, h.0)),
              (digit-IsSafe (c % 16) (omega arith), query_escape-IsSafe t h.1),
            ),
          )
  ]
]

-- No special character of a pattern, and no slash.
abbrev pub NoGlob : ℕ → Type 0
NoGlob c = (c ≢ b'*') × (c ≢ b'?') × (c ≢ b'[') × (c ≢ b'/')

path_byte-NoGlob : (c : ℕ) → is_path_byte c ≡ true → NoGlob c
path_byte-NoGlob c h = (ground arith, ground arith, ground arith, ground arith)

digit-NoGlob : (n : ℕ) → n < 16 → NoGlob (upper_hex n)
digit-NoGlob n h = (ground arith, ground arith, ground arith, ground arith)

-- What `PathEscape` writes for a string of bytes holds no special character of a pattern, and no
-- slash.
pub path_escape-NoGlob : (t : Text) → IsBytes t → Each NoGlob (path_escape t)
unfolding path_escape
path_escape-NoGlob [] h = tt
path_escape-NoGlob (c ∷ t) h = elim (Bool-cases (is_path_byte c)) [
  | inl e ↦ rw e (path_byte-NoGlob c e, path_escape-NoGlob t h.1)
  | inr e ↦ rw e (
    (ground arith, ground arith, ground arith, ground arith),
    (
      digit-NoGlob (c / 16) (omega (arith, h.0)),
      (digit-NoGlob (c % 16) (omega arith), path_escape-NoGlob t h.1),
    ),
  )
]

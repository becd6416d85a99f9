-- ===== src/Text/Decimal.antt =====
-- `strconv.Itoa` of a number that is not negative, and its round trip.
use titip.Prelude.{
  ◌≢◌, ◌-◌, ℕ, zero, suc, ◌+◌, ◌*◌, ◌/◌, ◌%◌, ◌<◌, ◌≡◌, refl, ap, ◌∙◌, some, [], ◌∷◌, ltb,
  if◌then◌else◌, arith, Bool-cases, inl, inr,
}
use titip.Text.{Text, digits_onto, decimal}

-- The digits of a number in front of a text; each round of the fuel writes one.
itoa_onto : ℕ → ℕ → Text → Text
itoa_onto zero n acc = acc
itoa_onto (suc f) n acc =
    let rest = itoa_onto f (n / 10) ((b'0' + n % 10) ∷ acc) in
    if ltb n 10 then (b'0' + n) ∷ acc else rest

-- A number has fewer digits than its value and one.
unfoldable pub itoa : ℕ → Text
unfolding itoa_onto
itoa n = itoa_onto (suc n) n []

digit_value : (n d : ℕ) → n * 10 + (b'0' + d - b'0') ≡ n * 10 + d
digit_value n d = omega arith

digits_onto-digit :
    (n d : ℕ) (acc : Text)
    → d < 10
    → digits_onto n ((b'0' + d) ∷ acc) ≡ digits_onto (n * 10 + d) acc
unfolding digits_onto
digits_onto-digit n d acc h = ground (arith, ap (λ m. digits_onto m acc) (digit_value n d))

digits_onto-itoa :
    (f n : ℕ) (acc : Text) → n < f → digits_onto 0 (itoa_onto f n acc) ≡ digits_onto n acc
unfolding itoa_onto
digits_onto-itoa zero n acc h = elim h [ ]
digits_onto-itoa (suc f) n acc h = elim (Bool-cases (ltb n 10)) [
  | inl e ↦
      rw e (digits_onto-digit 0 n acc (ground arith) ∙ ap (λ m. digits_onto m acc) (omega arith))
  | inr e ↦ rw e (
      digits_onto-itoa f (n / 10) ((b'0' + n % 10) ∷ acc) (ground arith)
      ∙ digits_onto-digit (n / 10) (n % 10) acc (omega arith)
      ∙ ap (λ m. digits_onto m acc) (omega arith))
]

itoa_onto_nonempty : (f n c : ℕ) (acc : Text) → itoa_onto f n (c ∷ acc) ≢ []
unfolding itoa_onto
itoa_onto_nonempty zero n c acc e = cc
itoa_onto_nonempty (suc f) n c acc e =
    ground (arith, itoa_onto_nonempty f (n / 10) (b'0' + n % 10) (c ∷ acc))

itoa_nonempty : (n : ℕ) → itoa n ≢ []
unfolding itoa itoa_onto
itoa_nonempty n e = ground (arith, itoa_onto_nonempty n (n / 10) (b'0' + n % 10) [])

decimal_nonempty : (t : Text) → t ≢ [] → decimal t ≡ digits_onto 0 t
unfolding decimal
decimal_nonempty [] h = absurd (h refl)
decimal_nonempty (c ∷ t) h = refl

pub decimal-itoa : (n : ℕ) → decimal (itoa n) ≡ some n
decimal-itoa n =
    decimal_nonempty (itoa n) (itoa_nonempty n)
    ∙ unfold itoa digits_onto in digits_onto-itoa (suc n) n [] (omega arith)

-- ===== src/Freshness/Signed.antt =====
-- `strconv.ParseInt` of a number with its sign.
use titip.Prelude.{ℕ, suc, ◌<◌, ◌≡◌, some, ◌∷◌, arith}
use titip.Prelude.Int.{pos, negsuc, two_63}
use titip.Text.{Text, decimal}
use titip.Freshness.{parse_int, signed, in_range}

pub parse_int-plus :
    (t : Text) (n : ℕ) → decimal t ≡ some n → n < two_63 → parse_int (b'+' ∷ t) ≡ some (pos n)
unfolding parse_int signed in_range
parse_int-plus t n e h = rw (e, signed) (ground (arith, h))

pub parse_int-minus :
    (t : Text) (n : ℕ)
    → decimal t ≡ some (suc n)
    → n < two_63
    → parse_int (b'-' ∷ t) ≡ some (negsuc n)
unfolding parse_int signed in_range
parse_int-minus t n e h = rw (e, signed) (ground (arith, h))

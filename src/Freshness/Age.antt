-- ===== src/Freshness/Age.antt =====
-- freshness.go: `parseAge`.
use titip.Prelude.{ℕ, ◌-◌, ◌*◌, ◌≤◌, ◌≡◌, refl, ◌∙◌, [], ◌∷◌, false, some, arith}
use titip.Prelude.Int.{ℤ, pos, negsuc, wrap_64, wrap_64-pos, two_64}
use titip.Text.{Text, trim_space}
use titip.Http.{is_empty}
use titip.Freshness.{second, seconds, parse_int, parse_age}

parse_int-nonempty : (t : Text) (z : ℤ) → parse_int t ≡ some z → is_empty t ≡ false
unfolding parse_int is_empty
parse_int-nonempty [] z h = cc
parse_int-nonempty (c ∷ cs) z h = refl

module _ (header : Text) (n : ℕ) (parsed : parse_int (trim_space header) ≡ some (pos n)) where
  parse_age-seconds : parse_age header ≡ seconds (pos n)
  unfolding parse_age
  parse_age-seconds =
      rw (parse_int-nonempty (trim_space header) (pos n) parsed, parsed, parse_age) (ground arith)

  -- An Age of at most 9223372036 seconds is that many seconds.
  pub parse_age_exact : n ≤ 9223372036 → parse_age header ≡ pos (n * second)
  unfolding seconds
  parse_age_exact h = parse_age-seconds ∙ wrap_64-pos (n * second) (omega arith)

  -- An Age from 9223372037 to 18446744073 seconds, some 292 to 584 years, is negative.
  pub parse_age_overflow :
      9223372037 ≤ n → n ≤ 18446744073 → parse_age header ≡ negsuc (two_64 - 1 - n * second)
  unfolding seconds wrap_64
  parse_age_overflow h k = parse_age-seconds ∙ ground arith

-- ===== src/Precondition/Etag.antt =====
-- header.go: strong and weak comparison of entity tags.
use titip.Prelude.{◌≡◌, ◌≢◌, true, false, [], arith}
use titip.Text.{Text, codes, ==ₜ_iff, trim_space, has_prefix, trim_prefix}
use titip.Http.{is_empty}
use titip.Precondition.{opaque, strong_etag_matches, weak_etag_matches}

-- Strong comparison: the trimmed tags are the same, not empty, and not weak.
pub record SameStrong (client cached : Text) : Type 0 where
  pub same : trim_space client ≡ trim_space cached
  pub not_nil : trim_space client ≢ []
  pub upper : has_prefix (codes "W/") (trim_space client) ≡ false
  pub lower : has_prefix (codes "w/") (trim_space client) ≡ false

pub strong_sound : (c s : Text) → strong_etag_matches c s ≡ true → SameStrong c s
unfolding strong_etag_matches is_empty
strong_sound c s h = ground (arith, ==ₜ_iff (trim_space c) (trim_space s))

pub strong_complete : (c s : Text) → SameStrong c s → strong_etag_matches c s ≡ true
unfolding strong_etag_matches is_empty
strong_complete c s h =
    ground (arith, ==ₜ_iff (trim_space c) (trim_space s), h.same, h.not_nil, h.upper, h.lower)

-- Tags that match strongly match weakly.
pub strong→weak :
    (client cached : Text)
    → strong_etag_matches client cached ≡ true
    → weak_etag_matches client cached ≡ true
unfolding weak_etag_matches is_empty trim_prefix
strong→weak c s h =
    let m = strong_sound c s h in
    ground (arith, m.same, m.not_nil, ==ₜ_iff (opaque (trim_space c)) (opaque (trim_space s)))

-- Weak comparison does not depend on the order of the tags.
pub weak_comm : (a b : Text) → weak_etag_matches a b ≡ weak_etag_matches b a
unfolding weak_etag_matches
weak_comm a b = ground (
  arith,
  ==ₜ_iff (opaque (trim_space a)) (opaque (trim_space b)),
  ==ₜ_iff (opaque (trim_space b)) (opaque (trim_space a)),
)

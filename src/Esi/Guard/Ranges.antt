-- ===== src/Esi/Guard/Ranges.antt =====
-- esi/ssrf.go: the addresses that are blocked, as ranges.
use titip.Prelude.{ℕ, ◌+◌, ◌*◌, ◌<◌, ◌≡◌, Bool, ◌&&◌, List, [], ◌∷◌, any, leb, arith}
use titip.Esi.Guard.{v4, v6, quad, two_32, unmap, is_special_v4, in_blocked_cidrs, is_ip_blocked}

-- Between two addresses, both included.
abbrev pub between : ℕ → ℕ × ℕ → Bool
between a (lo, hi) = leb lo a && leb a hi

-- The ranges of the IANA registry for special purposes that are not reachable from the whole
-- internet, with multicast and the reserved class, by their first and their last address.
abbrev pub ranges : List (ℕ × ℕ)
ranges =
    (quad 0 0 0 0, quad 0 255 255 255)
    ∷ (quad 10 0 0 0, quad 10 255 255 255)
    ∷ (quad 100 64 0 0, quad 100 127 255 255)
    ∷ (quad 127 0 0 0, quad 127 255 255 255)
    ∷ (quad 169 254 0 0, quad 169 254 255 255)
    ∷ (quad 172 16 0 0, quad 172 31 255 255)
    ∷ (quad 192 0 0 0, quad 192 0 0 255)
    ∷ (quad 192 168 0 0, quad 192 168 255 255)
    ∷ (quad 198 18 0 0, quad 198 19 255 255)
    ∷ (quad 224 0 0 0, quad 255 255 255 255)
    ∷ []

special_ranges :
    (a : ℕ)
    → a < two_32
    → is_special_v4 a
      ≡ any (between a) (
          (quad 0 0 0 0, quad 0 0 0 0)
          ∷ (quad 10 0 0 0, quad 10 255 255 255)
          ∷ (quad 127 0 0 0, quad 127 255 255 255)
          ∷ (quad 169 254 0 0, quad 169 254 255 255)
          ∷ (quad 172 16 0 0, quad 172 31 255 255)
          ∷ (quad 192 168 0 0, quad 192 168 255 255)
          ∷ (quad 224 0 0 0, quad 239 255 255 255)
          ∷ [])
unfolding is_special_v4
special_ranges a h = ground arith

cidr_ranges :
    (a : ℕ)
    → a < two_32
    → in_blocked_cidrs (v4 a)
      ≡ any (between a) (
          (quad 0 0 0 0, quad 0 255 255 255)
          ∷ (quad 100 64 0 0, quad 100 127 255 255)
          ∷ (quad 192 0 0 0, quad 192 0 0 255)
          ∷ (quad 198 18 0 0, quad 198 19 255 255)
          ∷ (quad 240 0 0 0, quad 255 255 255 255)
          ∷ [])
unfolding in_blocked_cidrs
cidr_ranges a h = ground arith

blocked_v4 : (a : ℕ) → a < two_32 → is_ip_blocked (v4 a) ≡ any (between a) ranges
unfolding is_ip_blocked
blocked_v4 a h = rw (special_ranges a h, cidr_ranges a h) (ground arith)

unmap_mapped : (a : ℕ) → a < two_32 → unmap (v6 (65535 * two_32 + a)) ≡ v4 a
unfolding unmap
unmap_mapped a h = ground arith

-- An IPv4 address is blocked exactly where it lies in one of the ranges, written out as it is or
-- mapped into IPv6.
pub is_ip_blocked_exact :
    (a : ℕ)
    → a < two_32
    → (is_ip_blocked (v4 a) ≡ any (between a) ranges)
      × (is_ip_blocked (v6 (65535 * two_32 + a)) ≡ any (between a) ranges)
is_ip_blocked_exact a h =
    (blocked_v4 a h, unfold is_ip_blocked in rw (unmap_mapped a h) (blocked_v4 a h))

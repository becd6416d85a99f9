-- ===== src/Caddy/Caddyfile/Lines.antt =====
-- adapter/caddy: the lines of a block of ESI, as a dispenser presents them.
use titip.Prelude.{
  ℕ, suc, ◌^◌, ◌<◌, ◌≡◌, refl, Bool, true, false, Option, none, some, List, [], ◌∷◌, ◌++◌, arith,
}
use titip.Prelude.Int.{ℤ, pos, negsuc, two_63}
use titip.Text.{Text, codes, ◌==ₜ◌}
use titip.Text.Decimal.{itoa, decimal-itoa}
use titip.Freshness.{parse_int}
use titip.Freshness.Signed.{parse_int-plus, parse_int-minus}
use titip.Caddy.{EsiRules}
use titip.Caddy.Caddyfile.{Dispenser, parse_bool, parse_uint_32}

-- A line of a block: the name of a directive and its arguments.
abbrev pub Line : Type 0
Line = Text × List Text

-- What the dispenser documents, where `on ts ls` is the place in a line whose arguments `ts` are left, before
-- the lines `ls` of its block, and `after` is the place behind the block.
pub record Presents {X : Type 0} (d : Dispenser X) (on : List Text → List Line → X) (after : X)
    : Type 0 where
  pub arg_some :
      (t : Text) (ts : List Text) (ls : List Line)
      → d.next_arg (on (t ∷ ts) ls) ≡ some (t, on ts ls)
  pub arg_none : (ls : List Line) → d.next_arg (on [] ls) ≡ none
  pub args : (ts : List Text) (ls : List Line) → d.remaining_args (on ts ls) ≡ (ts, on [] ls)
  pub opens :
      (name : Text) (ts : List Text) (ls : List Line)
      → (d.next_block 1 (on [] ((name, ts) ∷ ls))).1 ≡ some name
  pub opens_at :
      (name : Text) (ts : List Text) (ls : List Line)
      → (d.next_block 1 (on [] ((name, ts) ∷ ls))).0 ≡ on ts ls
  pub closes : (d.next_block 1 (on [] [])).1 ≡ none
  pub closes_at : (d.next_block 1 (on [] [])).0 ≡ after

abbrev pub bool_text : Bool → Text
bool_text true = codes "true"
bool_text false = codes "false"

-- An integer with its sign.
abbrev pub count_text : ℤ → Text
count_text (pos n) = b'+' ∷ itoa n
count_text (negsuc n) = b'-' ∷ itoa (suc n)

-- The line of a setting, or none.
abbrev pub flag_line : Text → Option Bool → List Line
flag_line name none = []
flag_line name (some b) = (name, bool_text b ∷ []) ∷ []

abbrev pub depth_line : Text → Option ℕ → List Line
depth_line name none = []
depth_line name (some n) = (name, itoa n ∷ []) ∷ []

abbrev pub count_line : Text → Option ℤ → List Line
count_line name none = []
count_line name (some n) = (name, count_text n ∷ []) ∷ []

abbrev pub text_line : Text → Text → List Line
text_line name [] = []
text_line name (c ∷ t) = (name, (c ∷ t) ∷ []) ∷ []

abbrev pub list_line : Text → List Text → List Line
list_line name [] = []
list_line name (t ∷ ts) = (name, t ∷ ts) ∷ []

-- The lines that say what the rules are.
abbrev pub esi_lines : EsiRules → List Line
esi_lines e =
    flag_line (codes "enabled") e.enabled
    ++ (flag_line (codes "require_surrogate_control") e.require_surrogate_control
        ++ (depth_line (codes "max_depth") e.max_depth
            ++ (text_line (codes "max_timeout") e.max_timeout
                ++ (count_line (codes "max_concurrent_requests") e.max_concurrent_requests
                    ++ (flag_line (codes "block_private_ips") e.block_private_ips
                        ++ (list_line (codes "allowed_hosts") e.allowed_hosts
                            ++ (flag_line (codes "allow_private_ips_for_allowed_hosts")
                                  e.allow_private_ips_for_allowed_hosts
                                ++ (text_line (codes "max_response_size") e.max_response_size
                                    ++ (flag_line (codes "forward_fragment_cookies")
                                          e.forward_fragment_cookies
                                        ++ (flag_line (codes "preserve_etag") e.preserve_etag
                                            ++ (text_line (codes "error_marker")
                                                e.error_marker)))))))))))

-- A depth that a `uint32` holds, and a number that an `int` holds.
abbrev pub FitsDepth : Option ℕ → Type 0
FitsDepth none = Unit
FitsDepth (some n) = n < 2 ^ 32

abbrev pub FitsCount : Option ℤ → Type 0
FitsCount none = Unit
FitsCount (some (pos n)) = n < two_63
FitsCount (some (negsuc n)) = n < two_63

pub parse_bool-print : (b : Bool) → parse_bool (bool_text b) ≡ some b
unfolding parse_bool ◌==ₜ◌
parse_bool-print true = refl
parse_bool-print false = refl

pub parse_uint_32-itoa : (n : ℕ) → n < 2 ^ 32 → parse_uint_32 (itoa n) ≡ some n
unfolding parse_uint_32
parse_uint_32-itoa n h = rw (decimal-itoa n, parse_uint_32) (ground (arith, h))

pub parse_int-count : (n : ℤ) → FitsCount (some n) → parse_int (count_text n) ≡ some n
parse_int-count (pos n) h = parse_int-plus (itoa n) n (decimal-itoa n) h
parse_int-count (negsuc n) h = parse_int-minus (itoa (suc n)) n (decimal-itoa (suc n)) h

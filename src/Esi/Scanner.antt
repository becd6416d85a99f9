-- ===== src/Esi/Scanner.antt =====
-- esi/scanner.go: `Scan`, its loop and the scan of an inner block.
pub mod Bounds
pub mod Termination
pub mod Panics
use titip.Prelude.{
  ℕ, zero, suc, ◌+◌, ◌-◌, ◌≤◌, ◌<◌, ◌≡◌, ◌≢◌, Bool, true, false, ◌||◌, Option, none, some, List, [],
  ◌∷◌, ◌++◌, map, arith, ltb, if◌then◌else◌, length, drop,
}
use titip.Prelude.Int.{ℤ}
use titip.Text.{Text, codes, contains, index_byte}
use titip.Esi.Fragment.{Fragment, strip, tag_inline_comment, tag_html_comment_close}
use titip.Esi.Tag.{
  Result, ok, err, out_of_fuel, out_of_range, ◌>>=◌, Step, emit, nested, fault, slice, scan_tag,
}

-- A fragment of an inner block, moved to its place in the document.
unfoldable pub shift : ℕ → Fragment → Fragment
shift k f = record f {
  start_pos = f.start_pos + k;
  end_pos = f.end_pos + k;
  inner_start_pos = if ltb 0 f.inner_start_pos then f.inner_start_pos + k else f.inner_start_pos;
  inner_end_pos = if ltb 0 f.inner_start_pos then f.inner_end_pos + k else f.inner_end_pos;
}

-- The fast check at the head of `Scan`.
unfoldable pub may_hold : Text → Bool
may_hold b = contains (codes "<esi:") b || contains tag_inline_comment b

abbrev pub prepend : List Fragment → Result (List Fragment) → Result (List Fragment)
prepend fs r = r >>= λ gs. ok (fs ++ gs)

-- The fragments of a closed comment `<!--esi … -->`: its two ends, and those of its inside. The tag
-- `-->` has three bytes.
abbrev pub unwrapped : ℕ → ℕ → ℕ → List Fragment → List Fragment
unwrapped start content close inner =
    strip start content ∷ (map (shift content) inner ++ (strip close (close + 3) ∷ []))

module _ (parse_duration : Text → Option ℤ) where
  -- The loop of `Scan` from offset `at`; the fuel bounds the rounds, those of the inner scans too.
  unfoldable pub scan_loop : ℕ → Text → ℕ → Result (List Fragment)
  unfolding scan_tag may_hold shift
  scan_loop zero b at = err out_of_fuel
  scan_loop (suc f) b at = elim (index_byte b'<' (drop at b)) [
    | none ↦ ok []
    | some n ↦ elim (scan_tag parse_duration b (at + n)) [
      | fault ↦ err out_of_range
      | emit fs next ↦ prepend fs (scan_loop f b next)
      | nested start content close ↦ do
        inner ← elim (may_hold (slice b content close)) [
          | true ↦ scan_loop f (slice b content close) 0
          | false ↦ ok []
        ]
        prepend (unwrapped start content close inner) (scan_loop f b (close + 3))
    ]
  ]

  unfoldable pub scan : Text → Result (List Fragment)
  unfolding scan_loop may_hold
  scan b = if may_hold b then scan_loop (suc (length b)) b 0 else ok []

-- ===== src/Esi/Scanner/Termination.antt =====
-- The rounds of the loop of `Scan`, esi/scanner.go, and their fuel.
use titip.Prelude.{
  ℕ, zero, suc, ◌+◌, ◌≤◌, ◌<◌, ◌≢◌, List, inl, inr, arith, length, drop, length-drop, Option-cases,
  Bool-cases, Option,
}
use titip.Prelude.Int.{ℤ}
use titip.Text.{Text, index_byte, index_byte-bound}
use titip.Esi.Fragment.{Fragment}
use titip.Esi.Tag.{Result, ok, err, out_of_fuel, ◌>>=◌, slice, scan_tag}
use titip.Esi.Tag.Bounds.{scan_tag-IsStep}
use titip.Esi.Scanner.{unwrapped, may_hold, prepend, scan_loop, scan}
use titip.Esi.Scanner.Bounds.{
  Step-cases, length-slice, inner_scan, scan_loop_emit, scan_loop_fault, scan_loop_nested,
}

abbrev Ends : Result (List Fragment) → Type 0
Ends r = r ≢ err out_of_fuel

prepend-Ends : (fs : List Fragment) (r : Result (List Fragment)) → Ends r → Ends (prepend fs r)
prepend-Ends fs (ok gs) h = cc
prepend-Ends fs (err e) h = h

>>=-Ends :
    (r : Result (List Fragment)) (k : List Fragment → Result (List Fragment))
    → Ends r
    → ((inner : List Fragment) → Ends (k inner))
    → Ends (r >>= k)
>>=-Ends (ok inner) k h j = j inner
>>=-Ends (err e) k h j = h

module _ (pd : Text → Option ℤ) where
  inner_scan-Ends : (f : ℕ) (b : Text) → Ends (scan_loop pd f b 0) → Ends (inner_scan pd f b)
  inner_scan-Ends f b h = elim (Bool-cases (may_hold b)) [
    | inl e ↦ rw (e, inner_scan) h
    | inr e ↦ rw (e, inner_scan) (cc)
  ]

  scan_loop-Ends :
      (f : ℕ) (b : Text) (at : ℕ) → at ≤ length b → length b < f + at → Ends (scan_loop pd f b at)
  scan_loop-Ends zero b at bound fuel = absurd (omega arith)
  scan_loop-Ends (suc f) b at bound fuel = elim (Option-cases (index_byte b'<' (drop at b))) [
    | inl e ↦ unfold scan_loop in ground (arith, e)
    | inr (n, e) ↦
        let inside : at + n < length b =
          omega (arith, index_byte-bound b'<' (drop at b) n e, length-drop {0} at b) in
        elim (Step-cases (scan_tag pd b (at + n))) [
          | inl (fs, next, s) ↦
              let (low, high, ordered) = rw s at (scan_tag-IsStep pd b (at + n) inside) in
              rw (scan_loop_emit pd f b at n e fs next s) (
                prepend-Ends fs (scan_loop pd f b next)
                  (scan_loop-Ends f b next high (omega arith)))
          | inr (inl (start, content, close, s)) ↦
              let (low, mid, high, fits) = rw s at (scan_tag-IsStep pd b (at + n) inside) in
              let block = slice b content close in
              let room : length block < f + 0 =
                omega (arith, length-slice b content close high (omega arith)) in
              rw (scan_loop_nested pd f b at n e start content close s) (
                >>=-Ends (inner_scan pd f block) _
                  (inner_scan-Ends f block (scan_loop-Ends f block 0 (omega arith) room))
                  (λ inner.
                    prepend-Ends (unwrapped start content close inner)
                      (scan_loop pd f b (close + 3))
                      (scan_loop-Ends f b (close + 3) fits (omega arith))))
          | inr (inr s) ↦ rw (scan_loop_fault pd f b at n e s) (cc)
        ]
  ]

  -- `Scan` ends on every document, also with comments nested in comments.
  pub scan_terminates : (b : Text) → scan pd b ≢ err out_of_fuel
  unfolding scan
  scan_terminates b = elim (Bool-cases (may_hold b)) [
    | inl e ↦ rw (e, scan) (scan_loop-Ends (suc (length b)) b 0 (omega arith) (omega arith))
    | inr e ↦ rw (e, scan) (cc)
  ]

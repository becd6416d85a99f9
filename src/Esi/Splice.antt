-- ===== src/Esi/Splice.antt =====
-- esi/processor.go: the assembly of a document (`spliceFragments`), and what stands for an include
-- that could not be fetched (`resolveFallback`, `safeSlice`).
pub mod Replace
pub mod Size
use titip.Prelude.{
  ℕ, ◌+◌, ◌≤◌, Bool, true, false, ◌||◌, List, [], ◌∷◌, ◌++◌, map, ltb, leb, if◌then◌else◌, length,
  drop,
}
use titip.Prelude.Int.{ℤ, pos, ◌+ℤ◌, ◌-ℤ◌}
use titip.Text.{Text, codes, equal_fold}
use titip.Esi.Fragment.{Fragment}
use titip.Esi.Tag.{slice}

-- fragmentResult: the bytes that take the place of the tag `spec`, and the cookies of the fetch.
pub record FragmentResult : Type 0 where
  pub spec : Fragment
  pub body : Text
  pub set_cookies : List Text

-- The test under which a result is passed over.
pub misplaced : Text → ℕ → Fragment → Bool
misplaced parent last f =
    ltb f.start_pos last
    || ltb (length parent) f.start_pos
    || ltb (length parent) f.end_pos
    || ltb f.end_pos f.start_pos

unfoldable pub splice_loop : Text → ℕ → List FragmentResult → Text
unfolding misplaced
splice_loop parent last [] = if ltb last (length parent) then drop last parent else []
splice_loop parent last (r ∷ rs) =
    let passed = splice_loop parent last rs in
    let placed = splice_loop parent r.spec.end_pos rs in
    if misplaced parent last r.spec
    then passed
    else slice parent last r.spec.start_pos ++ (r.body ++ placed)

unfoldable pub splice_fragments : Text → List FragmentResult → Text
unfolding splice_loop
splice_fragments parent [] = parent
splice_fragments parent (r ∷ rs) = splice_loop parent 0 (r ∷ rs)

-- The size that the buffer is grown to before the loop.
unfoldable pub exact_size : ℤ → List FragmentResult → ℤ
exact_size n [] = n
exact_size n (r ∷ rs) =
    exact_size (n +ℤ (pos (length r.body) -ℤ (pos r.spec.end_pos -ℤ pos r.spec.start_pos))) rs

-- `nil` and the empty slice are one value: the callers test the length.
unfoldable pub safe_slice : Text → ℕ → ℕ → Text
safe_slice body start end =
    if leb start 0 || leb end start || ltb (length body) end then [] else slice body start end

unfoldable pub resolve_fallback : Text → Text → Text → Text
resolve_fallback marker [] on_error = if equal_fold on_error (codes "continue") then [] else marker
resolve_fallback marker (c ∷ inner) on_error = c ∷ inner

-- ===== src/Esi/Splice/Size.antt =====
-- esi/processor.go: the size computed before the loop of `spliceFragments`.
use titip.Prelude.{
  ℕ, ◌+◌, ◌-◌, ◌≤◌, ◌≡◌, refl, sym, ap, ◌∙◌, List, [], ◌∷◌, ◌++◌, arith, length, drop, length-drop,
  length-append, take-append-drop,
}
use titip.Prelude.Int.{pos, ◌+ℤ◌, ◌-ℤ◌}
use titip.Text.{Text}
use titip.Esi.Fragment.{Ordered}
use titip.Esi.Tag.{slice}
use titip.Esi.Scanner.Bounds.{length-slice}
use titip.Esi.Splice.{FragmentResult, splice_loop, splice_fragments, exact_size}
use titip.Esi.Splice.Replace.{
  specs, replace, splice_fragments-replace, misplaced-Ordered, Ordered-le, drop-drop,
}

-- One round: the parent's bytes behind `end` are still to come, `k` bytes are written.
size_step :
    (k len at start end body : ℕ)
    → at ≤ start
    → start ≤ end
    → end ≤ len
    → pos (k + (len - at)) +ℤ (pos body -ℤ (pos end -ℤ pos start))
      ≡ pos (k + (start - at) + body + (len - end))
unfolding ◌+ℤ◌ ◌-ℤ◌
size_step k len at start end body p q r = ground arith

placed_length :
    (parent : Text) (at start end : ℕ) (body rest : Text) (k : ℕ)
    → at ≤ start
    → start ≤ length parent
    → k + (start - at) + length body + length rest
      ≡ k + length (slice parent at start ++ (body ++ rest))
placed_length parent at start end body rest k p q = omega (
  arith,
  length-append {0} (slice parent at start) (body ++ rest),
  length-append {0} body rest,
  length-slice parent at start p q,
)

exact_size-loop :
    (parent : Text) (k at : ℕ) (rs : List FragmentResult)
    → Ordered at (length parent) (specs rs)
    → exact_size (pos (k + (length parent - at))) rs ≡ pos (k + length (splice_loop parent at rs))
unfolding exact_size splice_loop
exact_size-loop parent k at [] h = ground (arith, length-drop at parent)
exact_size-loop parent k at (r ∷ rs) h =
    let s = r.spec.start_pos in
    let e = r.spec.end_pos in
    let last = Ordered-le e (length parent) (specs rs) h.2 in
    rw
      (
        misplaced-Ordered parent at r.spec (specs rs) h,
        size_step k (length parent) at s e (length r.body) h.0 h.1.start_le_end last,
        splice_loop,
      )
      (exact_size-loop parent (k + (s - at) + length r.body) e rs h.2
        ∙ ap pos (
            placed_length parent at s e r.body (splice_loop parent e rs) k h.0
              (omega (arith, h.1.start_le_end))))

-- Where the fragments are in order, the size that the buffer is grown to is the size that is
-- written.
pub exact_size-splice_fragments :
    (parent : Text) (rs : List FragmentResult)
    → Ordered 0 (length parent) (specs rs)
    → exact_size (pos (length parent)) rs ≡ pos (length (splice_fragments parent rs))
unfolding splice_fragments exact_size
exact_size-splice_fragments parent [] h = refl
exact_size-splice_fragments parent (r ∷ rs) h =
    ap (λ n. exact_size (pos n) (r ∷ rs)) {x = length parent} (omega arith)
    ∙ exact_size-loop parent 0 0 (r ∷ rs) h
    ∙ ap pos (omega arith)

-- Every fragment is replaced by its own bytes.
abbrev pub Unchanged : Text → List FragmentResult → Type 0
Unchanged parent [] = Unit
Unchanged parent (r ∷ rs) =
    (r.body ≡ slice parent r.spec.start_pos r.spec.end_pos) × Unchanged parent rs

slice-drop : (b : Text) (from to : ℕ) → from ≤ to → slice b from to ++ drop to b ≡ drop from b
slice-drop b from to h =
    ap (λ t. slice b from to ++ t)
      (ap (λ n. drop n b) (omega arith) ∙ sym (drop-drop (to - from) from b))
    ∙ take-append-drop (to - from) (drop from b)

replace-Unchanged :
    (parent : Text) (at : ℕ) (rs : List FragmentResult)
    → Ordered at (length parent) (specs rs)
    → Unchanged parent rs
    → replace at (drop at parent) rs ≡ drop at parent
unfolding replace
replace-Unchanged parent at [] h u = refl
replace-Unchanged parent at (r ∷ rs) h u =
    let s = r.spec.start_pos in
    let e = r.spec.end_pos in
    let rest : replace e (drop (e - at) (drop at parent)) rs ≡ drop e parent =
      rw (drop-drop (e - at) at parent) (
        ap (λ n. replace e (drop n parent) rs) {x = at + (e - at)} (omega (arith, h.1.start_le_end))
        ∙ replace-Unchanged parent e rs h.2 u.1) in
    rw (u.0, rest)
      (ap (λ t. slice parent at s ++ t) (slice-drop parent s e h.1.start_le_end)
        ∙ slice-drop parent at s h.0)

-- Putting back the bytes of every tag gives the document back.
pub splice_fragments-Unchanged :
    (parent : Text) (rs : List FragmentResult)
    → Ordered 0 (length parent) (specs rs)
    → Unchanged parent rs
    → splice_fragments parent rs ≡ parent
splice_fragments-Unchanged parent rs h u =
    splice_fragments-replace parent rs h ∙ replace-Unchanged parent 0 rs h u

-- ===== src/Esi/Splice/Replace.antt =====
-- esi/processor.go: the assembled document, described without the tests of the loop.
use native.Mathlib.Nat.{zero-add, suc-add}
use titip.Prelude.{
  ℕ, zero, suc, ◌+◌, ◌-◌, ◌≤◌, ◌≡◌, refl, ap, ◌∙◌, false, List, [], ◌∷◌, ◌++◌, map, arith, length,
  take, drop,
}
use titip.Text.{Text}
use titip.Esi.Fragment.{Fragment, Ordered}
use titip.Esi.Tag.{slice}
use titip.Esi.Splice.{FragmentResult, misplaced, splice_loop, splice_fragments}

abbrev pub specs : List FragmentResult → List Fragment
specs = map (λ r. r.spec)

-- `text` is what is left of the document from offset `at`: copy up to the tag, put the body, go on
-- behind the tag.
unfoldable pub replace : ℕ → Text → List FragmentResult → Text
replace at text [] = text
replace at text (r ∷ rs) =
    take (r.spec.start_pos - at) text
    ++ (r.body ++ replace r.spec.end_pos (drop (r.spec.end_pos - at) text) rs)

drop_nil {ℓ} : {A : Type ℓ} (m : ℕ) → drop {A = A} m [] ≡ []
drop_nil zero = refl
drop_nil (suc m) = refl

pub drop-drop {ℓ} : {A : Type ℓ} (m n : ℕ) (xs : List A) → drop m (drop n xs) ≡ drop (n + m) xs
drop-drop m zero xs = rw zero-add
drop-drop m (suc n) [] = rw suc-add (drop_nil m)
drop-drop m (suc n) (x ∷ xs) = rw suc-add (drop-drop m n xs)

drop_all {ℓ} : {A : Type ℓ} (n : ℕ) (xs : List A) → length xs ≤ n → drop n xs ≡ []
drop_all zero [] h = refl
drop_all zero (x ∷ xs) h = absurd (omega arith)
drop_all (suc n) [] h = refl
drop_all (suc n) (x ∷ xs) h = drop_all n xs (omega arith)

pub Ordered-le : (lo hi : ℕ) (fs : List Fragment) → Ordered lo hi fs → lo ≤ hi
Ordered-le lo hi [] h = h
Ordered-le lo hi (f ∷ fs) h = omega (arith, Ordered-le f.end_pos hi fs h.2)

pub misplaced-Ordered :
    (parent : Text) (at : ℕ) (f : Fragment) (fs : List Fragment)
    → Ordered at (length parent) (f ∷ fs)
    → misplaced parent at f ≡ false
unfolding misplaced
misplaced-Ordered parent at f fs h =
    ground (arith, h.1.start_le_end, Ordered-le f.end_pos (length parent) fs h.2)

splice_loop-replace :
    (parent : Text) (at : ℕ) (rs : List FragmentResult)
    → Ordered at (length parent) (specs rs)
    → splice_loop parent at rs ≡ replace at (drop at parent) rs
unfolding splice_loop replace
splice_loop-replace parent at [] h = ground (arith, drop_all at parent)
splice_loop-replace parent at (r ∷ rs) h =
    rw (misplaced-Ordered parent at r.spec (specs rs) h, splice_loop)
      (ap (λ t. slice parent at r.spec.start_pos ++ (r.body ++ t))
        (splice_loop-replace parent r.spec.end_pos rs h.2
          ∙ ap (λ t. replace r.spec.end_pos t rs)
              (gap r.spec.end_pos (omega (arith, h.1.start_le_end)))))
  where
    gap : (end : ℕ) → at ≤ end → drop end parent ≡ drop (end - at) (drop at parent)
    gap end le = rw (drop-drop (end - at) at parent) (ap (λ n. drop n parent) (omega arith))

-- Where the fragments are in order, as `Scan` returns them, the assembled document is the parent
-- with the bytes of every tag replaced by the fragment's body, and no fragment is passed over.
pub splice_fragments-replace :
    (parent : Text) (rs : List FragmentResult)
    → Ordered 0 (length parent) (specs rs)
    → splice_fragments parent rs ≡ replace 0 parent rs
unfolding splice_fragments replace
splice_fragments-replace parent [] h = refl
splice_fragments-replace parent (r ∷ rs) h = splice_loop-replace parent 0 (r ∷ rs) h

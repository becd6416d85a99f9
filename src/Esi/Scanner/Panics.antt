-- ===== src/Esi/Scanner/Panics.antt =====
-- esi/scanner.go: the byte that `Scan` reads behind the name of an opening tag.
use native.Mathlib.Nat.{zero-add, suc-add}
use titip.Prelude.{
  ℕ, ◌+◌, ◌≡◌, refl, ap, ◌∙◌, true, Option, none, some, [], ◌∷◌, ◌++◌, arith, length, drop-append,
  get_elem?, Option-cases, inl, inr,
}
use titip.Prelude.Int.{ℤ}
use titip.Text.{Text, codes, has_prefix, index, index_byte, contains}
use titip.Esi.Fragment.{tag_include_open, tag_remove_open, tag_comment_open}
use titip.Esi.Tag.{err, out_of_range, fault, scan_tag}
use titip.Esi.Scanner.{may_hold, scan}
use titip.Esi.Scanner.Bounds.{scan_loop_fault}

-- The opening tags whose next byte `Scan` reads.
pub data OpenTag : Type 0 where
  include remove comment : OpenTag

abbrev pub name : OpenTag → Text
name include = tag_include_open
name remove = tag_remove_open
name comment = tag_comment_open

index_byte-skip :
    (c : ℕ) (p t : Text) → index_byte c p ≡ none → index_byte c (p ++ c ∷ t) ≡ some (length p)
unfolding index_byte
index_byte-skip c [] t h = ground arith
index_byte-skip c (x ∷ p) t h = elim (Option-cases (index_byte c p)) [
  | inl e ↦ ground (arith, e, index_byte-skip c p t e)
  | inr (n, e) ↦ ground (arith, e)
]

index-skip :
    (c : ℕ) (tag p t : Text)
    → index_byte c p ≡ none
    → has_prefix (c ∷ tag) (c ∷ t) ≡ true
    → index (c ∷ tag) (p ++ c ∷ t) ≡ some (length p)
unfolding index index_byte has_prefix
index-skip c tag [] t h e = rw (e, index)
index-skip c tag (x ∷ p) t h e = elim (Option-cases (index_byte c p)) [
  | inl none_left ↦ ground (arith, none_left, index-skip c tag p t none_left e)
  | inr (n, found) ↦ ground (arith, found)
]

get_elem?-append : (p t : Text) (k : ℕ) → get_elem? (p ++ t) (length p + k) ≡ get_elem? t k
get_elem?-append [] t k = rw zero-add
get_elem?-append (x ∷ p) t k = rw suc-add (get_elem?-append p t k)

module _ (pd : Text → Option ℤ) where
  scan_tag-truncated : (tag : OpenTag) (p : Text) → scan_tag pd (p ++ name tag) (length p) ≡ fault
  unfolding scan_tag has_prefix
  scan_tag-truncated include p =
      rw (drop-append p tag_include_open, get_elem?-append p tag_include_open 12, scan_tag)
  scan_tag-truncated remove p =
      rw (drop-append p tag_remove_open, get_elem?-append p tag_remove_open 11, scan_tag)
  scan_tag-truncated comment p =
      rw (drop-append p tag_comment_open, get_elem?-append p tag_comment_open 12, scan_tag)

  may_hold-truncated :
      (tag : OpenTag) (p : Text) → index_byte b'<' p ≡ none → may_hold (p ++ name tag) ≡ true
  unfolding may_hold has_prefix contains
  may_hold-truncated include p h =
      rw (index-skip b'<' (codes "esi:") p (codes "esi:include") h refl, contains)
  may_hold-truncated remove p h =
      rw (index-skip b'<' (codes "esi:") p (codes "esi:remove") h refl, contains)
  may_hold-truncated comment p h =
      rw (index-skip b'<' (codes "esi:") p (codes "esi:comment") h refl, contains)

  first_open :
      (tag : OpenTag) (p : Text)
      → index_byte b'<' p ≡ none
      → index_byte b'<' (p ++ name tag) ≡ some (length p)
  first_open include p h = index_byte-skip b'<' p (codes "esi:include") h
  first_open remove p h = index_byte-skip b'<' p (codes "esi:remove") h
  first_open comment p h = index_byte-skip b'<' p (codes "esi:comment") h

  -- A document that ends right behind the name of its first ESI tag, be it `<esi:include`,
  -- `<esi:remove` or `<esi:comment`, makes `Scan` read past its end, whatever text stands before.
  pub scan_truncated :
      (tag : OpenTag) (p : Text)
      → index_byte b'<' p ≡ none
      → scan pd (p ++ name tag) ≡ err out_of_range
  unfolding scan
  scan_truncated tag p h =
      rw (may_hold-truncated tag p h, scan)
        (scan_loop_fault pd (length (p ++ name tag)) (p ++ name tag) 0 (length p)
          (first_open tag p h)
          (ap (scan_tag pd (p ++ name tag)) (zero-add (length p)) ∙ scan_tag-truncated tag p))

-- ===== src/Esi/Tag/Bounds.antt =====
-- esi/scanner.go: where a tag that is read lies in the document, and its fragments.
use titip.Prelude.{
  ℕ, suc, ◌+◌, ◌<◌, ◌≤◌, ◌≡◌, Bool, true, false, Option, some, arith, length, drop, length-drop,
  Option-cases, Bool-cases, inl, inr,
}
use titip.Prelude.Int.{ℤ}
use titip.Text.{Text, index, index-bound, has_prefix, has_prefix-length}
use titip.Esi.Fragment.{
  Ordered, tag_html_comment_close, tag_inline_comment, tag_include_close, tag_remove_close,
  tag_comment_close,
}
use titip.Esi.Attribute.{scan_tag_header_end, header_end-bound}
use titip.Esi.Tag.{
  Step, emit, nested, fault, comment_body, at_comment, remove_body, at_remove, at_include,
  paired_include, parse_include, include_fragment, inline_comment, scan_tag,
}

-- What is known of a round that begins at `start`.
abbrev pub IsStep : Text → ℕ → Step → Type 0
IsStep b start (emit fs next) = (start < next) × (next ≤ length b) × Ordered start next fs
IsStep b start (nested s content close) =
    (start ≤ s)
    × (s < content)
    × (content ≤ close)
    × (close + length tag_html_comment_close ≤ length b)
IsStep b start fault = Unit

scan_tag_header_end-bound :
    (b : Text) (start end : ℕ) (closing : Bool)
    → start < length b
    → scan_tag_header_end b start ≡ some (end, closing)
    → (start + 1 < end) × (end ≤ length b)
unfolding scan_tag_header_end
scan_tag_header_end-bound b start end closing h e = omega (
  arith,
  header_end-bound 0 b'<' (suc start) (drop (suc start) b) end closing e,
  length-drop {0} (suc start) b,
)

index-drop-bound :
    (tag b : Text) (at n : ℕ)
    → at ≤ length b
    → index tag (drop at b) ≡ some n
    → at + n + length tag ≤ length b
index-drop-bound tag b at n h e =
    omega (arith, index-bound tag (drop at b) n e, length-drop {0} at b)

module _ (pd : Text → Option ℤ) (b : Text) (start : ℕ) (inside : start < length b) where
  comment_body-IsStep : IsStep b start (comment_body pd b start)
  unfolding comment_body
  comment_body-IsStep = elim (Option-cases (scan_tag_header_end b start)) [
    | inl e ↦ rw (e, IsStep) (omega arith)
    | inr ((end, closing), e) ↦
        let (low, high) = scan_tag_header_end-bound b start end closing inside e in
        elim (Option-cases (index tag_comment_close (drop end b))) [
          | inl none_left ↦ ground (arith, e, none_left)
          | inr (n, found) ↦
              ground (arith, e, found, index-drop-bound tag_comment_close b end n high found)
        ]
  ]

  at_comment-IsStep : IsStep b start (at_comment pd b start)
  unfolding at_comment
  at_comment-IsStep = ground (arith, comment_body-IsStep)

  remove_body-IsStep : IsStep b start (remove_body pd b start)
  unfolding remove_body
  remove_body-IsStep = elim (Option-cases (index tag_remove_close (drop start b))) [
    | inl e ↦ rw (e, IsStep) at_comment-IsStep
    | inr (n, e) ↦ ground (arith, e, index-drop-bound tag_remove_close b start n (omega arith) e)
  ]

  at_remove-IsStep : IsStep b start (at_remove pd b start)
  unfolding at_remove
  at_remove-IsStep = ground (arith, remove_body-IsStep, at_comment-IsStep)

  paired_include-IsStep :
      (end : ℕ) → start < end → end ≤ length b → IsStep b start (paired_include pd b start end)
  unfolding paired_include include_fragment
  paired_include-IsStep end low high = elim (Option-cases (index tag_include_close (drop end b))) [
    | inl e ↦ rw (e, IsStep) (omega arith)
    | inr (n, e) ↦ rw (e, IsStep) (omega (arith, index-drop-bound tag_include_close b end n high e))
  ]

  parse_include-IsStep : IsStep b start (parse_include pd b start)
  unfolding parse_include include_fragment
  parse_include-IsStep = elim (Option-cases (scan_tag_header_end b start)) [
    | inl e ↦ rw (e, IsStep) (omega arith)
    | inr ((end, true), e) ↦
        rw (e, IsStep) (omega (arith, scan_tag_header_end-bound b start end true inside e))
    | inr ((end, false), e) ↦
        let (low, high) = scan_tag_header_end-bound b start end false inside e in
        rw (e, IsStep) (paired_include-IsStep end (omega arith) high)
  ]

  at_include-IsStep : IsStep b start (at_include pd b start)
  unfolding at_include
  at_include-IsStep = ground (arith, parse_include-IsStep, at_remove-IsStep)

  inline_comment-IsStep :
      start + length tag_inline_comment ≤ length b → IsStep b start (inline_comment pd b start)
  unfolding inline_comment
  inline_comment-IsStep h =
      elim (Option-cases
        (index tag_html_comment_close (drop (start + length tag_inline_comment) b))) [
          | inl e ↦ rw (e, IsStep) (omega arith)
          | inr (n, e) ↦
              rw (e, IsStep)
                (omega (
                  arith,
                  index-drop-bound tag_html_comment_close b (start + length tag_inline_comment) n h
                      e,
                ))
        ]

  -- One round of the loop of `Scan` at a `<` moves on, and stays inside the document.
  pub scan_tag-IsStep : IsStep b start (scan_tag pd b start)
  unfolding scan_tag
  scan_tag-IsStep = elim (Bool-cases (has_prefix tag_inline_comment (drop start b))) [
    | inl e ↦
        rw (e, IsStep)
          (inline_comment-IsStep (
            omega (
              arith,
              has_prefix-length tag_inline_comment (drop start b) e,
              length-drop {0} start b,
            )))
    | inr e ↦ rw (e, IsStep) at_include-IsStep
  ]

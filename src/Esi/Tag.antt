-- ===== src/Esi/Tag.antt =====
-- esi/scanner.go: one tag, as the body of the loop of `Scan` reads it. Offsets are numbers, and an index past the end of the document, where Go
-- panics, is the fault `out_of_range`. `time.ParseDuration` is a parameter: its value is in
-- nanoseconds.
pub mod Bounds
use titip.Prelude.{
  ℕ, zero, suc, ◌+◌, ◌-◌, ◌*◌, ◌/◌, ◌<◌, ◌≤◌, ◌^◌, ◌≡◌, refl, Bool, true, false, not, ◌&&◌, ◌||◌,
  Option, none, some, List, [], ◌∷◌, ◌++◌, map, arith, ltb, leb, ◌==◌, if◌then◌else◌, length,
  get_elem?, take, drop,
}
use titip.Prelude.Int.{ℤ, pos, negsuc}
use titip.Text.{Text, codes, has_prefix, index, index_byte, contains, trim_space, decimal}
use titip.Esi.Fragment.{
  Fragment, strip, tag_include_open, tag_include_close, tag_remove_open, tag_remove_close,
  tag_comment_open, tag_comment_close, tag_inline_comment, tag_html_comment_close,
  is_ascii_whitespace,
}
use titip.Esi.Attribute.{scan_tag_header_end, extract_attribute}

pub data Fault : Type 0 where
  out_of_fuel out_of_range : Fault

pub data Result {ℓ} (A : Type ℓ) : Type ℓ where
  ok : A → Result A
  err : Fault → Result A

infixl 5 ◌>>=◌
abbrev pub ◌>>=◌ {ℓ κ} : {A : Type ℓ} {B : Type κ} → Result A → (A → Result B) → Result B
ok a >>= f = f a
err e >>= f = err e

-- What one round of the loop of `Scan` finds at a `<`: fragments and the offset where it goes on; or
-- an `<!--esi` comment that is closed at `close`, whose inside is scanned; or an index fault.
pub data Step : Type 0 where
  emit : List Fragment → ℕ → Step
  nested : ℕ → ℕ → ℕ → Step
  fault : Step

-- `b[from:to]`
abbrev pub slice : Text → ℕ → ℕ → Text
slice b from to = take (to - from) (drop from b)

-- Does the tag stand at offset `at`?
abbrev pub stands : Text → ℕ → Text → Bool
stands b at tag = has_prefix tag (drop at b)

-- A duration in nanoseconds, as `parseTimeout` returns it.
abbrev millis : ℤ → ℕ
millis (pos n) = n / 1000000
millis (negsuc n) = 0

-- `strconv.ParseUint(s, 10, 32)`, and 0 where it fails.
parse_depth : Text → ℕ
parse_depth raw = elim (decimal (trim_space raw)) [
  | none ↦ 0
  | some v ↦ if ltb v (2 ^ 32) then v else 0
]

module _ (parse_duration : Text → Option ℤ) where
  timeout_of : Text → ℕ
  timeout_of s = elim (parse_duration s) [
    | some d ↦ millis d
    | none ↦ elim (parse_duration (s ++ codes "s")) [ some d ↦ millis d | none ↦ 0 ]
  ]

  is_empty : Text → Bool
  is_empty [] = true
  is_empty (c ∷ cs) = false

  unfoldable pub parse_timeout : Text → ℕ
  unfolding timeout_of is_empty
  parse_timeout raw = let s = trim_space raw in if is_empty s then 0 else timeout_of s

  -- The fragment that `parseESIInclude` builds from the attributes.
  include_fragment : Text → ℕ → ℕ → ℕ → ℕ → Fragment
  unfolding parse_timeout parse_depth
  include_fragment header start end inner_start inner_end = record {
    start_pos = start;
    end_pos = end;
    src = extract_attribute header (codes "src");
    alt = extract_attribute header (codes "alt");
    on_error = extract_attribute header (codes "onerror");
    max_depth = parse_depth (extract_attribute header (codes "max-depth"));
    timeout_ms = parse_timeout (extract_attribute header (codes "timeout"));
    inner_start_pos = inner_start;
    inner_end_pos = inner_end;
  }

  -- `parseESIInclude` behind the opening tag, which ends at `end`.
  paired_include : Text → ℕ → ℕ → Step
  unfolding include_fragment
  paired_include b start end =
      let header = slice b start (end - 1) in
      elim (index tag_include_close (drop end b)) [
        | some n ↦
            let full = end + n + length tag_include_close in
            emit (include_fragment header start full end (end + n) ∷ []) full
        | none ↦ emit (include_fragment header start end 0 0 ∷ []) end
      ]

  unfoldable pub parse_include : Text → ℕ → Step
  unfolding paired_include
  parse_include b start = elim (scan_tag_header_end b start) [
    | none ↦ emit [] (start + 1)
    | some (end, closing) ↦
        if closing
        then emit (include_fragment (slice b start (end - 2)) start end 0 0 ∷ []) end
        else paired_include b start end
  ]

  -- `pos = tagStart + 1`
  abbrev pass : ℕ → Step
  pass start = emit [] (start + 1)

  -- A self-closing or a paired comment, behind the byte that follows the tag's name.
  comment_body : Text → ℕ → Step
  comment_body b start = elim (scan_tag_header_end b start) [
    | none ↦ pass start
    | some (end, closing) ↦
        if closing
        then emit (strip start end ∷ []) end
        else elim (index tag_comment_close (drop end b)) [
          | none ↦ pass start
          | some n ↦
              let full = end + n + length tag_comment_close in emit (strip start full ∷ []) full
        ]
  ]

  at_comment : Text → ℕ → Step
  unfolding comment_body is_ascii_whitespace
  at_comment b start =
      if stands b start tag_comment_open
      then elim (get_elem? b (start + length tag_comment_open)) [
        | none ↦ fault
        | some c ↦
            if is_ascii_whitespace c || c == b'/' || c == b'>'
            then comment_body b start
            else pass start
      ]
      else pass start

  remove_body : Text → ℕ → Step
  unfolding at_comment
  remove_body b start = elim (index tag_remove_close (drop start b)) [
    | none ↦ at_comment b start
    | some n ↦ let full = start + n + length tag_remove_close in emit (strip start full ∷ []) full
  ]

  at_remove : Text → ℕ → Step
  unfolding remove_body at_comment is_ascii_whitespace
  at_remove b start =
      if stands b start tag_remove_open
      then elim (get_elem? b (start + length tag_remove_open)) [
        | none ↦ fault
        | some c ↦
            if is_ascii_whitespace c || c == b'>' then remove_body b start else at_comment b start
      ]
      else at_comment b start

  at_include : Text → ℕ → Step
  unfolding parse_include at_remove is_ascii_whitespace
  at_include b start =
      if stands b start tag_include_open
      then elim (get_elem? b (start + length tag_include_open)) [
        | none ↦ fault
        | some c ↦
            if is_ascii_whitespace c || c == b'/' || c == b'>'
            then parse_include b start
            else at_remove b start
      ]
      else at_remove b start

  -- `<!--esi`, with the search for its `-->`.
  inline_comment : Text → ℕ → Step
  inline_comment b start =
      let content = start + length tag_inline_comment in
      elim (index tag_html_comment_close (drop content b)) [
        | some n ↦ nested start content (content + n)
        | none ↦ emit (strip start content ∷ []) content
      ]

  -- The body of the loop of `Scan` at a `<`.
  unfoldable pub scan_tag : Text → ℕ → Step
  unfolding inline_comment at_include
  scan_tag b start =
      if stands b start tag_inline_comment then inline_comment b start else at_include b start

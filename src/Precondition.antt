-- ===== src/Precondition.antt =====
-- header.go and handler.go: entity tags, and the conditional headers of a request (RFC 9110).
pub mod Etag
pub mod Rules
use titip.Prelude.{
  ℕ, ◌+◌, ◌*◌, ◌/◌, ◌≡◌, refl, Bool, true, false, not, ◌&&◌, ◌||◌, Option, none, some, List, [],
  ◌∷◌, ltb, ◌==◌, if◌then◌else◌, any,
}
use titip.Prelude.Int.{ℤ, pos, ltb_ℤ, pos_part}
use titip.Text.{Text, codes, ◌==ₜ◌, trim_space, has_prefix, trim_prefix, split}
use titip.Http.{Header, get, is_empty}
use titip.Http.Name
use titip.Freshness.{Instant, Parsers, parse_date, second}

abbrev is_weak : Text → Bool
is_weak t = has_prefix (codes "W/") t || has_prefix (codes "w/") t

-- `strongETagMatches`
unfoldable pub strong_etag_matches : Text → Text → Bool
strong_etag_matches client cached =
    let c = trim_space client in
    let s = trim_space cached in
    if is_empty c || is_empty s then false else if is_weak c || is_weak s then false else c ==ₜ s

abbrev opaque : Text → Text
opaque t = trim_prefix (codes "w/") (trim_prefix (codes "W/") t)

-- `weakETagMatches`
unfoldable pub weak_etag_matches : Text → Text → Bool
weak_etag_matches client cached =
    let c = trim_space client in
    let s = trim_space cached in if is_empty c || is_empty s then false else opaque c ==ₜ opaque s

-- The Unix epoch, from Go's zero time.
abbrev pub unix_epoch : ℕ
unix_epoch = 62135596800 * second

-- Truncated to seconds: is the stored modification time, in Unix nanoseconds, after the client's?
unfoldable pub modified_after : ℤ → Instant → Bool
modified_after last_modified client =
    ltb (client / second) ((unix_epoch + pos_part last_modified) / second)

module _ (p : Parsers) where
  -- The date of a conditional header, against a stored time that is known.
  unfoldable pub date_test : Text → ℤ → (Instant → Bool) → Bool
  date_test header last_modified test =
      if not (is_empty header) && ltb_ℤ (pos 0) last_modified
      then elim (parse_date p header) [
        | none ↦ false
        | some client ↦ not (client == 0) && test client
      ]
      else false

  -- If-Match, or else If-Unmodified-Since: has the precondition failed?
  unfoldable pub precondition_fails : Header → Text → ℤ → Bool
  precondition_fails request etag last_modified =
      let if_match = get request Name.if_match in
      if not (is_empty if_match)
      then (if trim_space if_match ==ₜ codes "*"
          then false
          else not (any (λ tag. strong_etag_matches tag etag) (split b',' if_match)))
      else date_test (get request Name.if_unmodified_since) last_modified
          (λ client. modified_after last_modified client)

  -- If-None-Match, or else If-Modified-Since: has the client the current representation?
  unfoldable pub not_modified : Header → Text → ℤ → Bool
  not_modified request etag last_modified =
      let if_none_match = get request Name.if_none_match in
      if not (is_empty if_none_match)
      then (if trim_space if_none_match ==ₜ codes "*"
          then true
          else not (is_empty etag)
            && any (λ tag. weak_etag_matches tag etag) (split b',' if_none_match))
      else date_test (get request Name.if_modified_since) last_modified
          (λ client. not (modified_after last_modified client))

  -- `evaluatePreconditionsHeaders`: the status to end with, or `none` to proceed.
  unfoldable pub evaluate_preconditions : Header → Text → ℤ → Option ℕ
  evaluate_preconditions request etag last_modified =
      if precondition_fails request etag last_modified
      then some 412
      else if not_modified request etag last_modified
      then some 304
      else none

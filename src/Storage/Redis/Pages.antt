-- ===== src/Storage/Redis/Pages.antt =====
-- storage/redis/redis.go: the loops over the pages of a scan, with fuel.
use titip.Prelude.{
  ℕ, zero, suc, ◌+◌, Bool, true, false, not, Option, none, some, List, [], ◌∷◌, if◌then◌else◌,
}
use titip.Text.{Text, codes, contains}
use titip.Storage.Redis.{
  Command, unlink, scan, Reply, nil, failure, bytes, strings, fields, integer, page, Server,
  is_failure,
}

-- What a loop over pages comes to: no fuel, an error, or its end with a count.
pub data Scanned : Type 0 where
  exhausted errored : Scanned
  ended : ℕ → Scanned

abbrev pub add_count : ℕ → Scanned → Scanned
add_count k exhausted = exhausted
add_count k errored = errored
add_count k (ended n) = ended (k + n)

module _ {S : Type 0} (server : Server S) where
  -- A loop over the pages of SCAN or HSCAN: `ask` is the command for a cursor, `batch` what is done with
  -- the elements of a page. Nil ends the loop over a tag, and is an error elsewhere.
  module _ (nil_ends : Bool) (ask : ℕ → Command) (batch : S → List Text → S × Option ℕ) where
    unfoldable pub after_batch : (S → ℕ → S × Scanned) → ℕ → S × Option ℕ → S × Scanned
    after_batch next c (s, none) = (s, errored)
    after_batch next zero (s, some k) = (s, ended k)
    after_batch next (suc c) (s, some k) = let r = next s (suc c) in (r.0, add_count k r.1)

    unfoldable pub by_reply : (S → ℕ → S × Scanned) → S × Reply → S × Scanned
    unfolding after_batch
    by_reply next (s, page c keys) = after_batch next c (batch s keys)
    by_reply next (s, nil) = (s, if nil_ends then ended 0 else errored)
    by_reply next (s, failure) = (s, errored)
    by_reply next (s, bytes t) = (s, errored)
    by_reply next (s, strings ts) = (s, errored)
    by_reply next (s, fields d) = (s, errored)
    by_reply next (s, integer n) = (s, errored)

    unfoldable pub scan_pages : ℕ → S → ℕ → S × Scanned
    unfolding by_reply
    scan_pages zero s c = (s, exhausted)
    scan_pages (suc n) s c = by_reply (scan_pages n) (server s (ask c))

  -- The primary entries among deleted keys.
  unfoldable pub primary_keys : List Text → ℕ
  primary_keys [] = 0
  primary_keys (k ∷ ks) =
      let rest = primary_keys ks in if contains (codes ":meta:") k then suc rest else rest

  -- Keys are unlinked, where there are any.
  unfoldable pub unlink_some : S → List Text → S × Bool
  unfolding is_failure
  unlink_some s [] = (s, true)
  unlink_some s (k ∷ ks) = let r = server s (unlink (k ∷ ks)) in (r.0, not (is_failure r.1))

  unfoldable pub unlink_page : S → List Text → S × Option ℕ
  unfolding unlink_some primary_keys
  unlink_page s keys =
      let r = unlink_some s keys in (r.0, if r.1 then some (primary_keys keys) else none)

  -- `scanAndUnlink`
  unfoldable pub scan_and_unlink : ℕ → S → Text → S × Scanned
  unfolding scan_pages unlink_page
  scan_and_unlink n s pattern = scan_pages false (λ c. scan c pattern) unlink_page n s 0

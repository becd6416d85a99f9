-- ===== src/Storage/Redis/Purges.antt =====
-- storage/redis/redis.go: the purges.
use titip.Prelude.{
  ℕ, ◌+◌, Bool, true, false, ◌||◌, Option, none, some, List, [], ◌∷◌, ◌++◌, map, if◌then◌else◌,
  length,
}
use titip.Prelude.Int.{ℤ, pos, pos_part, ◌+ℤ◌}
use mathlib.Core.Option
use titip.Text.{Text, codes, ◌==ₜ◌, has_prefix, trim_prefix}
use titip.Purge.Run.{Backend}
use titip.Storage.Redis.{
  hkeys, soft_purge_script, unlink, hscan, scan, Reply, nil, failure, bytes, strings, fields,
  integer, page, Server, send_all, is_failure, meta_key, body_key, tag_key, variant_of_field,
}
use titip.Storage.Redis.Pages.{
  Scanned, exhausted, errored, ended, scan_pages, unlink_some, scan_and_unlink,
}

module _ {S : Type 0} (server : Server S) where
  -- The number that a script returned; `none` is an error.
  abbrev pub marked : Reply → Option ℤ
  marked r = elim r [
    | nil ↦ some (pos 0)
    | failure ↦ none
    | bytes t ↦ none
    | strings ts ↦ none
    | fields d ↦ none
    | integer n ↦ some n
    | page c ts ↦ none
  ]

  -- `softPurgeKeys`: the count, and whether there was no error.
  unfoldable pub soft_purge_keys : S → List Text → S × (ℤ × Bool)
  soft_purge_keys s [] = (s, (pos 0, true))
  soft_purge_keys s (k ∷ ks) =
      let r = server s (soft_purge_script k) in
      let rest = soft_purge_keys r.0 ks in
      (rest.0, elim (marked r.1) [ none ↦ (rest.1.0, false) | some n ↦ (n +ℤ rest.1.0, rest.1.1) ])

  -- The first of each two: HSCAN gives fields with their values.
  abbrev pub every_other : List Text → List Text
  every_other [] = []
  every_other (f ∷ []) = f ∷ []
  every_other (f ∷ v ∷ ts) = f ∷ every_other ts

  module _ (prefix : Text) where
    unfoldable pub body_keys : Text → List Text → List Text
    unfolding variant_of_field
    body_keys k [] = []
    body_keys k (f ∷ fs) =
        let rest = body_keys k fs in
        elim (variant_of_field f) [ none ↦ rest | some v ↦ body_key prefix k v ∷ rest ]

    -- What is made of the fields of an entry.
    unfoldable pub purge_fields : S → Text → Reply → S × Option ℤ
    unfolding body_keys is_failure
    purge_fields s k (strings (f ∷ fs)) =
        let r = server s (unlink (meta_key prefix k ∷ body_keys k (f ∷ fs))) in
        (r.0, if is_failure r.1 then none else some (pos 1))
    purge_fields s k failure = (s, none)
    purge_fields s k nil = (s, some (pos 0))
    purge_fields s k (strings []) = (s, some (pos 0))
    purge_fields s k (bytes t) = (s, some (pos 0))
    purge_fields s k (fields d) = (s, some (pos 0))
    purge_fields s k (integer n) = (s, some (pos 0))
    purge_fields s k (page c ts) = (s, some (pos 0))

    -- `hardPurge`
    unfoldable pub hard_purge : S → Text → S × Option ℤ
    unfolding purge_fields
    hard_purge s k = let r = server s (hkeys (meta_key prefix k)) in purge_fields r.0 k r.1

    -- `softPurge`
    unfoldable pub soft_purge : S → Text → S × Option ℤ
    soft_purge s k = let r = server s (soft_purge_script (meta_key prefix k)) in (r.0, marked r.1)

    -- `Purge`
    unfoldable pub purge : S → Text → Bool → S × Option ℤ
    unfolding hard_purge soft_purge
    purge s k true = soft_purge s k
    purge s k false = hard_purge s k

    abbrev is_explicit : Text → Bool
    is_explicit p =
        has_prefix (codes "meta:") p
        || has_prefix (codes "body:") p
        || has_prefix (codes "tag:") p
        || p ==ₜ codes "*"

    unfoldable pub hard_patterns : Text → List Text
    hard_patterns p =
        if is_explicit p
        then (prefix ++ p) ∷ []
        else (prefix ++ (codes "meta:" ++ p)) ∷ (prefix ++ (codes "body:" ++ (p ++ codes "*"))) ∷ []

    unfoldable pub purge_each : ℕ → S → ℕ → List Text → S × Option ℤ
    unfolding scan_and_unlink
    purge_each n s total [] = (s, some (pos total))
    purge_each n s total (p ∷ ps) =
        let r = scan_and_unlink server n s p in
        elim r.1 [
          | exhausted ↦ (r.0, none)
          | errored ↦ (r.0, none)
          | ended d ↦ purge_each n r.0 (total + d) ps
        ]

    -- `hardPurgePattern`
    unfoldable pub hard_purge_pattern : ℕ → S → Text → S × Option ℤ
    unfolding purge_each hard_patterns
    hard_purge_pattern n s pattern = purge_each n s 0 (hard_patterns pattern)

    -- The soft purge of a page does not stop at an error, which is logged.
    unfoldable pub mark_page : S → List Text → S × Option ℕ
    unfolding soft_purge_keys
    mark_page s keys = let r = soft_purge_keys s keys in (r.0, some (pos_part r.1.0))

    abbrev counted_or : S × Scanned → S × Option ℤ
    counted_or r = elim r.1 [
      | exhausted ↦ (r.0, none)
      | errored ↦ (r.0, none)
      | ended d ↦ (r.0, some (pos d))
    ]

    -- `softPurgePattern`
    unfoldable pub soft_purge_pattern : ℕ → S → Text → S × Option ℤ
    unfolding scan_pages mark_page trim_prefix
    soft_purge_pattern n s pattern = counted_or (
        scan_pages server false
          (λ c. scan c (prefix ++ (codes "meta:" ++ trim_prefix (codes "meta:") pattern))) mark_page
          n s 0)

    -- `PurgeByPattern`
    unfoldable pub purge_by_pattern : ℕ → S → Text → Bool → S × Option ℤ
    unfolding hard_purge_pattern soft_purge_pattern
    purge_by_pattern n s pattern true = soft_purge_pattern n s pattern
    purge_by_pattern n s pattern false = hard_purge_pattern n s pattern

    -- The keys to delete for the entries of a page, by the fields of each; `none` is an error.
    unfoldable pub entry_keys : List Text → List Reply → Option (List Text)
    unfolding body_keys
    entry_keys ks [] = some []
    entry_keys [] (r ∷ rs) = some []
    entry_keys (k ∷ ks) (r ∷ rs) =
        let rest = entry_keys ks rs in
        elim r [
          | nil ↦ rest
          | strings fs ↦ Option.map (λ later. meta_key prefix k ∷ body_keys k fs ++ later) rest
          | failure ↦ none
          | bytes t ↦ none
          | fields d ↦ none
          | integer n ↦ none
          | page c ts ↦ none
        ]

    unfoldable pub delete_entries : S → List Text → S × Bool
    unfolding send_all entry_keys unlink_some
    delete_entries s keys =
        let r = send_all server s (map (λ k. hkeys (meta_key prefix k)) keys) in
        elim (entry_keys keys r.1) [ none ↦ (r.0, false) | some dels ↦ unlink_some server r.0 dels ]

    unfoldable pub mark_entries : S → List Text → S × Bool
    unfolding soft_purge_keys
    mark_entries s keys =
        let r = soft_purge_keys s (map (λ k. meta_key prefix k) keys) in (r.0, r.1.1)

    -- A page of the index of a tag.
    unfoldable pub tag_page : Bool → S → List Text → S × Option ℕ
    unfolding mark_entries delete_entries
    tag_page soft s elements =
        let keys = every_other elements in
        let r = if soft then mark_entries s keys else delete_entries s keys in
        (r.0, if r.1 then some (length keys) else none)

    -- `PurgeByTag`
    unfoldable pub purge_by_tag : ℕ → S → Text → Bool → S × Option ℤ
    unfolding scan_pages tag_page
    purge_by_tag n s tag soft =
        let r = scan_pages server true (λ c. hscan (tag_key prefix tag) c) (tag_page soft) n s 0 in
        elim r.1 [
          | exhausted ↦ (r.0, none)
          | errored ↦ (r.0, none)
          | ended d ↦ (
            if soft then r.0 else (server r.0 (unlink (tag_key prefix tag ∷ []))).0,
            some (pos d),
          )
        ]

    -- `PurgeAll`
    unfoldable pub purge_all : ℕ → S → S × Option ℤ
    unfolding scan_and_unlink
    purge_all n s = counted_or (scan_and_unlink server n s (prefix ++ codes "*"))

    -- The purges, as titip.go calls them, with fuel for the scans.
    abbrev pub redis_backend : ℕ → Backend S
    redis_backend n = record {
      purge = purge;
      purge_by_pattern = purge_by_pattern n;
      purge_by_tag = purge_by_tag n;
      purge_all = purge_all n;
    }

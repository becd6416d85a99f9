-- ===== src/Purge/Run.antt =====
-- titip.go: the purges, run on a store. The store is a parameter, with a state of any type.
pub mod Removes
use titip.Prelude.{Bool, true, false, Option, none, some, List, [], ◌∷◌, if◌then◌else◌}
use titip.Prelude.Int.{ℤ, pos}
use titip.Text.{Text}
use titip.Freshness.{add_64}
use titip.Key.{CacheKey}
use titip.Purge.{ParsedUrl, Operation, build_purge_operation, build_purge_prefix_operation}

-- The purges of a `Storage`: each leaves a state, and gives a count or an error. The Boolean is `soft`.
pub record Backend (S : Type 0) : Type 0 where
  pub purge : S → Text → Bool → S × Option ℤ
  pub purge_by_pattern : S → Text → Bool → S × Option ℤ
  pub purge_by_tag : S → Text → Bool → S × Option ℤ
  pub purge_all : S → S × Option ℤ

-- What a purge returns: a count, an error of the parser, or an error of the store with a count.
pub data Count : Type 0 where
  counted : ℤ → Count
  unparsed : Count
  failed : ℤ → Count

module _ {S : Type 0} (store : Backend S) where
  abbrev count_of : Option ℤ → Count
  count_of none = failed (pos 0)
  count_of (some n) = counted n

  abbrev of_store : S × Option ℤ → S × Count
  of_store r = (r.0, count_of r.1)

  -- The loop over the patterns.
  unfoldable pub purge_patterns : Bool → S → ℤ → List Text → S × Count
  purge_patterns soft s total [] = (s, counted total)
  purge_patterns soft s total (p ∷ ps) =
      let r = store.purge_by_pattern s p soft in
      elim r.1 [ none ↦ (r.0, failed total) | some n ↦ purge_patterns soft r.0 (add_64 total n) ps ]

  unfoldable pub run_keys : Bool → S → Bool → List Text → S × Count
  unfolding purge_patterns
  run_keys soft s is_exact [] = (s, counted (pos 0))
  run_keys soft s true (k ∷ ks) = of_store (store.purge s k soft)
  run_keys soft s false (k ∷ ks) = purge_patterns soft s (pos 0) (k ∷ ks)

  -- `Purge`
  unfoldable pub purge_target : (Text → Option ParsedUrl) → CacheKey → Bool → S → Text → S × Count
  unfolding run_keys
  purge_target parse cfg soft s target = elim (build_purge_operation parse target cfg) [
    | none ↦ (s, unparsed)
    | some op ↦ run_keys soft s op.is_exact op.keys
  ]

  -- `PurgePrefix`
  unfoldable pub purge_prefix : (Text → Option ParsedUrl) → CacheKey → Bool → S → Text → S × Count
  unfolding purge_patterns
  purge_prefix parse cfg soft s prefix = elim (build_purge_prefix_operation parse prefix cfg) [
    | none ↦ (s, unparsed)
    | some keys ↦ purge_patterns soft s (pos 0) keys
  ]

  -- `PurgeTag`
  unfoldable pub purge_tag : Bool → S → Text → S × Count
  purge_tag soft s tag = of_store (store.purge_by_tag s tag soft)

  -- `PurgeAll`
  unfoldable pub purge_everything : S → S × Count
  purge_everything s = of_store (store.purge_all s)

-- ===== src/Purge/Run/Removes.antt =====
-- titip.go: what is left of an entry after a purge of its URL.
use titip.Prelude.{
  ℕ, ◌≡◌, ◌≢◌, refl, Bool, true, false, Option, some, [], ◌∷◌, ◌++◌, arith, Option-cases, inl, inr,
}
use titip.Prelude.Int.{ℤ}
use titip.Text.{Text, codes, has_prefix}
use titip.Key.{CacheKey}
use titip.Key.Escape.Safe.{Each}
use titip.Purge.{ParsedUrl, Operation, build_purge_operation}
use titip.Purge.Named.{IsNamed, by_key, by_pattern}
use titip.Purge.Run.{
  Backend, Count, counted, failed, unparsed, run_keys, purge_target, purge_patterns,
}

-- A byte that stands for itself in a pattern, and for which a star may stand: not a line feed.
pub record IsLiteral (c : ℕ) : Type 0 where
  pub no_star : c ≢ b'*'
  pub no_question : c ≢ b'?'
  pub no_bracket : c ≢ b'['
  pub no_backslash : c ≢ 92
  pub no_line_feed : c ≢ b'\n'

-- What storage.go asks of a hard purge: an entry that is named is gone where no error is returned, by
-- its key, or by a pattern that is a prefix of the key and a star, where all bytes of the key are literal.
pub record HardPurge {S : Type 0} (store : Backend S) (has : S → Text → Bool) : Type 0 where
  pub by_name :
      (s : S) (k : Text) (n : ℤ)
      → (store.purge s k false).1 ≡ some n
      → has (store.purge s k false).0 k ≡ false
  pub by_prefix :
      (s : S) (prefix rest : Text) (n : ℤ)
      → has_prefix (codes "p=") prefix ≡ true
      → Each IsLiteral (prefix ++ rest)
      → (store.purge_by_pattern s (prefix ++ codes "*") false).1 ≡ some n
      → has (store.purge_by_pattern s (prefix ++ codes "*") false).0 (prefix ++ rest) ≡ false

-- A purge that returns no error.
abbrev pub is_counted : Count → Bool
is_counted (counted n) = true
is_counted unparsed = false
is_counted (failed n) = false

module _ {S : Type 0} (store : Backend S) (has : S → Text → Bool) (law : HardPurge store has) where
  one_key :
      (s : S) (k : Text)
      → is_counted (run_keys store false s true (k ∷ [])).1 ≡ true
      → has (run_keys store false s true (k ∷ [])).0 k ≡ false
  unfolding run_keys
  one_key s k e = elim (Option-cases (store.purge s k false).1) [
    | inl n ↦ ground (arith, n)
    | inr (n, c) ↦ law.by_name s k n c
  ]

  one_pattern :
      (s : S) (prefix rest : Text)
      → has_prefix (codes "p=") prefix ≡ true
      → Each IsLiteral (prefix ++ rest)
      → is_counted (run_keys store false s false ((prefix ++ codes "*") ∷ [])).1 ≡ true
      → has (run_keys store false s false ((prefix ++ codes "*") ∷ [])).0 (prefix ++ rest) ≡ false
  unfolding run_keys purge_patterns
  one_pattern s prefix rest begin lit e =
      elim (Option-cases (store.purge_by_pattern s (prefix ++ codes "*") false).1) [
        | inl n ↦ ground (arith, n)
        | inr (n, c) ↦ rw (c, run_keys, purge_patterns) (law.by_prefix s prefix rest n begin lit c)
      ]

  purge_target_runs :
      (parse : Text → Option ParsedUrl) (cfg : CacheKey) (s : S) (target : Text) (op : Operation)
      → build_purge_operation parse target cfg ≡ some op
      → purge_target store parse cfg false s target ≡ run_keys store false s op.is_exact op.keys
  unfolding purge_target
  purge_target_runs parse cfg s target op built = rw (built, purge_target) refl

  -- A hard purge of a target that returns no error leaves no entry under a key that its operation names,
  -- where every byte of the key stands for itself in a pattern and none is a line feed, in a store whose hard purges remove what
  -- they name.
  pub purge_removes :
      (parse : Text → Option ParsedUrl) (cfg : CacheKey) (s : S) (target key : Text)
      (op : Operation)
      → build_purge_operation parse target cfg ≡ some op
      → IsNamed op key
      → Each IsLiteral key
      → is_counted (purge_target store parse cfg false s target).1 ≡ true
      → has (purge_target store parse cfg false s target).0 key ≡ false
  purge_removes parse cfg s target key op built (by_key exact keys) literal e =
      rw (purge_target_runs parse cfg s target op built, exact, keys)
        (one_key s key (rw (purge_target_runs parse cfg s target op built, exact, keys) at e))
  purge_removes parse cfg s target key op built (by_pattern prefix rest begin inexact keys begins)
        literal e =
      rw (purge_target_runs parse cfg s target op built, inexact, keys, begins)
        (one_pattern s prefix rest begin (rw begins at literal)
          (rw (purge_target_runs parse cfg s target op built, inexact, keys) at e))

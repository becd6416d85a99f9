-- ===== src/Storage/Memory/Contract.antt =====
-- internal/teststore/store.go: the store in memory keeps the contract of a hard purge.
use titip.Prelude.{
  ℕ, ◌≡◌, refl, sym, ◌∙◌, ◌⊎◌, inl, inr, Bool, true, false, Option, none, some, List, [], ◌∷◌, ◌++◌,
  arith, if◌then◌else◌, Bool-cases, Option-cases,
}
use titip.Prelude.Int.{ℤ}
use titip.Text.{Text, codes, ◌==ₜ◌, ==ₜ_iff}
use titip.Storage.Dict.{Dict, lookup, lookup-remove}
use titip.Storage.Glob.{match_glob}
use titip.Storage.Glob.Prefix.{match_glob-prefix}
use titip.Storage.Memory.{Store, MetaEntry, holds_key}
use titip.Storage.Memory.Purges.{
  purge_entry, purge_keys, numbered, refused, purge, matching_keys, purge_by_pattern,
  memory_backend,
}
use titip.Purge.Run.Removes.{HardPurge}

-- Is there an entry under the key?
abbrev pub is_some {ℓ} : {A : Type ℓ} → Option A → Bool
is_some none = false
is_some (some a) = true

abbrev pub has_entry : Store → Text → Bool
has_entry s k = is_some (lookup k s.meta)

same_key : (k : Text) → (k ==ₜ k) ≡ true
same_key k = (==ₜ_iff k k).1 refl

-- A hard purge brings no entry back.
purge_keys-keeps_absent :
    (k : Text) (s : Store) (ks : List Text)
    → lookup k s.meta ≡ none
    → lookup k (purge_keys false s ks).0.meta ≡ none
unfolding purge_keys purge_entry
purge_keys-keeps_absent k s [] h = h
purge_keys-keeps_absent k s (j ∷ ks) h = elim (Option-cases (lookup j s.meta)) [
  | inl e ↦ rw (e, purge_keys) (purge_keys-keeps_absent k s ks h)
  | inr (x, e) ↦
      rw (e, purge_keys)
        (purge_keys-keeps_absent k (purge_entry false s j x) ks
          (lookup-remove k j s.meta ∙ ground (arith, h)))
]

-- The keys that are purged are gone.
pub purge_keys-removes :
    (k : Text) (s : Store) (ks : List Text)
    → holds_key k ks ≡ true
    → lookup k (purge_keys false s ks).0.meta ≡ none
unfolding purge_keys purge_entry
purge_keys-removes k s [] h = cc
purge_keys-removes k s (j ∷ ks) h = elim (Option-cases (lookup j s.meta)) [
  | inl e ↦ elim (Bool-cases (j ==ₜ k)) [
    | inl same ↦
        rw (e, purge_keys) (purge_keys-keeps_absent k s ks (rw (sym ((==ₜ_iff j k).0 same)) e))
    | inr other ↦ rw (e, purge_keys) (purge_keys-removes k s ks (ground (arith, h, other)))
  ]
  | inr (x, e) ↦ elim (Bool-cases (j ==ₜ k)) [
    | inl same ↦
        rw (e, purge_keys)
          (purge_keys-keeps_absent k (purge_entry false s j x) ks
            (lookup-remove k j s.meta ∙ rw same refl))
    | inr other ↦
        rw (e, purge_keys)
          (purge_keys-removes k (purge_entry false s j x) ks (ground (arith, h, other)))
  ]
]

kept_key :
    (pattern k j : Text) (e : MetaEntry) (d : Dict MetaEntry)
    → (j ==ₜ k) ≡ true
    → match_glob pattern j ≡ true
    → holds_key k (matching_keys pattern ((j, e) ∷ d)) ≡ true
unfolding matching_keys
kept_key pattern k j e d same m = ground (arith, same, m)

kept_later :
    (pattern k j : Text) (e : MetaEntry) (d : Dict MetaEntry)
    → (j ==ₜ k) ≡ false
    → holds_key k (matching_keys pattern d) ≡ true
    → holds_key k (matching_keys pattern ((j, e) ∷ d)) ≡ true
unfolding matching_keys
kept_later pattern k j e d other held = ground (arith, other, held)

-- A key that is there and that matches is purged by the pattern.
matching_keys-holds :
    (pattern k : Text) (d : Dict MetaEntry)
    → match_glob pattern k ≡ true
    → (lookup k d ≡ none) ⊎ (holds_key k (matching_keys pattern d) ≡ true)
unfolding matching_keys lookup
matching_keys-holds pattern k [] m = inl refl
matching_keys-holds pattern k ((j, e) ∷ d) m = elim (Bool-cases (j ==ₜ k)) [
  | inl same ↦ inr (kept_key pattern k j e d same (rw ((==ₜ_iff j k).0 same) m))
  | inr other ↦ elim (matching_keys-holds pattern k d m) [
    | inl none_left ↦ inl (ground (arith, other, none_left))
    | inr held ↦ inr (kept_later pattern k j e d other held)
  ]
]

absent : (o : Option MetaEntry) → o ≡ none → is_some o ≡ false
absent o e = rw e refl

-- A purge that is not refused leaves what its run leaves.
run_left :
    (closed : Bool) (s : Store) (r : Store × ℕ) (k : Text) (n : ℤ)
    → (if closed then refused s else numbered r).1 ≡ some n
    → lookup k r.0.meta ≡ none
    → has_entry (if closed then refused s else numbered r).0 k ≡ false
run_left true s r k n e gone = cc
run_left false s r k n e gone = absent (lookup k r.0.meta) gone

purge-removes :
    (s : Store) (k : Text) (n : ℤ)
    → (purge s k false).1 ≡ some n
    → has_entry (purge s k false).0 k ≡ false
unfolding purge
purge-removes s k n e =
    run_left s.closed s (purge_keys false s (k ∷ [])) k n e
      (purge_keys-removes k s (k ∷ []) (rw (same_key k) refl))

-- A key that the pattern matches is gone, whether it was there or not.
matched_gone :
    (s : Store) (pattern k : Text)
    → match_glob pattern k ≡ true
    → lookup k (purge_keys false s (matching_keys pattern s.meta)).0.meta ≡ none
matched_gone s pattern k m = elim (matching_keys-holds pattern k s.meta m) [
  | inl e ↦ purge_keys-keeps_absent k s (matching_keys pattern s.meta) e
  | inr held ↦ purge_keys-removes k s (matching_keys pattern s.meta) held
]

by_pattern-removes :
    (s : Store) (pattern k : Text) (n : ℤ)
    → match_glob pattern k ≡ true
    → (purge_by_pattern s pattern false).1 ≡ some n
    → has_entry (purge_by_pattern s pattern false).0 k ≡ false
unfolding purge_by_pattern
by_pattern-removes s pattern k n m e =
    run_left s.closed s (purge_keys false s (matching_keys pattern s.meta)) k n e
      (matched_gone s pattern k m)

pub memory-HardPurge : HardPurge memory_backend has_entry
memory-HardPurge = record {
  by_name = λ s k n e. purge-removes s k n e;
  by_prefix = λ s prefix rest n begin literal e.
      by_pattern-removes s (prefix ++ codes "*") (prefix ++ rest) n
        (match_glob-prefix prefix rest literal) e;
}

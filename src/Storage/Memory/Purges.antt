-- ===== src/Storage/Memory/Purges.antt =====
-- internal/teststore/store.go: the purges, and the store after a series of calls.
use titip.Prelude.{
  ℕ, suc, Bool, true, false, Option, none, some, List, [], ◌∷◌, if◌then◌else◌, length,
}
use titip.Prelude.Int.{ℤ, pos}
use titip.Text.{Text, ◌==ₜ◌}
use titip.Http.{is_empty}
use titip.Freshness.{Instant}
use titip.Storage.{VariantInfo, CacheMetadata}
use titip.Storage.Dict.{Dict, lookup, insert, remove}
use titip.Storage.Glob.{match_glob}
use titip.Purge.Run.{Backend}
use titip.Storage.Memory.{Store, MetaEntry, or_empty, set_variant, new_store}

unfoldable pub without_key : Text → List Text → List Text
without_key k [] = []
without_key k (j ∷ keys) = let rest = without_key k keys in if j ==ₜ k then rest else j ∷ rest

-- The keys that are left of a tag: a tag without keys is deleted.
unfoldable pub put_keys : Text → List Text → Dict (List Text) → Dict (List Text)
put_keys t [] d = remove t d
put_keys t (j ∷ keys) d = insert t (j ∷ keys) d

unfoldable pub drop_tag : Text → Text → Dict (List Text) → Dict (List Text)
unfolding without_key put_keys
drop_tag k t d = elim (lookup t d) [ none ↦ d | some keys ↦ put_keys t (without_key k keys) d ]

unfoldable pub drop_tags : Text → List Text → Dict (List Text) → Dict (List Text)
unfolding drop_tag
drop_tags k [] d = d
drop_tags k (t ∷ ts) d = drop_tags k ts (drop_tag k t d)

-- An entry is marked, or is deleted with its variants and its tags.
unfoldable pub purge_entry : Bool → Store → Text → MetaEntry → Store
unfolding drop_tags
purge_entry true s k e = record s { meta = insert k (record e { soft_purged = true }) s.meta }
purge_entry false s k e = record s {
  tag_index = drop_tags k e.meta.tags s.tag_index;
  meta = remove k s.meta;
  variants = remove k s.variants;
}

-- The entries of the keys that are there, and their number.
unfoldable pub purge_keys : Bool → Store → List Text → Store × ℕ
unfolding purge_entry
purge_keys soft s [] = (s, 0)
purge_keys soft s (k ∷ ks) = elim (lookup k s.meta) [
  | none ↦ purge_keys soft s ks
  | some e ↦ let r = purge_keys soft (purge_entry soft s k e) ks in (r.0, suc r.1)
]

abbrev pub refused : Store → Store × Option ℤ
refused s = (s, none)

abbrev pub numbered : Store × ℕ → Store × Option ℤ
numbered r = (r.0, some (pos r.1))

-- `Purge`
unfoldable pub purge : Store → Text → Bool → Store × Option ℤ
unfolding purge_keys
purge s k soft = if s.closed then refused s else numbered (purge_keys soft s (k ∷ []))

unfoldable pub matching_keys : Text → Dict MetaEntry → List Text
matching_keys pattern [] = []
matching_keys pattern ((k, e) ∷ d) =
    let rest = matching_keys pattern d in if match_glob pattern k then k ∷ rest else rest

-- `PurgeByPattern`
unfoldable pub purge_by_pattern : Store → Text → Bool → Store × Option ℤ
unfolding purge_keys matching_keys
purge_by_pattern s pattern soft =
    if s.closed then refused s else numbered (purge_keys soft s (matching_keys pattern s.meta))

abbrev pub forget_tag : Bool → Text → Store → Store
forget_tag soft tag s = if soft then s else record s { tag_index = remove tag s.tag_index }

-- `PurgeByTag`
unfoldable pub purge_by_tag : Store → Text → Bool → Store × Option ℤ
unfolding purge_keys
purge_by_tag s tag soft =
    let keys = or_empty (lookup tag s.tag_index) in
    let r = purge_keys soft s keys in
    if s.closed
    then refused s
    else if is_empty keys
    then (s, some (pos 0))
    else (forget_tag soft tag r.0, some (pos r.1))

-- `PurgeAll`
unfoldable pub purge_all : Store → Store × Option ℤ
purge_all s =
    if s.closed
    then refused s
    else (record s { meta = []; variants = []; tag_index = [] }, some (pos (length s.meta)))

-- The purges, as titip.go calls them.
abbrev pub memory_backend : Backend Store
memory_backend = record {
  purge = purge;
  purge_by_pattern = purge_by_pattern;
  purge_by_tag = purge_by_tag;
  purge_all = purge_all;
}

-- What the store is asked to do, and its state after it; a call that fails leaves it as it is.
pub data Change : Type 0 where
  sets : Instant → Text → CacheMetadata → VariantInfo → Text → ℤ → Change
  purges purges_pattern purges_tag : Text → Bool → Change
  set_closed : Bool → Change
  purges_all resets : Change

abbrev pub unless_failed : Store → Option Store → Store
unless_failed s none = s
unless_failed s (some t) = t

unfoldable pub changed : Store → Change → Store
changed s (sets now k m v body ttl) = unless_failed s (set_variant s now k m v body ttl)
changed s (purges k soft) = (purge s k soft).0
changed s (purges_pattern pattern soft) = (purge_by_pattern s pattern soft).0
changed s (purges_tag tag soft) = (purge_by_tag s tag soft).0
changed s purges_all = (purge_all s).0
-- `SetClosed`, and `Close` with true.
changed s (set_closed closed) = record s { closed = closed }
-- `Reset`
changed s resets = new_store

-- The store after some calls, the last of them first.
unfoldable pub after : List Change → Store
unfolding changed
after [] = new_store
after (c ∷ cs) = changed (after cs) c

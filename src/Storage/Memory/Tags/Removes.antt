-- ===== src/Storage/Memory/Tags/Removes.antt =====
-- internal/teststore/store.go: a purge by a tag finds every entry that has it.
use titip.Prelude.{
  subst, ℕ, ◌≡◌, refl, inl, inr, Bool, true, false, Option, none, some, List, [], ◌∷◌, arith,
  if◌then◌else◌, length, Bool-cases,
}
use titip.Prelude.Int.{ℤ, pos}
use titip.Http.{is_empty}
use titip.Text.{Text, ◌==ₜ◌, ==ₜ_iff}
use titip.Storage.Dict.{lookup, remove, lookup-remove}
use titip.Storage.Memory.{Store, MetaEntry, holds_key, or_empty, with_variant, expiry, set_variant}
use titip.Storage.Memory.Purges.{
  purge_keys, purge, purge_by_pattern, purge_by_tag, purge_all, Change, sets, purges,
  purges_pattern, purges_tag, purges_all, set_closed, resets, changed, after, unless_failed,
  forget_tag, matching_keys, numbered, refused,
}
use titip.Storage.Memory.Index.{is_listed}
use titip.Storage.Memory.Tags.{IsIndexed, with_variant-IsIndexed, purge_keys-IsIndexed, tagged_gone}

-- A purge by a tag takes the tag out of the index, where no entry has it any more.
forgotten-IsIndexed :
    (s : Store) (tag : Text)
    → ((k : Text) (e : MetaEntry) → lookup k s.meta ≡ some e → holds_key tag e.meta.tags ≡ false)
    → IsIndexed s
    → IsIndexed (record s { tag_index = remove tag s.tag_index })
forgotten-IsIndexed s tag gone ok k t e h held = elim (Bool-cases (tag ==ₜ t)) [
  | inl same ↦
      absurd_tag
        (subst (λ u. holds_key u e.meta.tags ≡ false) ((==ₜ_iff tag t).0 same) (gone k e h))
  | inr other ↦ rw (lookup-remove t tag s.tag_index, other) (ok k t e h held)
]
  where
    absurd_tag : holds_key t e.meta.tags ≡ false → is_listed k t (remove tag s.tag_index) ≡ true
    absurd_tag free = cc

none_held : (k : Text) (keys : List Text) → is_empty keys ≡ true → holds_key k keys ≡ false
unfolding is_empty
none_held k [] e = refl
none_held k (j ∷ keys) e = ground (arith, e)

unlisted :
    (s : Store) (tag k : Text) (e : MetaEntry)
    → IsIndexed s
    → is_empty (or_empty (lookup tag s.tag_index)) ≡ true
    → lookup k s.meta ≡ some e
    → holds_key tag e.meta.tags ≡ false
unlisted s tag k e ok none_listed at = elim (Bool-cases (holds_key tag e.meta.tags)) [
  | inl held ↦ clash (ok k tag e at held)
  | inr free ↦ free
]
  where
    clash : is_listed k tag s.tag_index ≡ true → holds_key tag e.meta.tags ≡ false
    clash listed =
        ground (arith, listed, none_held k (or_empty (lookup tag s.tag_index)) none_listed)

if-IsIndexed :
    (closed : Bool) (s : Store) (r : Store × ℕ)
    → IsIndexed s
    → IsIndexed r.0
    → IsIndexed (if closed then refused s else numbered r).0
if-IsIndexed true s r old new = old
if-IsIndexed false s r old new = new

unless_failed-IsIndexed :
    (closed : Bool) (s t : Store)
    → IsIndexed s
    → IsIndexed t
    → IsIndexed (unless_failed s (if closed then none else some t))
unless_failed-IsIndexed true s t old new = old
unless_failed-IsIndexed false s t old new = new

forget_tag-IsIndexed :
    (soft : Bool) (s : Store) (tag : Text)
    → IsIndexed s
    → IsIndexed (forget_tag soft tag (purge_keys soft s (or_empty (lookup tag s.tag_index))).0)
forget_tag-IsIndexed true s tag ok =
    purge_keys-IsIndexed true s (or_empty (lookup tag s.tag_index)) ok
forget_tag-IsIndexed false s tag ok =
    let r = purge_keys false s (or_empty (lookup tag s.tag_index)) in
    forgotten-IsIndexed r.0 tag (λ k e h. tagged_gone s tag k e ok h)
      (purge_keys-IsIndexed false s (or_empty (lookup tag s.tag_index)) ok)

-- What a purge by a tag leaves: the store as it was where it is closed or has no key under the tag.
abbrev tag_result : Bool → Bool → Store → Text → Bool → Store × ℕ → Store × Option ℤ
tag_result closed none_listed s tag soft r =
    if closed
    then refused s
    else if none_listed
    then (s, some (pos 0))
    else (forget_tag soft tag r.0, some (pos r.1))

tag_result-IsIndexed :
    (closed none_listed : Bool) (s : Store) (tag : Text) (soft : Bool) (r : Store × ℕ)
    → IsIndexed s
    → IsIndexed (forget_tag soft tag r.0)
    → IsIndexed (tag_result closed none_listed s tag soft r).0
tag_result-IsIndexed true b s tag soft r old new = old
tag_result-IsIndexed false true s tag soft r old new = old
tag_result-IsIndexed false false s tag soft r old new = new

purge_by_tag-IsIndexed :
    (s : Store) (tag : Text) (soft : Bool) → IsIndexed s → IsIndexed (purge_by_tag s tag soft).0
unfolding purge_by_tag
purge_by_tag-IsIndexed s tag soft ok =
    tag_result-IsIndexed s.closed (is_empty (or_empty (lookup tag s.tag_index))) s tag soft
      (purge_keys soft s (or_empty (lookup tag s.tag_index))) ok
      (forget_tag-IsIndexed soft s tag ok)

empty-IsIndexed :
    (closed : Bool)
    → IsIndexed (record { closed = closed; meta = []; variants = []; tag_index = [] })
unfolding lookup
empty-IsIndexed closed k t e h held = cc

purge_all-IsIndexed :
    (closed : Bool) (s : Store) (n : Option ℤ)
    → IsIndexed s
    → IsIndexed
        (if closed then refused s else (record s { meta = []; variants = []; tag_index = [] }, n)).0
purge_all-IsIndexed true s n ok = ok
purge_all-IsIndexed false s n ok = empty-IsIndexed s.closed

changed-IsIndexed : (s : Store) (c : Change) → IsIndexed s → IsIndexed (changed s c)
unfolding changed set_variant purge purge_by_pattern purge_all
changed-IsIndexed s (sets now k m v body ttl) ok =
    unless_failed-IsIndexed s.closed s (with_variant s k m v body (expiry now ttl)) ok
      (with_variant-IsIndexed s k m v body (expiry now ttl) ok)
changed-IsIndexed s (purges k soft) ok =
    if-IsIndexed s.closed s (purge_keys soft s (k ∷ [])) ok
      (purge_keys-IsIndexed soft s (k ∷ []) ok)
changed-IsIndexed s (purges_pattern p soft) ok =
    if-IsIndexed s.closed s (purge_keys soft s (matching_keys p s.meta)) ok
      (purge_keys-IsIndexed soft s (matching_keys p s.meta) ok)
changed-IsIndexed s (purges_tag tag soft) ok = purge_by_tag-IsIndexed s tag soft ok
changed-IsIndexed s purges_all ok = purge_all-IsIndexed s.closed s (some (pos (length s.meta))) ok
changed-IsIndexed s (set_closed closed) ok = ok
changed-IsIndexed s resets ok = empty-IsIndexed false

after-IsIndexed : (cs : List Change) → IsIndexed (after cs)
unfolding after
after-IsIndexed [] = empty-IsIndexed false
after-IsIndexed (c ∷ cs) = changed-IsIndexed (after cs) c (after-IsIndexed cs)

tag_result_gone :
    (closed none_listed : Bool) (s : Store) (tag k : Text) (e : MetaEntry) (n : ℤ) (r : Store × ℕ)
    → (none_listed ≡ true → lookup k s.meta ≡ some e → holds_key tag e.meta.tags ≡ false)
    → (lookup k r.0.meta ≡ some e → holds_key tag e.meta.tags ≡ false)
    → (tag_result closed none_listed s tag false r).1 ≡ some n
    → lookup k (tag_result closed none_listed s tag false r).0.meta ≡ some e
    → holds_key tag e.meta.tags ≡ false
tag_result_gone true b s tag k e n r unlisted gone counted h = cc
tag_result_gone false true s tag k e n r unlisted gone counted h = unlisted refl h
tag_result_gone false false s tag k e n r unlisted gone counted h = gone h

-- Whatever was stored and purged before in the store in memory, closed and opened again, in any order: a hard purge by a
-- tag that returns no error leaves no entry whose metadata has the tag.
pub purge_by_tag-removes :
    (cs : List Change) (tag k : Text) (e : MetaEntry) (n : ℤ)
    → (purge_by_tag (after cs) tag false).1 ≡ some n
    → lookup k (purge_by_tag (after cs) tag false).0.meta ≡ some e
    → holds_key tag e.meta.tags ≡ false
unfolding purge_by_tag
purge_by_tag-removes cs tag k e n counted h =
    let s = after cs in
    let keys = or_empty (lookup tag s.tag_index) in
    tag_result_gone s.closed (is_empty keys) s tag k e n (purge_keys false s keys)
      (λ none_listed at. unlisted s tag k e (after-IsIndexed cs) none_listed at)
      (λ at. tagged_gone s tag k e (after-IsIndexed cs) at) counted h

-- ===== src/Storage/Memory/Tags.antt =====
-- internal/teststore/store.go: every entry is listed under its tags.
pub mod Removes
use titip.Prelude.{
  subst, ℕ, ◌≡◌, refl, ap, sym, ◌∙◌, ◌⊎◌, inl, inr, Bool, true, false, Option, none, some, List, [],
  ◌∷◌, arith, if◌then◌else◌, length, Bool-cases, Option-cases,
}
use titip.Prelude.Int.{ℤ, pos}
use titip.Http.{is_empty}
use titip.Freshness.{Instant}
use titip.Storage.{CacheMetadata, VariantInfo}
use titip.Text.{Text, ◌==ₜ◌, ==ₜ_iff}
use titip.Storage.Dict.{Dict, lookup, insert, remove, lookup-insert, lookup-remove}
use titip.Storage.Memory.{
  Store, MetaEntry, holds_key, or_empty, written, with_variant, expiry, set_variant,
}
use titip.Storage.Memory.Purges.{
  purge_entry, purge_keys, purge, purge_by_pattern, purge_by_tag, purge_all, Change, sets, purges,
  purges_pattern, purges_tag, purges_all, changed, after, unless_failed, forget_tag, matching_keys,
  numbered, refused,
}
use titip.Storage.Memory.Index.{is_listed, index_tags-is_listed, drop_tags-is_listed}
use titip.Storage.Memory.Contract.{purge_keys-removes}

abbrev pub IsIndexed : Store → Type 0
IsIndexed s =
    (k t : Text) (e : MetaEntry)
    → lookup k s.meta ≡ some e
    → holds_key t e.meta.tags ≡ true
    → is_listed k t s.tag_index ≡ true

written_meta : (o : Option MetaEntry) (m : CacheMetadata) (t : Instant) → (written o m t).meta ≡ m
unfolding written
written_meta none m t = refl
written_meta (some e) m t = refl

-- The entry that is found after an insertion.
found :
    (j k : Text) (e x : MetaEntry) (d : Dict MetaEntry)
    → lookup j (insert k e d) ≡ some x
    → ((k ==ₜ j) ≡ true × e ≡ x) ⊎ ((k ==ₜ j) ≡ false × lookup j d ≡ some x)
found j k e x d h = elim (Bool-cases (k ==ₜ j)) [
  | inl same ↦ inl (same, ground (arith, h, lookup-insert j k e d, same))
  | inr other ↦ inr (other, ground (arith, h, lookup-insert j k e d, other))
]

pub with_variant-IsIndexed :
    (s : Store) (k : Text) (m : CacheMetadata) (v : VariantInfo) (body : Text) (i : Instant)
    → IsIndexed s
    → IsIndexed (with_variant s k m v body i)
unfolding with_variant
with_variant-IsIndexed s k m v body i ok j t x h held =
    index_tags-is_listed j k t m.tags s.tag_index
    ∙ elim (found j k (written (lookup k s.meta) m i) x s.meta h) [
      | inl (same, is_x) ↦
          rw
            (
              same,
              ap (λ u. holds_key t u.tags) (sym (written_meta (lookup k s.meta) m i))
                  ∙ ap (λ y. holds_key t y.meta.tags) is_x
                  ∙ held,
            )
            refl
      | inr (other, old) ↦ rw (ok j t x old held, other) refl
    ]

marked-IsIndexed :
    (s : Store) (k : Text) (e : MetaEntry)
    → lookup k s.meta ≡ some e
    → IsIndexed s
    → IsIndexed (purge_entry true s k e)
unfolding purge_entry
marked-IsIndexed s k e at ok j t x h held =
    elim (found j k (record e { soft_purged = true }) x s.meta h) [
      | inl (same, is_x) ↦
          subst (λ u. is_listed u t s.tag_index ≡ true) ((==ₜ_iff k j).0 same)
            (ok k t e at (ap (λ y. holds_key t y.meta.tags) is_x ∙ held))
      | inr (other, old) ↦ ok j t x old held
    ]

-- What a hard purge keeps was there before.
kept_entry :
    (j k : Text) (x : MetaEntry) (d : Dict MetaEntry)
    → lookup j (remove k d) ≡ some x
    → ((k ==ₜ j) ≡ false) × (lookup j d ≡ some x)
kept_entry j k x d h = elim (Bool-cases (k ==ₜ j)) [
  | inl same ↦ ground (arith, h, lookup-remove j k d, same)
  | inr other ↦ (other, ground (arith, h, lookup-remove j k d, other))
]

deleted-IsIndexed :
    (s : Store) (k : Text) (e : MetaEntry) → IsIndexed s → IsIndexed (purge_entry false s k e)
unfolding purge_entry
deleted-IsIndexed s k e ok j t x h held =
    let old = kept_entry j k x s.meta h in
    drop_tags-is_listed j k t e.meta.tags s.tag_index old.0 ∙ ok j t x old.1 held

purge_entry-IsIndexed :
    (soft : Bool) (s : Store) (k : Text) (e : MetaEntry)
    → lookup k s.meta ≡ some e
    → IsIndexed s
    → IsIndexed (purge_entry soft s k e)
purge_entry-IsIndexed true s k e at ok = marked-IsIndexed s k e at ok
purge_entry-IsIndexed false s k e at ok = deleted-IsIndexed s k e ok

pub purge_keys-IsIndexed :
    (soft : Bool) (s : Store) (ks : List Text) → IsIndexed s → IsIndexed (purge_keys soft s ks).0
unfolding purge_keys
purge_keys-IsIndexed soft s [] ok = ok
purge_keys-IsIndexed soft s (k ∷ ks) ok = elim (Option-cases (lookup k s.meta)) [
  | inl e ↦ rw (e, purge_keys) (purge_keys-IsIndexed soft s ks ok)
  | inr (x, e) ↦
      rw (e, purge_keys)
        (purge_keys-IsIndexed soft (purge_entry soft s k x) ks
          (purge_entry-IsIndexed soft s k x e ok))
]

purge_keys_kept :
    (j : Text) (x : MetaEntry) (s : Store) (ks : List Text)
    → lookup j (purge_keys false s ks).0.meta ≡ some x
    → lookup j s.meta ≡ some x
unfolding purge_keys purge_entry
purge_keys_kept j x s [] h = h
purge_keys_kept j x s (k ∷ ks) h = elim (Option-cases (lookup k s.meta)) [
  | inl e ↦ purge_keys_kept j x s ks (rw (e, purge_keys) at h)
  | inr (y, e) ↦
      (kept_entry j k x s.meta
        (purge_keys_kept j x (purge_entry false s k y) ks (rw (e, purge_keys) at h))).1
]

-- No entry with the tag is left where the keys of the tag are purged.
pub tagged_gone :
    (s : Store) (tag k : Text) (e : MetaEntry)
    → IsIndexed s
    → lookup k (purge_keys false s (or_empty (lookup tag s.tag_index))).0.meta ≡ some e
    → holds_key tag e.meta.tags ≡ false
tagged_gone s tag k e ok h = elim (Bool-cases (holds_key tag e.meta.tags)) [
  | inl held ↦ left_none (
      purge_keys-removes k s (or_empty (lookup tag s.tag_index))
        (ok k tag e (purge_keys_kept k e s (or_empty (lookup tag s.tag_index)) h) held))
  | inr free ↦ free
]
  where
    left_none :
        lookup k (purge_keys false s (or_empty (lookup tag s.tag_index))).0.meta ≡ none
        → holds_key tag e.meta.tags ≡ false
    left_none n = cc

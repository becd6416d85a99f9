-- ===== src/Storage/Memory/Shows.antt =====
-- internal/teststore/store.go: what GetMeta shows after SetVariant.
use titip.Prelude.{
  ◌<◌, ◌≡◌, refl, inl, inr, Bool, true, false, ◌||◌, Option, none, some, List, [], ◌∷◌, ltb, ◌==◌,
  arith, if◌then◌else◌, Bool-cases,
}
use titip.Text.{Text, ◌==ₜ◌, ==ₜ_iff}
use titip.Freshness.{Instant}
use titip.Storage.{VariantInfo, CacheMetadata, meta_error, meta_found}
use titip.Storage.Dict.{Dict, lookup, insert, lookup-insert}
use titip.Storage.Memory.{
  Store, VariantEntry, MetaEntry, or_empty, has_expired, live_variants, with_default, written,
  variant_entry, with_variant, meta_reply, get_meta,
}
use titip.Handler.Lookup.{find_variant}

-- An entry that is kept at least until the end of a later instant has not expired then.
written_live :
    (o : Option MetaEntry) (m : CacheMetadata) (i now : Instant)
    → now < i
    → has_expired now (written o m i).expires_at ≡ false
unfolding written
written_live none m i now l = ground arith
written_live (some e) m i now l = ground arith

written_kept :
    (o : Option MetaEntry) (m : CacheMetadata) (i : Instant)
    → ((written o m i).meta ≡ m) × ((written o m i).soft_purged ≡ false)
unfolding written
written_kept none m i = (refl, refl)
written_kept (some e) m i = (refl, refl)

is_live : (now i : Instant) → now < i → (i == 0 || ltb now i) ≡ true
is_live now i l = ground arith

find_variant-head :
    (now : Instant) (k : Text) (e : VariantEntry) (d : Dict VariantEntry)
    → now < e.expires_at
    → find_variant k (live_variants now ((k, e) ∷ d)) ≡ some e.variant
unfolding find_variant live_variants
find_variant-head now k e d l = rw (is_live now e.expires_at l, (==ₜ_iff k k).1 refl) refl

behind_other :
    (now : Instant) (k j : Text) (x : VariantEntry) (d : Dict VariantEntry) (v : VariantInfo)
    → (j ==ₜ k) ≡ false
    → find_variant k (live_variants now d) ≡ some v
    → find_variant k (live_variants now ((j, x) ∷ d)) ≡ some v
unfolding find_variant live_variants
behind_other now k j x d v other e = ground (arith, ==ₜ_iff k j, ==ₜ_iff j k, other, e)

-- An entry that is inserted and live is found among the live ones.
find_variant-live :
    (now : Instant) (k : Text) (e : VariantEntry) (d : Dict VariantEntry)
    → now < e.expires_at
    → find_variant k (live_variants now (insert k e d)) ≡ some e.variant
unfolding find_variant live_variants insert
find_variant-live now k e [] l = find_variant-head now k e [] l
find_variant-live now k e ((j, x) ∷ d) l = elim (Bool-cases (j ==ₜ k)) [
  | inl same ↦ rw same (find_variant-head now k e d l)
  | inr other ↦
      rw other
        (behind_other now k j x (insert k e d) e.variant other (find_variant-live now k e d l))
]

shown :
    (closed : Bool) (now : Instant) (d : Dict VariantEntry) (o : Option MetaEntry)
    (m : CacheMetadata) (i : Instant)
    → closed ≡ false
    → now < i
    → (if closed then meta_error else meta_reply now d (some (written o m i)))
      ≡ meta_found (record m { variants = live_variants now d }) false
unfolding meta_reply
shown true now d o m i open_store l = cc
shown false now d o m i open_store l =
    rw (written_live o m i now l, (written_kept o m i).0, (written_kept o m i).1) refl

-- After a variant is stored in an open store, GetMeta shows the metadata that was stored with it, and
-- among its variants the stored one, until it expires.
pub get_meta-with_variant :
    (s : Store) (k : Text) (m : CacheMetadata) (v : VariantInfo) (body : Text) (i now : Instant)
    → s.closed ≡ false
    → now < i
    → (vs : List (Text × VariantInfo)) × (get_meta (with_variant s k m v body i) now k
        ≡ meta_found (record m { variants = vs }) false)
      × (find_variant (with_default v.variant_key) vs
          ≡ some (record v { variant_key = with_default v.variant_key }))
unfolding get_meta with_variant
get_meta-with_variant s k m v body i now open_store l =
    let key = with_default v.variant_key in
    let d = insert key (variant_entry v body i) (or_empty (lookup k s.variants)) in
    (
      live_variants now d,
      rw
          (
            lookup-insert k k (written (lookup k s.meta) m i) s.meta,
            lookup-insert k k d s.variants,
            (==ₜ_iff k k).1 refl,
          )
          (shown s.closed now d (lookup k s.meta) m i open_store l),
      find_variant-live now key (variant_entry v body i) (or_empty (lookup k s.variants)) l,
    )

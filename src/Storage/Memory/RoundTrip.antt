-- ===== src/Storage/Memory/RoundTrip.antt =====
-- internal/teststore/store.go: what GetVariant returns after SetVariant.
use titip.Prelude.{subst, ◌≡◌, refl, inl, inr, false, ◌&&◌, some, arith, if◌then◌else◌, Bool-cases}
use titip.Prelude.Int.{ℤ}
use titip.Text.{Text, ◌==ₜ◌, ==ₜ_iff}
use titip.Freshness.{Instant}
use titip.Storage.{VariantInfo, CacheMetadata, variant_absent, variant_found}
use titip.Storage.Dict.{Dict, lookup, insert, lookup-insert}
use titip.Storage.Memory.{
  Store, VariantEntry, or_empty, has_expired, with_default, expiry, variant_entry, with_variant,
  set_variant, get_variant, variant_reply,
}

-- An insertion in the dictionary of one key.
inner_lookup :
    (j k p q : Text) (e : VariantEntry) (d : Dict (Dict VariantEntry))
    → lookup q (or_empty (lookup j (insert k (insert p e (or_empty (lookup k d))) d)))
      ≡ (if k ==ₜ j && p ==ₜ q then some e else lookup q (or_empty (lookup j d)))
inner_lookup j k p q e d = elim (Bool-cases (k ==ₜ j)) [
  | inl same ↦
      rw
        (
          lookup-insert j k (insert p e (or_empty (lookup k d))) d,
          same,
          lookup-insert q p e (or_empty (lookup k d)),
          (==ₜ_iff k j).0 same,
        )
        refl
  | inr other ↦ rw (lookup-insert j k (insert p e (or_empty (lookup k d))) d, other) refl
]

reply_after :
    (s : Store) (now : Instant) (k j q : Text) (m : CacheMetadata) (v : VariantInfo) (body : Text)
    (i : Instant)
    → s.closed ≡ false
    → get_variant (with_variant s k m v body i) now j q ≡ (
        if k ==ₜ j && with_default v.variant_key ==ₜ with_default q
        then variant_reply now (some (variant_entry v body i))
        else get_variant s now j q)
unfolding get_variant with_variant
reply_after s now k j q m v body i open_store =
    rw
      (inner_lookup j k (with_default v.variant_key) (with_default q) (variant_entry v body i)
        s.variants)
      (ground (arith, open_store))

pub stored :
    (s t : Store) (now : Instant) (k : Text) (m : CacheMetadata) (v : VariantInfo) (body : Text)
    (ttl : ℤ)
    → set_variant s now k m v body ttl ≡ some t
    → (s.closed ≡ false) × (with_variant s k m v body (expiry now ttl) ≡ t)
unfolding set_variant
stored s t now k m v body ttl e = elim (Bool-cases s.closed) [
  | inl closed ↦ ground (arith, closed, e)
  | inr open_store ↦ (open_store, ground (arith, open_store, e))
]

-- After SetVariant without an error, GetVariant under the same key and variant key, an empty one being
-- `default`, returns the variant and the body that were stored until they expire, and no entry after
-- that; an entry without a TTL does not expire. Under all other keys it returns what it did before.
pub get_variant-set_variant :
    (s t : Store) (now later : Instant) (k j q : Text) (m : CacheMetadata) (v : VariantInfo)
    (body : Text) (ttl : ℤ)
    → set_variant s now k m v body ttl ≡ some t
    → get_variant t later j q ≡ (
        if k ==ₜ j && with_default v.variant_key ==ₜ with_default q
        then (if has_expired later (expiry now ttl)
            then variant_absent
            else variant_found (record v { variant_key = with_default v.variant_key }) body)
        else get_variant s later j q)
get_variant-set_variant s t now later k j q m v body ttl e =
    let r = stored s t now k m v body ttl e in
    subst
      (λ u. get_variant u later j q ≡ (
        if k ==ₜ j && with_default v.variant_key ==ₜ with_default q
        then variant_reply later (some (variant_entry v body (expiry now ttl)))
        else get_variant s later j q))
      r.1 (reply_after s later k j q m v body (expiry now ttl) r.0)

-- ===== src/Storage/Memory.antt =====
-- internal/teststore/store.go: the store in memory, which copies what it keeps and what it returns
-- (`zeroCopy` is off), with no hook set. Metadata and variants are never nil. An instant of 0 is Go's
-- zero time: no expiry.
pub mod Purges
pub mod RoundTrip
pub mod Shows
pub mod Contract
pub mod Index
pub mod Tags
use titip.Prelude.{
  ℕ, suc, ◌+◌, Bool, true, false, not, ◌&&◌, ◌||◌, Option, none, some, List, [], ◌∷◌, ◌++◌, any,
  ltb, ◌==◌, if◌then◌else◌, length,
}
use titip.Prelude.Int.{ℤ, pos, pos_part, ltb_ℤ}
use titip.Text.{Text, codes, ◌==ₜ◌}
use titip.Http.{is_empty}
use titip.Freshness.{Instant}
use titip.Storage.{
  VariantInfo, CacheMetadata, MetaReply, meta_error, meta_absent, meta_found, VariantReply,
  variant_error, variant_absent, variant_found,
}
use titip.Storage.Dict.{Dict, lookup, insert, remove}
use titip.Storage.Glob.{match_glob}
use titip.Purge.Run.{Backend}

pub record VariantEntry : Type 0 where
  pub variant : VariantInfo
  pub body : Text
  pub expires_at : Instant

pub record MetaEntry : Type 0 where
  pub meta : CacheMetadata
  pub soft_purged : Bool
  pub expires_at : Instant

pub record Store : Type 0 where
  pub closed : Bool
  pub meta : Dict MetaEntry
  pub variants : Dict (Dict VariantEntry)
  pub tag_index : Dict (List Text)

-- `New`
abbrev pub new_store : Store
new_store = record { closed = false; meta = []; variants = []; tag_index = [] }

abbrev pub or_empty {ℓ} : {A : Type ℓ} → Option (List A) → List A
or_empty none = []
or_empty (some xs) = xs

-- `!t.IsZero() && time.Now().After(t)`
abbrev pub has_expired : Instant → Instant → Bool
has_expired now t = not (t == 0) && ltb t now

-- The variants that GetMeta shows.
unfoldable pub live_variants : Instant → Dict VariantEntry → List (Text × VariantInfo)
live_variants now [] = []
live_variants now ((k, e) ∷ d) =
    let rest = live_variants now d in
    if e.expires_at == 0 || ltb now e.expires_at then (k, e.variant) ∷ rest else rest

abbrev pub with_default : Text → Text
with_default k = if is_empty k then codes "default" else k

abbrev pub variant_reply : Instant → Option VariantEntry → VariantReply
variant_reply now none = variant_absent
variant_reply now (some e) =
    if has_expired now e.expires_at then variant_absent else variant_found e.variant e.body

unfoldable pub meta_reply : Instant → Dict VariantEntry → Option MetaEntry → MetaReply
unfolding live_variants
meta_reply now d none = meta_absent
meta_reply now d (some e) =
    if has_expired now e.expires_at
    then meta_absent
    else meta_found (record e.meta { variants = live_variants now d }) e.soft_purged

module _ (s : Store) where
  -- `GetMeta`
  unfoldable pub get_meta : Instant → Text → MetaReply
  unfolding meta_reply
  get_meta now k =
      if s.closed
      then meta_error
      else meta_reply now (or_empty (lookup k s.variants)) (lookup k s.meta)

  -- `GetVariant`
  unfoldable pub get_variant : Instant → Text → Text → VariantReply
  get_variant now k variant_key =
      if s.closed
      then variant_error
      else variant_reply now (lookup (with_default variant_key) (or_empty (lookup k s.variants)))

abbrev pub holds_key : Text → List Text → Bool
holds_key k keys = any (λ j. j ==ₜ k) keys

abbrev pub add_key : Text → List Text → List Text
add_key k keys = if holds_key k keys then keys else k ∷ keys

-- The tags of an entry are indexed.
unfoldable pub index_tags : Text → List Text → Dict (List Text) → Dict (List Text)
index_tags k [] d = d
index_tags k (t ∷ ts) d = index_tags k ts (insert t (add_key k (or_empty (lookup t d))) d)

abbrev pub later_of : Instant → Instant → Instant
later_of old new = if ltb old new then new else old

-- The entry after a write: the flag of a soft purge is reset, and the expiry moves on alone.
unfoldable pub written : Option MetaEntry → CacheMetadata → Instant → MetaEntry
written none m t = record { meta = m; soft_purged = false; expires_at = t }
written (some e) m t = record {
  meta = m;
  soft_purged = false;
  expires_at = later_of e.expires_at t;
}

abbrev pub expiry : Instant → ℤ → Instant
expiry now ttl = if ltb_ℤ (pos 0) ttl then now + pos_part ttl else 0

abbrev pub variant_entry : VariantInfo → Text → Instant → VariantEntry
variant_entry v body t = record {
  variant = record v { variant_key = with_default v.variant_key };
  body = body;
  expires_at = t;
}

-- The store with an entry of one variant more.
unfoldable pub with_variant : Store → Text → CacheMetadata → VariantInfo → Text → Instant → Store
unfolding written index_tags
with_variant s k m v body t = record s {
  meta = insert k (written (lookup k s.meta) m t) s.meta;
  tag_index = index_tags k m.tags s.tag_index;
  variants =
      insert k
        (insert (with_default v.variant_key) (variant_entry v body t)
          (or_empty (lookup k s.variants)))
        s.variants;
}

-- `SetVariant`: `none` is an error.
unfoldable pub set_variant :
    Store → Instant → Text → CacheMetadata → VariantInfo → Text → ℤ → Option Store
unfolding with_variant
set_variant s now k m v body ttl =
    if s.closed then none else some (with_variant s k m v body (expiry now ttl))

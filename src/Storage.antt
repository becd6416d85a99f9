-- ===== src/Storage.antt =====
-- storage/storage.go and proto/titip.proto: what is stored for a page, and the replies of a store.
pub mod Dict
pub mod Glob
pub mod Memory
pub mod Redis
use titip.Prelude.{ℕ, Bool, List}
use titip.Prelude.Int.{ℤ}
use titip.Text.{Text}
use titip.Http.{Header}
use titip.Esi.Fragment.{Fragment}

pub record VariantInfo : Type 0 where
  pub variant_key : Text
  pub status_code : ℕ
  pub response_headers : Header
  pub etag : Text
  pub last_modified_unix_nano : ℤ
  pub raw_body_size : ℤ
  pub esi_fragments : List Fragment
  pub storage_compression : Text

pub record CacheMetadata : Type 0 where
  pub primary_key : Text
  pub vary_header_names : List Text
  pub variants : List (Text × VariantInfo)
  pub created_at_unix_nano : ℤ
  pub expires_at_unix_nano : ℤ
  pub stale_until_unix_nano : ℤ
  pub corrected_initial_age_seconds : ℤ
  pub tags : List Text

-- `GetMeta`: an error, nothing, or the metadata and whether it is soft-purged.
pub data MetaReply : Type 0 where
  meta_error meta_absent : MetaReply
  meta_found : CacheMetadata → Bool → MetaReply

-- `GetVariant`: an error, nothing, or the variant and its compressed body.
pub data VariantReply : Type 0 where
  variant_error variant_absent : VariantReply
  variant_found : VariantInfo → Text → VariantReply

-- The reads of a `Storage`, as they stand while one request is served.
pub record Storage : Type 0 where
  pub get_meta : Text → MetaReply
  pub get_variant : Text → Text → VariantReply

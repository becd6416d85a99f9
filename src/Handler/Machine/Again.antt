-- ===== src/Handler/Machine/Again.antt =====
-- handler.go with internal/teststore/store.go: a response that was stored answers the next request.
use titip.Prelude.{ℕ, false, Option, some, List}
use titip.Text.{Text}
use titip.Http.{Header}
use titip.Freshness.{Instant, FreshnessInfo}
use titip.Key.{Request}
use titip.Key.Primary.{generate_primary_key}
use titip.Key.Variant.{generate_variant_key}
use titip.Esi.Fragment.{Fragment}
use titip.Storage.{VariantInfo, CacheMetadata, Storage}
use titip.Storage.Memory.{Store, with_default, set_variant, get_meta, get_variant}
use titip.Handler
use titip.Handler.{Config, Context, World, Event, RequestDirectives, State}
use titip.Handler.Lookup.{or_default}
use titip.Handler.Save.{compressed, new_metadata, new_variant, extract_vary_header_names}
use titip.Handler.Machine.{acquired}
use titip.Handler.Machine.Fresh.{with_fresh}

-- The reads of the store in memory at an instant.
abbrev pub memory_storage : Store → Instant → Storage
memory_storage s now = record {
  get_meta = λ k. get_meta s now k;
  get_variant = λ k v. get_variant s now k v;
}

-- A world whose requests read the store in memory.
abbrev pub on_store : World → Store → World
on_store w s = record w { storage = memory_storage s w.clock }

-- What an event does to the store in memory; `none` is an error.
abbrev pub applied : Store → Instant → Event → Option Store
applied s now (Handler.set_variant k m v body ttl) = set_variant s now k m v body ttl
applied s now _ = some s

module _ (cfg : Config) (w : World) (t : Store) (d : Option RequestDirectives) (r : Request)
    (m : CacheMetadata) (v : VariantInfo) where
  abbrev w_t : World
  w_t = on_store w t

  abbrev primary : Text
  primary = generate_primary_key r cfg.cache_key

  abbrev key : Text
  key = or_default (generate_variant_key r.header m.vary_header_names)

  abbrev asked : Context
  asked = record (acquired cfg w_t r) { directives = d }

  abbrev keyed : Context
  keyed = record asked { primary_key = primary; meta = some m; is_soft_purged = false }

  abbrev matched : Context
  matched = with_fresh cfg w_t (record asked { primary_key = primary; variant_key = key }) m v

module _ (cfg : Config) (saver w : World) (s t : Store) (now : Instant) (first r : Request)
    (d : Option RequestDirectives) (code : ℕ) (h : Header) (body : Text) (fs : List Fragment)
    (f : FreshnessInfo) where
  abbrev first_key : Text
  first_key = generate_primary_key first cfg.cache_key

  abbrev first_variant_key : Text
  first_variant_key = or_default (generate_variant_key first.header (extract_vary_header_names h))

  abbrev saved : VariantInfo
  saved = new_variant cfg saver first_variant_key code h body fs

  abbrev metadata : CacheMetadata
  metadata = new_metadata cfg saver first_key h f

  abbrev bytes : Text
  bytes = (compressed saver.configured h body).1

  abbrev shown_variant : VariantInfo
  shown_variant = record saved { variant_key = with_default saved.variant_key }

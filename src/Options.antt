-- ===== src/Options.antt =====
-- config.go: the options of the middleware, and what `New` of titip.go makes of them. A logger, a registerer
-- and a store stand for whether one is given.
pub mod Readable
use titip.Prelude.{
  ℕ, ◌*◌, ◌++◌, Bool, true, false, not, any, ◌&&◌, ◌||◌, Option, none, some, List, [], ◌∷◌,
  if◌then◌else◌,
}
use titip.Prelude.Int.{ℤ, pos, leb_ℤ, ltb_ℤ}
use titip.Text.{Text, codes, trim_space, to_lower}
use titip.Http.{is_empty}
use titip.Http.Name
use titip.Freshness.{second}
use titip.Key.{CacheKey}
use titip.Storage.Dict.{Dict, lookup, insert}
use titip.Validated.{where_valid}
use titip.Esi.Options.{EsiOption, with_logger, with_metrics, Processor, new_processor}

-- `Compressor`
pub record Compressor : Type 0 where
  pub name : Text
  pub compress : Text → Option Text
  pub decompress : Text → Option Text

-- The codecs of the packages lz4 and zstd.
pub record Codecs : Type 0 where
  pub lz4 : Compressor
  pub zstd : Compressor

-- `config`, with the fields of `serverTimingConfig`
pub record TitipConfig : Type 0 where
  pub storage_timeout : ℤ
  pub storage_compression : Text
  pub compressors : Dict Compressor
  pub cache_key : CacheKey
  pub tag_header_name : Text
  pub cache_status_mode : ℤ
  pub respect_client_cache_control : Bool
  pub convert_head_to_get : Bool
  pub auto_invalidate_mutating_methods : Bool
  pub background_fetch_timeout : ℤ
  pub esi_options : Option (List (Option EsiOption))
  pub has_timing : Bool
  pub timing_cookie_name : Text
  pub timing_cookie_value : Text
  pub has_metrics : Bool

pub data TitipOption : Type 0 where
  without_convert_head_to_get with_auto_invalidate_mutating_methods : TitipOption
  with_respect_client_cache_control with_server_timing : TitipOption
  with_titip_metrics with_titip_logger : Bool → TitipOption
  with_storage_timeout with_cache_status with_background_fetch_timeout : ℤ → TitipOption
  with_cache_key : CacheKey → TitipOption
  with_tag_header with_storage_compression : Text → TitipOption
  with_esi : List (Option EsiOption) → TitipOption
  with_server_timing_cookie : Text → Text → TitipOption
  with_storage_compressor : Option Compressor → TitipOption

abbrev pub is_nil : Option EsiOption → Bool
is_nil none = true
is_nil (some o) = false

abbrev pub or_none : Option (List (Option EsiOption)) → List (Option EsiOption)
or_none none = []
or_none (some os) = os

-- A name as it stands in the registry of codecs.
abbrev pub codec_name : Text → Text
codec_name t = to_lower (trim_space t)

abbrev pub is_known : Text → Dict Compressor → Bool
is_known k d = elim (lookup k d) [ none ↦ false | some v ↦ true ]

unfoldable pub apply_titip_option : TitipConfig → TitipOption → Option TitipConfig
apply_titip_option c without_convert_head_to_get = some (record c { convert_head_to_get = false })
apply_titip_option c with_auto_invalidate_mutating_methods =
    some (record c { auto_invalidate_mutating_methods = true })
apply_titip_option c with_respect_client_cache_control =
    some (record c { respect_client_cache_control = true })
apply_titip_option c with_server_timing = some (record c { has_timing = true })
apply_titip_option c (with_titip_metrics given) =
    where_valid given (record c { has_metrics = true })
apply_titip_option c (with_titip_logger given) = where_valid given c
apply_titip_option c (with_storage_timeout d) =
    where_valid (ltb_ℤ (pos 0) d) (record c { storage_timeout = d })
apply_titip_option c (with_cache_status m) =
    where_valid (leb_ℤ (pos 0) m && leb_ℤ m (pos 2)) (record c { cache_status_mode = m })
apply_titip_option c (with_background_fetch_timeout d) =
    where_valid (leb_ℤ (pos 0) d) (record c { background_fetch_timeout = d })
apply_titip_option c (with_cache_key k) = some (record c { cache_key = k })
apply_titip_option c (with_tag_header t) =
    where_valid (not (is_empty (trim_space t))) (record c { tag_header_name = trim_space t })
apply_titip_option c (with_storage_compression t) =
    where_valid (not (is_empty (codec_name t))) (record c { storage_compression = codec_name t })
apply_titip_option c (with_esi os) =
    where_valid (not (any is_nil os))
      (record c { esi_options = some (or_none c.esi_options ++ os) })
apply_titip_option c (with_server_timing_cookie n v) =
    where_valid (not (is_empty (trim_space n) || is_empty (trim_space v))) (record c {
      has_timing = true;
      timing_cookie_name = trim_space n;
      timing_cookie_value = trim_space v;
    })
apply_titip_option c (with_storage_compressor none) = none
apply_titip_option c (with_storage_compressor (some z)) =
    where_valid (not (is_empty (codec_name z.name) || is_known (codec_name z.name) c.compressors))
      (record c { compressors = insert (codec_name z.name) z c.compressors })

-- `noneCompressor`
abbrev pub none_compressor : Compressor
none_compressor = record { name = codes "none"; compress = λ t. some t; decompress = λ t. some t }

abbrev pub built_in : Codecs → Dict Compressor
built_in lib =
    (codes "lz4", lib.lz4) ∷ (codes "none", none_compressor) ∷ (codes "zstd", lib.zstd) ∷ []

abbrev pub default_config : Codecs → CacheKey → TitipConfig
default_config lib key = record {
  storage_timeout = pos (5 * second);
  storage_compression = codes "lz4";
  compressors = built_in lib;
  cache_key = key;
  tag_header_name = Name.cache_tag;
  cache_status_mode = pos 0;
  respect_client_cache_control = false;
  convert_head_to_get = true;
  auto_invalidate_mutating_methods = false;
  background_fetch_timeout = pos (125 * second);
  esi_options = none;
  has_timing = false;
  timing_cookie_name = [];
  timing_cookie_value = [];
  has_metrics = false;
}

unfoldable pub apply_options : TitipConfig → List (Option TitipOption) → Option TitipConfig
unfolding apply_titip_option
apply_options c [] = some c
apply_options c (none ∷ os) = none
apply_options c (some o ∷ os) = elim (apply_titip_option c o) [
  | none ↦ none
  | some d ↦ apply_options d os
]

-- `Titip`, less the store and what it counts
pub record Titip : Type 0 where
  pub config : TitipConfig
  pub esi_processor : Option Processor

-- The options of the ESI processor: the logger, the metrics where there are some, and those given.
abbrev pub processor_options : TitipConfig → List (Option EsiOption) → List (Option EsiOption)
processor_options c os =
    some (with_logger true) ∷ (if c.has_metrics then some (with_metrics true) ∷ [] else []) ++ os

-- The middleware with its ESI processor, if one is asked for.
unfoldable pub with_processor : TitipConfig → Option Titip
unfolding new_processor
with_processor c = elim c.esi_options [
  | none ↦ some (record { config = c; esi_processor = none })
  | some os ↦ elim (new_processor (processor_options c os)) [
    | none ↦ none
    | some p ↦ some (record { config = c; esi_processor = some p })
  ]
]

-- The rest of `New`, when the options have been applied.
unfoldable pub checked : TitipConfig → Option Titip
unfolding with_processor
checked c =
    let made = with_processor c in
    if is_known c.storage_compression c.compressors then made else none

-- `New`; `key` is the empty `CacheKey`, and `has_store` whether a store is given.
unfoldable pub new_titip : Codecs → CacheKey → Bool → List (Option TitipOption) → Option Titip
unfolding apply_options checked
new_titip lib key false os = none
new_titip lib key true os = elim (apply_options (default_config lib key) os) [
  | none ↦ none
  | some c ↦ checked c
]

-- ===== src/Tests/Options.antt =====
-- The options of the middleware.
use titip.Prelude.{◌≡◌, refl, true, Option, none, some, List, [], ◌∷◌}
use titip.Text.{Text, codes, trim_space, to_lower, ◌==ₜ◌}
use titip.Http.{is_empty}
use titip.Storage.Dict.{lookup, insert}
use titip.Options.{
  Codecs, Compressor, Titip, TitipOption, codec_name, is_known, none_compressor, built_in,
  default_config, with_storage_compressor, with_storage_compression, new_titip,
}
use titip.Options.Readable.{new_titip-reads}
use titip.Tests.Handler.{config}

abbrev pub plain_codec : Text → Compressor
plain_codec name = record { name = name; compress = λ t. some t; decompress = λ t. some t }

abbrev pub codecs : Codecs
codecs = record { lz4 = plain_codec (codes "lz4"); zstd = plain_codec (codes "zstd") }

abbrev snappy : Compressor
snappy = plain_codec (codes "snappy")

-- A codec is registered and chosen, under a name with a capital and spaces.
abbrev given_options : List (Option TitipOption)
given_options =
    some (with_storage_compressor (some snappy))
    ∷ some (with_storage_compression (codes " Snappy "))
    ∷ []

abbrev made : Titip
made = record {
  config = record (default_config codecs config.cache_key) {
    storage_compression = codes "snappy";
    compressors = insert (codes "snappy") snappy (built_in codecs);
  };
  esi_processor = none;
}

is_made : new_titip codecs config.cache_key true given_options ≡ some made
unfolding new_titip lookup insert to_lower trim_space is_empty ◌==ₜ◌
is_made = refl

is_found : lookup made.config.storage_compression made.config.compressors ≡ some snappy
unfolding lookup insert ◌==ₜ◌
is_found = refl

is_plain : codec_name snappy.name ≡ snappy.name
unfolding to_lower trim_space
is_plain = refl

new_titip-reads_example :
    (lookup (codes "snappy") made.config.compressors ≡ some snappy)
    × (is_known (codes "snappy") made.config.compressors ≡ true)
    × (lookup (codes "lz4") made.config.compressors ≡ some codecs.lz4)
    × (lookup (codes "none") made.config.compressors ≡ some none_compressor)
    × (lookup (codes "zstd") made.config.compressors ≡ some codecs.zstd)
new_titip-reads_example =
    new_titip-reads codecs refl refl config.cache_key true given_options made snappy is_made
      is_found is_plain

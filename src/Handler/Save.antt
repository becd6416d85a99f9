-- ===== src/Handler/Save.antt =====
-- handler.go, header.go, compress.go: what is stored of a response.
pub mod Clean
use titip.Prelude.{
  ℕ, suc, ◌/◌, ◌+◌, Bool, true, false, not, ◌&&◌, ◌||◌, Option, none, some, List, [], ◌∷◌, ◌++◌,
  map, any, ltb, length, ◌==◌, if◌then◌else◌,
}
use titip.Prelude.Int.{ℤ, pos, negsuc, sub_ℕ, ◌+ℤ◌, ltb_ℤ, leb_ℤ, max_ℤ}
use titip.Text.{Text, codes, ◌==ₜ◌, is_space, split, trim_space, to_lower, has_prefix, contains}
use titip.Http.{Header, get, values, is_empty, canonical_header_key}
use titip.Http.Name
use titip.Freshness.{Instant, FreshnessInfo, Parsers, parse_date, second, add_64}
use titip.Key.{Request}
use titip.Key.Variant.{generate_variant_key}
use titip.Esi.Fragment.{Fragment}
use titip.Storage.{VariantInfo, CacheMetadata}
use titip.Handler.{Config, World, Response, Event, set_variant}
use titip.Handler.Lookup.{unix_nano, or_default}

abbrev pub named : Text → List Text → Bool
named k names = any (λ n. k ==ₜ n) names

-- `isHopByHopHeader`
unfoldable pub is_hop_by_hop_header : Text → Bool
is_hop_by_hop_header k = named (canonical_header_key k) (
    codes "Connection"
    ∷ codes "Keep-Alive"
    ∷ codes "Proxy-Authenticate"
    ∷ codes "Proxy-Authorization"
    ∷ codes "Proxy-Connection"
    ∷ codes "Te"
    ∷ codes "Trailers"
    ∷ codes "Transfer-Encoding"
    ∷ codes "Upgrade"
    ∷ [])

-- What `copyNonHopHeaders` copies.
unfoldable pub non_hop_headers : Header → Header
non_hop_headers [] = []
non_hop_headers ((k, vs) ∷ h) =
    let rest = non_hop_headers h in if is_hop_by_hop_header k then rest else (k, vs) ∷ rest

-- The header names that Connection lists.
unfoldable pub connection_tokens : Header → List Text
connection_tokens h =
    let conn = get h Name.connection in
    if is_empty conn then [] else map (λ t. canonical_header_key (trim_space t)) (split b',' conn)

unfoldable pub stored_headers : List Text → Header → Header
stored_headers tokens [] = []
stored_headers tokens ((k, vs) ∷ h) =
    let rest = stored_headers tokens h in
    let canon = canonical_header_key k in
    if is_hop_by_hop_header canon || canon ==ₜ codes "Set-Cookie"
    then rest
    else if not (is_empty canon) && named canon tokens
    then rest
    else (k, vs) ∷ rest

-- `protoHeadersFromHTTP`
unfoldable pub proto_headers_from_http : Header → Header
unfolding connection_tokens stored_headers
proto_headers_from_http h = stored_headers (connection_tokens h) h

abbrev non_empty : List Text → List Text
non_empty [] = []
non_empty (t ∷ ts) = let rest = non_empty ts in if is_empty t then rest else t ∷ rest

-- `splitAndTrimTags`: a field ends at a comma or a space.
unfoldable pub split_and_trim_tags : Text → List Text
split_and_trim_tags s = non_empty (split b',' (map (λ c. if is_space c then b',' else c) s))

-- `extractTags`
unfoldable pub extract_tags : Header → Text → List Text
unfolding split_and_trim_tags
extract_tags h tag_name =
    let val = get h (if is_empty tag_name then Name.cache_tag else tag_name) in
    if is_empty val then [] else split_and_trim_tags val

-- The names of one list, behind those that are there.
unfoldable pub add_names : List Text → List Text → List Text
add_names names [] = names
add_names names (p ∷ ps) =
    let name = canonical_header_key (trim_space p) in
    let same = add_names names ps in
    let more = add_names (names ++ (name ∷ [])) ps in
    if is_empty (trim_space p) then same else if named name names then same else more

unfoldable pub vary_names : List Text → List Text → List Text
unfolding add_names
vary_names names [] = names
vary_names names (v ∷ vs) = vary_names (add_names names (split b',' v)) vs

-- `extractVaryHeaderNames`
unfoldable pub extract_vary_header_names : Header → List Text
unfolding vary_names
extract_vary_header_names h = vary_names [] (values h Name.vary)

abbrev before_semicolon : Text → Text
before_semicolon [] = []
before_semicolon (c ∷ cs) = let rest = before_semicolon cs in if c == b';' then [] else c ∷ rest

-- `isPrecompressedContentType`
unfoldable pub is_precompressed_content_type : Text → Bool
is_precompressed_content_type header =
    let ct = trim_space (to_lower (before_semicolon header)) in
    if is_empty header
    then false
    else if has_prefix (codes "text/") ct
        || named ct (
            codes "application/json"
            ∷ codes "application/javascript"
            ∷ codes "application/xml"
            ∷ [])
    then false
    else if has_prefix (codes "image/") ct
        || has_prefix (codes "video/") ct
        || has_prefix (codes "audio/") ct
    then not (
        named ct
          (codes "image/svg+xml" ∷ codes "image/x-icon" ∷ codes "image/vnd.microsoft.icon" ∷ []))
    else any (λ s. contains s ct)
        (codes "zip"
          ∷ codes "gzip"
          ∷ codes "compressed"
          ∷ codes "zstd"
          ∷ codes "brotli"
          ∷ codes "pdf"
          ∷ codes "/tar"
          ∷ codes "/x-tar"
          ∷ [])

-- A codec with its name.
abbrev pub Codec : Type 0
Codec = Text × (Text → Option Text)

abbrev pub no_codec : Codec
no_codec = (codes "none", λ t. some t)

-- `resolveCompressor`
unfoldable pub resolve_compressor : Option Codec → Header → ℕ → Codec
unfolding is_precompressed_content_type
resolve_compressor configured h size =
    if ltb size 256
    then no_codec
    else if not (is_empty (get h Name.content_encoding))
    then no_codec
    else if is_precompressed_content_type (get h Name.content_type)
    then no_codec
    else elim configured [ none ↦ no_codec | some c ↦ c ]

-- The name of the codec that was used, and the bytes; the body as it is where the codec fails.
abbrev compressed_by : Codec → Text → Codec → Text × Text
compressed_by c body fallback = elim (c.1 body) [
  | none ↦ (fallback.0, body)
  | some bytes ↦ (c.0, bytes)
]

unfoldable pub compressed : Option Codec → Header → Text → Text × Text
unfolding resolve_compressor
compressed configured h [] = (codes "none", [])
compressed configured h (b ∷ body) =
    compressed_by (resolve_compressor configured h (length (b ∷ body))) (b ∷ body) no_codec

-- `d / time.Second`: the quotient towards 0.
unfoldable pub whole_seconds : ℤ → ℤ
whole_seconds (pos n) = pos (n / second)
whole_seconds (negsuc n) = sub_ℕ 0 (suc n / second)

-- The modification time in Unix nanoseconds, 0 where there is none.
unfoldable pub last_modified_of : Parsers → Header → ℤ
last_modified_of p h = elim (parse_date p (get h Name.last_modified)) [
  | none ↦ pos 0
  | some date ↦ if date == 0 then pos 0 else unix_nano (pos date)
]

-- How long the store keeps an entry: its lifetime and the longer of its stale windows.
unfoldable pub storage_ttl : FreshnessInfo → ℤ
storage_ttl f =
    let ttl = add_64 f.effective_ttl (max_ℤ f.stale_while_revalidate_ttl f.stale_if_error_ttl) in
    if leb_ℤ ttl (pos 0) then f.effective_ttl else ttl

module _ (cfg : Config) (w : World) where
  unfoldable pub new_variant_key : Request → Text → List Text → Text
  new_variant_key r key names =
      if is_empty key || key ==ₜ codes "default"
      then or_default (generate_variant_key r.header names)
      else key

  unfoldable pub new_metadata : Text → Header → FreshnessInfo → CacheMetadata
  unfolding whole_seconds
  new_metadata key h f =
      let expires = unix_nano (pos w.response_time +ℤ f.effective_ttl) in
      record {
        primary_key = key;
        vary_header_names = extract_vary_header_names h;
        variants = [];
        created_at_unix_nano = unix_nano (pos w.response_time);
        expires_at_unix_nano = expires;
        stale_until_unix_nano =
            if ltb_ℤ (pos 0) f.stale_while_revalidate_ttl
            then add_64 expires f.stale_while_revalidate_ttl
            else pos 0;
        corrected_initial_age_seconds = whole_seconds f.corrected_initial_age;
        tags = extract_tags h cfg.tag_header_name;
      }

  unfoldable pub new_variant : Text → ℕ → Header → Text → List Fragment → VariantInfo
  unfolding proto_headers_from_http last_modified_of compressed
  new_variant key code h body fragments = record {
    variant_key = key;
    status_code = code;
    response_headers = proto_headers_from_http h;
    etag = get h Name.etag;
    last_modified_unix_nano = last_modified_of w.parsers h;
    raw_body_size = pos (length body);
    esi_fragments = fragments;
    storage_compression = (compressed w.configured h body).0;
  }

  -- `saveVariantToStorage`
  unfoldable pub save_variant :
      Request → Text → Text → ℕ → Header → Text → List Fragment → FreshnessInfo → Event
  unfolding new_metadata new_variant new_variant_key storage_ttl compressed
  save_variant r primary variant code h body fragments f =
      let key = new_variant_key r variant (extract_vary_header_names h) in
      set_variant primary (new_metadata primary h f) (new_variant key code h body fragments)
        (compressed w.configured h body).1 (storage_ttl f)

-- ===== src/Storage/Redis.antt =====
-- storage/redis/redis.go: the keys, the reads and the writes. The server and the client library are a
-- parameter: a function from a state and a command to a state and a reply, as are the codecs of
-- protobuf. The commands of a pipeline run one after the other. The fraction of a second that rounding
-- of `ttl.Seconds()` may add is left out.
pub mod Pages
pub mod Purges
pub mod Scans
pub mod Contract
pub mod Ends
use titip.Prelude.{
  ℕ, zero, suc, ◌+◌, ◌/◌, Bool, true, false, not, ◌&&◌, ◌||◌, Option, none, some, List, [], ◌∷◌,
  ◌++◌, any, max, if◌then◌else◌, drop, length,
}
use titip.Prelude.Int.{ℤ, pos, pos_part}
use titip.Text.{Text, codes, ◌==ₜ◌, has_prefix}
use titip.Http.{is_empty}
use titip.Freshness.{second}
use titip.Storage.{
  VariantInfo, CacheMetadata, MetaReply, meta_error, meta_absent, meta_found, VariantReply,
  variant_error, variant_absent, variant_found,
}
use titip.Storage.Dict.{Dict, lookup}
use titip.Storage.Memory.{with_default}

-- The commands that are sent; `soft_purge_script` is the script that marks a key where it is there.
pub data Command : Type 0 where
  hgetall hkeys get_value soft_purge_script : Text → Command
  hget hdel : Text → Text → Command
  hset : Text → Dict Text → Command
  hexpire : Text → ℕ → Text → Command
  set_ex : Text → Text → ℕ → Command
  expire_nx expire_gt : Text → ℕ → Command
  unlink : List Text → Command
  hscan : Text → ℕ → Command
  scan : ℕ → Text → Command

-- What comes back: nil, an error, a text, texts, the fields of a hash, a number, or a page of a scan with
-- the cursor of the next.
pub data Reply : Type 0 where
  nil failure : Reply
  bytes : Text → Reply
  strings : List Text → Reply
  fields : Dict Text → Reply
  integer : ℤ → Reply
  page : ℕ → List Text → Reply

abbrev pub Server : Type 0 → Type 0
Server S = S → Command → S × Reply

-- `DoMulti`
unfoldable pub send_all : {S : Type 0} → Server S → S → List Command → S × List Reply
send_all server s [] = (s, [])
send_all server s (c ∷ cs) =
    let r = server s c in let rest = send_all server r.0 cs in (rest.0, r.1 ∷ rest.1)

-- `Marshal` and `Unmarshal` of the two messages.
pub record Codec : Type 0 where
  pub marshal_meta : CacheMetadata → Option Text
  pub unmarshal_meta : Text → Option CacheMetadata
  pub marshal_variant : VariantInfo → Option Text
  pub unmarshal_variant : Text → Option VariantInfo

abbrev pub is_nil : Reply → Bool
is_nil r = elim r [
  | nil ↦ true
  | failure ↦ false
  | bytes t ↦ false
  | strings ts ↦ false
  | fields d ↦ false
  | integer n ↦ false
  | page c ts ↦ false
]

-- An error, which nil is not counted as.
unfoldable pub is_failure : Reply → Bool
is_failure r = elim r [
  | nil ↦ false
  | failure ↦ true
  | bytes t ↦ false
  | strings ts ↦ false
  | fields d ↦ false
  | integer n ↦ false
  | page c ts ↦ false
]

abbrev as_bytes : Reply → Option Text
as_bytes r = elim r [
  | nil ↦ none
  | failure ↦ none
  | bytes t ↦ some t
  | strings ts ↦ none
  | fields d ↦ none
  | integer n ↦ none
  | page c ts ↦ none
]

-- The whole seconds of a duration, one at least.
abbrev pub ttl_seconds : ℤ → ℕ
ttl_seconds ttl = max (pos_part ttl / second) 1

abbrev pub index_field : Text
index_field = codes "_index"

abbrev pub soft_purged_field : Text
soft_purged_field = codes "_soft_purged"

-- `strings.CutPrefix(k, variantPrefix)`
unfoldable pub variant_of_field : Text → Option Text
variant_of_field k = if has_prefix (codes "v:") k then some (drop 2 k) else none

abbrev pub variant_field : Text → Text
variant_field v = codes "v:" ++ v

module _ (prefix : Text) where
  abbrev pub meta_key : Text → Text
  meta_key k = prefix ++ (codes "meta:" ++ k)

  abbrev pub body_key : Text → Text → Text
  body_key k v = prefix ++ (codes "body:" ++ (k ++ (codes ":" ++ v)))

  abbrev pub tag_key : Text → Text
  tag_key tag = prefix ++ (codes "tag:" ++ tag)

module _ (codec : Codec) where
  -- The variants among the fields of a hash.
  unfoldable pub variants_of : Dict Text → List (Text × VariantInfo)
  unfolding variant_of_field
  variants_of [] = []
  variants_of ((k, raw) ∷ d) =
      let rest = variants_of d in
      elim (variant_of_field k) [
        | none ↦ rest
        | some v ↦ elim (codec.unmarshal_variant raw) [ none ↦ rest | some i ↦ (v, i) ∷ rest ]
      ]

  abbrev is_marked : Option Text → Bool
  is_marked none = false
  is_marked (some t) = t ==ₜ codes "1"

  unfoldable pub read_index : Dict Text → Option Text → MetaReply
  unfolding variants_of
  read_index d none = meta_absent
  read_index d (some raw) = elim (codec.unmarshal_meta raw) [
    | none ↦ meta_error
    | some m ↦
        meta_found (record m { variants = variants_of d }) (is_marked (lookup soft_purged_field d))
  ]

  unfoldable pub read_meta : Reply → MetaReply
  unfolding read_index
  read_meta (fields d) = read_index d (lookup index_field d)
  read_meta failure = meta_error
  read_meta nil = meta_absent
  read_meta (bytes t) = meta_absent
  read_meta (strings ts) = meta_absent
  read_meta (integer n) = meta_absent
  read_meta (page c ts) = meta_absent

  read_bytes : Option Text → Option Text → VariantReply
  read_bytes none body = variant_error
  read_bytes (some raw) body = elim (codec.unmarshal_variant raw) [
    | none ↦ variant_error
    | some i ↦ elim body [ none ↦ variant_error | some t ↦ variant_found i t ]
  ]

  -- The replies to HGET and GET.
  unfoldable pub read_variant : Reply → Reply → VariantReply
  unfolding read_bytes
  read_variant a b =
      if is_nil a || is_nil b then variant_absent else read_bytes (as_bytes a) (as_bytes b)

  module _ {S : Type 0} (server : Server S) (prefix : Text) where
    -- `GetMeta`
    unfoldable pub get_meta : S → Text → S × MetaReply
    unfolding read_meta
    get_meta s k = let r = server s (hgetall (meta_key prefix k)) in (r.0, read_meta r.1)

    -- `GetVariant`
    unfoldable pub get_variant : S → Text → Text → S × VariantReply
    unfolding read_variant
    get_variant s k variant_key =
        let v = with_default variant_key in
        let meta = server s (hget (meta_key prefix k) (variant_field v)) in
        let body = server meta.0 (get_value (body_key prefix k v)) in
        (body.0, read_variant meta.1 body.1)

    -- The index of a tag, for as long as the entry is kept at least.
    unfoldable pub tag_commands : Text → ℕ → List Text → List Command
    tag_commands k seconds [] = []
    tag_commands k seconds (t ∷ ts) =
        let rest = tag_commands k seconds ts in
        if is_empty t
        then rest
        else hset (tag_key prefix t) ((k, codes "1") ∷ [])
          ∷ hexpire (tag_key prefix t) seconds k
          ∷ expire_nx (tag_key prefix t) seconds
          ∷ expire_gt (tag_key prefix t) seconds
          ∷ rest

    unfoldable pub set_commands : Text → ℕ → Text → Text → Text → Text → List Text → List Command
    unfolding tag_commands
    set_commands k seconds index v raw body tags =
        hset (meta_key prefix k) ((index_field, index) ∷ (variant_field v, raw) ∷ [])
        ∷ hexpire (meta_key prefix k) seconds (variant_field v)
        ∷ hdel (meta_key prefix k) soft_purged_field
        ∷ set_ex (body_key prefix k v) body seconds
        ∷ expire_nx (meta_key prefix k) seconds
        ∷ expire_gt (meta_key prefix k) seconds
        ∷ tag_commands k seconds tags

    -- `SetVariant`: the flag says that there was no error.
    unfoldable pub set_variant : S → Text → CacheMetadata → VariantInfo → Text → ℤ → S × Bool
    unfolding set_commands
    set_variant s k m variant body ttl =
        let v : VariantInfo = record variant { variant_key = with_default variant.variant_key } in
        elim (codec.marshal_meta (record m { variants = [] })) [
          | none ↦ (s, false)
          | some index ↦ elim (codec.marshal_variant v) [
            | none ↦ (s, false)
            | some raw ↦
                let r =
                  send_all server s
                    (set_commands k (ttl_seconds ttl) index v.variant_key raw body m.tags) in
                (r.0, not (any is_failure r.1))
          ]
        ]

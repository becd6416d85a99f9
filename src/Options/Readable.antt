-- ===== src/Options/Readable.antt =====
-- config.go, titip.go: the registry of codecs that `New` leaves.
use titip.Prelude.{
  ◌≡◌, refl, sym, subst, ◌++◌, ◌&&◌, inl, inr, Bool, true, false, not, ◌||◌, any, Option, none,
  some, List, [], ◌∷◌, arith, Bool-cases, Option-cases,
}
use titip.Prelude.Int.{pos, leb_ℤ, ltb_ℤ}
use titip.Text.{Text, codes, trim_space, to_lower, ◌==ₜ◌, ==ₜ_iff}
use titip.Http.{is_empty}
use titip.Key.{CacheKey}
use titip.Storage.Dict.{Dict, lookup, insert, lookup-insert}
use titip.Validated.{IfAny, where_valid-IfAny, not_set}
use titip.Esi.Options.{new_processor}
use titip.Options.{
  Codecs, Compressor, TitipConfig, TitipOption, Titip, without_convert_head_to_get,
  with_auto_invalidate_mutating_methods, with_respect_client_cache_control, with_server_timing,
  with_titip_metrics, with_titip_logger, with_storage_timeout, with_cache_status,
  with_background_fetch_timeout, with_cache_key, with_tag_header, with_storage_compression,
  with_esi, with_server_timing_cookie, with_storage_compressor, is_nil, or_none, codec_name,
  is_known, apply_titip_option, none_compressor, built_in, default_config, apply_options,
  processor_options, with_processor, checked, new_titip,
}

neither : (a b : Bool) → not (a || b) ≡ true → b ≡ false
neither true b e = cc
neither false b e = not_set b e

same : (k : Text) (z : Compressor) → codec_name z.name ≡ z.name → codec_name z.name ≡ k → k ≡ z.name
same k z plain named = cc

none-some : {z : Compressor} → none ≡ some z → ⊥
none-some e = ground arith

-- A codec whose name stands under the key `k`.
under_its_name :
    (z y : Compressor) (t k : Text)
    → y.name ≡ t
    → codec_name t ≡ t
    → (t ==ₜ k) ≡ true
    → some y ≡ some z
    → codec_name z.name ≡ k
under_its_name z y t k name plain at_key e =
    let p : t ≡ k = (==ₜ_iff t k).0 at_key in
    let q : codec_name y.name ≡ t = rw name plain in
    let r : y ≡ z = cc in subst (λ x. codec_name x.name ≡ k) r (rw (sym p) q)

module _ (lib : Codecs) where
  -- Each codec stands under its name, and those of the start are there.
  record IsSound (d : Dict Compressor) : Type 0 where
    named : (k : Text) (z : Compressor) → lookup k d ≡ some z → codec_name z.name ≡ k
    lz4_kept : lookup (codes "lz4") d ≡ some lib.lz4
    none_kept : lookup (codes "none") d ≡ some none_compressor
    zstd_kept : lookup (codes "zstd") d ≡ some lib.zstd

  insert_new-keeps :
      (k j : Text) (z y : Compressor) (d : Dict Compressor)
      → is_known k d ≡ false
      → lookup j d ≡ some y
      → lookup j (insert k z d) ≡ some y
  insert_new-keeps k j z y d free found = ground (arith, lookup-insert j k z d, ==ₜ_iff k j)

  inserted-named :
      (z : Compressor) (d : Dict Compressor) (j : Text) (y : Compressor)
      → IsSound d
      → lookup j (insert (codec_name z.name) z d) ≡ some y
      → codec_name y.name ≡ j
  inserted-named z d j y v e = elim (Bool-cases (codec_name z.name ==ₜ j)) [
    | inl same ↦
        ground (arith, lookup-insert j (codec_name z.name) z d, ==ₜ_iff (codec_name z.name) j)
    | inr other ↦ v.named j y (ground (arith, lookup-insert j (codec_name z.name) z d))
  ]

  insert-IsSound :
      (z : Compressor) (d : Dict Compressor)
      → IsSound d
      → is_known (codec_name z.name) d ≡ false
      → IsSound (insert (codec_name z.name) z d)
  insert-IsSound z d v free = record {
    named = λ j y. inserted-named z d j y v;
    lz4_kept = insert_new-keeps (codec_name z.name) (codes "lz4") z lib.lz4 d free v.lz4_kept;
    none_kept =
        insert_new-keeps (codec_name z.name) (codes "none") z none_compressor d free v.none_kept;
    zstd_kept = insert_new-keeps (codec_name z.name) (codes "zstd") z lib.zstd d free v.zstd_kept;
  }

  option-IsSound :
      (c : TitipConfig) (v : IsSound c.compressors) (o : TitipOption)
      → IfAny (λ x. IsSound x.compressors) (apply_titip_option c o)
  unfolding apply_titip_option
  option-IsSound c v without_convert_head_to_get = v
  option-IsSound c v with_auto_invalidate_mutating_methods = v
  option-IsSound c v with_respect_client_cache_control = v
  option-IsSound c v with_server_timing = v
  option-IsSound c v (with_titip_metrics given) =
      where_valid-IfAny (λ x. IsSound x.compressors) given (record c { has_metrics = true })
        (λ e. v)
  option-IsSound c v (with_titip_logger given) =
      where_valid-IfAny (λ x. IsSound x.compressors) given c (λ e. v)
  option-IsSound c v (with_storage_timeout t) =
      where_valid-IfAny (λ x. IsSound x.compressors) (ltb_ℤ (pos 0) t)
        (record c { storage_timeout = t }) (λ e. v)
  option-IsSound c v (with_cache_status m) =
      where_valid-IfAny (λ x. IsSound x.compressors) (leb_ℤ (pos 0) m && leb_ℤ m (pos 2))
        (record c { cache_status_mode = m }) (λ e. v)
  option-IsSound c v (with_background_fetch_timeout t) =
      where_valid-IfAny (λ x. IsSound x.compressors) (leb_ℤ (pos 0) t)
        (record c { background_fetch_timeout = t }) (λ e. v)
  option-IsSound c v (with_cache_key k) = v
  option-IsSound c v (with_tag_header t) =
      where_valid-IfAny (λ x. IsSound x.compressors) (not (is_empty (trim_space t)))
        (record c { tag_header_name = trim_space t }) (λ e. v)
  option-IsSound c v (with_storage_compression t) =
      where_valid-IfAny (λ x. IsSound x.compressors) (not (is_empty (codec_name t)))
        (record c { storage_compression = codec_name t }) (λ e. v)
  option-IsSound c v (with_esi os) =
      where_valid-IfAny (λ x. IsSound x.compressors) (not (any is_nil os))
        (record c { esi_options = some (or_none c.esi_options ++ os) }) (λ e. v)
  option-IsSound c v (with_server_timing_cookie n t) =
      where_valid-IfAny (λ x. IsSound x.compressors)
        (not (is_empty (trim_space n) || is_empty (trim_space t)))
        (record c {
          has_timing = true;
          timing_cookie_name = trim_space n;
          timing_cookie_value = trim_space t;
        })
        (λ e. v)
  option-IsSound c v (with_storage_compressor none) = tt
  option-IsSound c v (with_storage_compressor (some z)) =
      where_valid-IfAny (λ x. IsSound x.compressors)
        (not (is_empty (codec_name z.name) || is_known (codec_name z.name) c.compressors))
        (record c { compressors = insert (codec_name z.name) z c.compressors })
        (λ e.
          insert-IsSound z c.compressors v
            (neither (is_empty (codec_name z.name)) (is_known (codec_name z.name) c.compressors) e))

  all-IsSound :
      (c : TitipConfig) (os : List (Option TitipOption))
      → IsSound c.compressors
      → IfAny (λ x. IsSound x.compressors) (apply_options c os)
  unfolding apply_options
  all-IsSound c [] v = v
  all-IsSound c (none ∷ os) v = tt
  all-IsSound c (some o ∷ os) v = elim (Option-cases (apply_titip_option c o)) [
    | inl e ↦ rw (e, apply_options) tt
    | inr (d, e) ↦ rw (e, apply_options) (all-IsSound d os (rw e at (option-IsSound c v o)))
  ]

  -- What `New` asks of a configuration in the end.
  record IsReadable (t : Titip) : Type 0 where
    sound : IsSound t.config.compressors
    in_use : is_known t.config.storage_compression t.config.compressors ≡ true

  processor-IsReadable :
      (c : TitipConfig)
      → IsSound c.compressors
      → is_known c.storage_compression c.compressors ≡ true
      → IfAny IsReadable (with_processor c)
  unfolding with_processor
  processor-IsReadable c v known = elim (Option-cases c.esi_options) [
    | inl e ↦ rw (e, with_processor) (record { sound = v; in_use = known })
    | inr (os, e) ↦ elim (Option-cases (new_processor (processor_options c os))) [
      | inl f ↦ rw (e, f, with_processor) tt
      | inr (p, f) ↦ rw (e, f, with_processor) (record { sound = v; in_use = known })
    ]
  ]

  checked-IsReadable : (c : TitipConfig) → IsSound c.compressors → IfAny IsReadable (checked c)
  unfolding checked
  checked-IsReadable c v = elim (Bool-cases (is_known c.storage_compression c.compressors)) [
    | inl e ↦ rw (e, checked) (processor-IsReadable c v e)
    | inr e ↦ rw (e, checked) tt
  ]

  module _ (lz4_name : lib.lz4.name ≡ codes "lz4") (zstd_name : lib.zstd.name ≡ codes "zstd") where
    built_in-named :
        (k : Text) (z : Compressor) → lookup k (built_in lib) ≡ some z → codec_name z.name ≡ k
    unfolding lookup to_lower trim_space
    built_in-named k z e = elim (Bool-cases (codes "lz4" ==ₜ k)) [
      | inl a ↦ under_its_name z lib.lz4 (codes "lz4") k lz4_name refl a (rw a at e)
      | inr a ↦ elim (Bool-cases (codes "none" ==ₜ k)) [
        | inl b ↦ under_its_name z none_compressor (codes "none") k refl refl b (rw (a, b) at e)
        | inr b ↦ elim (Bool-cases (codes "zstd" ==ₜ k)) [
          | inl c ↦ under_its_name z lib.zstd (codes "zstd") k zstd_name refl c (rw (a, b, c) at e)
          | inr c ↦ absurd (none-some (rw (a, b, c) at e))
        ]
      ]
    ]

    built_in-IsSound : IsSound (built_in lib)
    unfolding lookup ◌==ₜ◌
    built_in-IsSound = record {
      named = built_in-named;
      lz4_kept = refl;
      none_kept = refl;
      zstd_kept = refl;
    }

    new_titip-IsReadable :
        (key : CacheKey) (given : Bool) (os : List (Option TitipOption))
        → IfAny IsReadable (new_titip lib key given os)
    unfolding new_titip
    new_titip-IsReadable key false os = tt
    new_titip-IsReadable key true os =
        elim (Option-cases (apply_options (default_config lib key) os)) [
          | inl e ↦ rw (e, new_titip) tt
          | inr (c, e) ↦
              rw (e, new_titip)
                (checked-IsReadable c
                  (rw e at (all-IsSound (default_config lib key) os built_in-IsSound)))
        ]

    -- The middleware that `New` makes has the codec that writes new entries in its registry, and the three
    -- built-in codecs under their names, whatever the options register. Where the name of the codec that
    -- writes has no capitals and no space around it, an entry that it wrote, which is marked with that
    -- name, finds the same codec when it is read. The packages lz4 and zstd have the names "lz4" and "zstd".
    pub new_titip-reads :
        (key : CacheKey) (given : Bool) (os : List (Option TitipOption)) (t : Titip)
        (z : Compressor)
        → new_titip lib key given os ≡ some t
        → lookup t.config.storage_compression t.config.compressors ≡ some z
        → codec_name z.name ≡ z.name
        → (lookup z.name t.config.compressors ≡ some z)
          × (is_known t.config.storage_compression t.config.compressors ≡ true)
          × (lookup (codes "lz4") t.config.compressors ≡ some lib.lz4)
          × (lookup (codes "none") t.config.compressors ≡ some none_compressor)
          × (lookup (codes "zstd") t.config.compressors ≡ some lib.zstd)
    new_titip-reads key given os t z made found plain =
        let v : IsReadable t = rw made at (new_titip-IsReadable key given os) in
        (
          subst (λ k. lookup k t.config.compressors ≡ some z)
              (same t.config.storage_compression z plain
                (v.sound.named t.config.storage_compression z found))
              found,
          v.in_use,
          v.sound.lz4_kept,
          v.sound.none_kept,
          v.sound.zstd_kept,
        )

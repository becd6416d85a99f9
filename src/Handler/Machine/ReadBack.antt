-- ===== src/Handler/Machine/ReadBack.antt =====
-- handler_context.go: a stored body reads back where its codec gives it.
use titip.Prelude.{
  ℕ, ◌≡◌, refl, inl, inr, Bool, true, false, not, ◌||◌, Option, some, [], ◌∷◌, length, arith,
}
use titip.Prelude.Int.{ℤ, pos}
use titip.Text.{Text}
use titip.Http.{is_empty}
use titip.Storage.{VariantInfo, variant_found}
use titip.Handler.{Config, Context, World}
use titip.Handler.Lookup.{eq_ℤ}
use titip.Handler.Serve.{codec_of, decoded, loaded, load_decompressed}
use titip.Handler.Machine.Fresh.{HasBody}

unset : (b : Bool) → not b ≡ true → b ≡ false
unset true e = cc
unset false e = refl

same_size : (n : ℕ) (i : ℤ) → i ≡ pos n → eq_ℤ (pos n) i ≡ true
same_size n i e = rw e (ground arith)

decodes_to :
    (cfg : Config) (w : World) (v : VariantInfo) (bytes body : Text) (codec : Text → Option Text)
    → v.raw_body_size ≡ pos (length body)
    → w.decompress (codec_of v) ≡ some codec
    → codec bytes ≡ some body
    → decoded cfg w v bytes ≡ loaded v body
unfolding decoded
decodes_to cfg w v bytes body codec size c decodes =
    rw (c, decoded, decodes, same_size (length body) v.raw_body_size size) refl

loads :
    (cfg : Config) (w : World) (ctx : Context) (v : VariantInfo) (bytes body : Text)
    → w.storage.get_variant ctx.primary_key ctx.variant_key ≡ variant_found v bytes
    → is_empty bytes ≡ false
    → decoded cfg w v bytes ≡ loaded v body
    → load_decompressed cfg w ctx ≡ loaded v body
unfolding load_decompressed
loads cfg w ctx v bytes body got full e = rw (got, load_decompressed, full) (ground (arith, e))

-- The body of an entry reads back where its codec gives it.
pub codec-HasBody :
    (cfg : Config) (w : World) (ctx : Context) (v : VariantInfo) (bytes body : Text)
    (codec : Text → Option Text)
    → w.storage.get_variant ctx.primary_key ctx.variant_key ≡ variant_found v bytes
    → v.raw_body_size ≡ pos (length body)
    → w.decompress (codec_of v) ≡ some codec
    → codec bytes ≡ some body
    → (is_empty body || not (is_empty bytes)) ≡ true
    → HasBody cfg w ctx v
unfolding load_decompressed decoded is_empty
codec-HasBody cfg w ctx v bytes [] codec got size c decodes full = inl (rw size (ground arith))
codec-HasBody cfg w ctx v bytes (b ∷ body) codec got size c decodes full = inr (
  v,
  b ∷ body,
  loads cfg w ctx v bytes (b ∷ body) got (unset (is_empty bytes) full)
      (decodes_to cfg w v bytes (b ∷ body) codec size c decodes),
)

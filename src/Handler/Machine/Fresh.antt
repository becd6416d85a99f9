-- ===== src/Handler/Machine/Fresh.antt =====
-- handler.go: a fresh entry is served from the store.
use titip.Prelude.{
  suc, ℕ, ◌≡◌, ◌⊎◌, Bool, true, false, Option, none, some, List, [], any, if◌then◌else◌,
}
use titip.Prelude.Int.{pos}
use titip.Text.{Text}
use titip.Precondition.{evaluate_preconditions}
use titip.Storage.{VariantInfo, CacheMetadata}
use titip.Handler.{
  Config, Context, World, Event, called_origin, forwarded, mutated, set_variant, spawned_swr, State,
  serve_cached_hit,
}
use titip.Handler.Lookup.{go, unix_nano, has_validators, served_fresh}
use titip.Handler.Serve.{loaded, no_body_read, load_decompressed}
use titip.Handler.Machine.{step, run, before}

-- Is the origin asked, now or in the background, or is something stored?
abbrev pub leaves_cache : Event → Bool
leaves_cache (called_origin r) = true
leaves_cache forwarded = true
leaves_cache mutated = true
leaves_cache (spawned_swr k v) = true
leaves_cache (set_variant k m v b t) = true
leaves_cache _ = false

module _ (cfg : Config) (w : World) where
  -- The run ends with events that stay in the cache.
  abbrev pub StaysInCache : Option (List Event) → Type 0
  StaysInCache none = ⊥
  StaysInCache (some events) = any leaves_cache events ≡ false

  -- The body of the entry is not needed, or it can be had.
  abbrev pub HasBody : Context → VariantInfo → Type 0
  HasBody ctx v =
      (no_body_read cfg w ctx v ≡ true)
      ⊎ ((stored : VariantInfo) × (body : Text) × (load_decompressed cfg w ctx
            ≡ loaded stored body))

  -- The context of a request whose entry is in the store and not soft-purged.
  abbrev pub with_fresh : Context → CacheMetadata → VariantInfo → Context
  with_fresh ctx m v = record ctx {
    meta = some m;
    variant = some v;
    is_soft_purged = false;
    now = unix_nano (pos w.clock);
  }

  quiet_before : (o : Option (List Event)) → StaysInCache o → StaysInCache (before cfg w [] o)
  quiet_before none h = h
  quiet_before (some events) h = h

  -- A step that does nothing leaves the rest of the run.
  pub run-go :
      (f : ℕ) (s t : State) (c d : Context)
      → step cfg w s c ≡ go d t
      → StaysInCache (run cfg w f t d)
      → StaysInCache (run cfg w (suc f) s c)
  unfolding run
  run-go f s t c d e h = rw (e, run) (rw e (quiet_before (run cfg w f t d) h))

  module _ (ctx : Context) (m : CacheMetadata) (v : VariantInfo) where
    abbrev found : Context
    found = with_fresh ctx m v

    chosen : State
    chosen =
        if has_validators cfg w v
        then served_fresh
            (evaluate_preconditions w.parsers ctx.request.header v.etag v.last_modified_unix_nano)
        else serve_cached_hit

-- ===== src/Handler/Revalidate/Stale.antt =====
-- handler.go: a revalidation that the origin does not answer.
use titip.Prelude.{
  ℕ, ◌≤◌, ◌≡◌, refl, ap, ◌∙◌, ◌⊎◌, inl, inr, true, false, none, some, [], ◌∷◌, ◌++◌, arith, leb,
  ◌==◌,
}
use titip.Text.{Text}
use titip.Http.{is_empty}
use titip.Storage.{VariantInfo, CacheMetadata}
use titip.Handler.{Config, Context, World, Response, Event, called_origin}
use titip.Handler.Serve.{Loaded, unavailable, corrupt, loaded, decoded}
use titip.Handler.Revalidate.{
  StaleFallback, fallen_back, body_of, rechecked, revalidation_request, by_answer, asked, fetch,
}
use titip.Handler.Revalidate.Answer.{
  served_body, serve_loaded, serve_fresh, serve_fallback, serve_result, respond_revalidated,
}

module _ (cfg : Config) (w : World) (ctx : Context) (m : CacheMetadata) (v : VariantInfo) where
  -- The stored body of the entry, as it is read for the fallback.
  abbrev pub stored_body : Text
  stored_body = body_of cfg w (w.storage.get_variant ctx.primary_key ctx.variant_key)

  -- The origin panics.
  abbrev pub Panics : Type 0
  Panics = w.origin (revalidation_request cfg w ctx.request v) ≡ none

  -- The origin answers with a server error, and there is a stored body.
  abbrev pub Errs : Response → Type 0
  Errs resp =
      (w.origin (revalidation_request cfg w ctx.request v) ≡ some resp)
      × (500 ≤ resp.code)
      × (is_empty stored_body ≡ false)

  abbrev pub asked_origin : Event
  asked_origin = called_origin (revalidation_request cfg w ctx.request v)

  abbrev pub kept : StaleFallback
  kept = record { variant = v; body = stored_body; meta = some m }

  asked_panic :
      Panics → asked cfg w ctx m v stored_body ≡ (asked_origin ∷ [], some (fallen_back 0 kept))
  unfolding asked by_answer
  asked_panic h = rw (h, by_answer) refl

  asked_error :
      (resp : Response)
      → Errs resp
      → asked cfg w ctx m v stored_body ≡ (asked_origin ∷ [], some (fallen_back resp.code kept))
  unfolding asked by_answer
  asked_error resp (h, code, body) = rw (h, by_answer) (rw (not_304, body, is_error) refl)
    where
      not_304 : (resp.code == 304) ≡ false
      not_304 = ground arith

      is_error : leb 500 resp.code ≡ true
      is_error = ground arith

  -- What the fallback writes, by whether the stored body can be read back.
  serve_kept :
      (code : ℕ) (l : Loaded)
      → decoded cfg w v stored_body ≡ l
      → serve_result cfg w ctx (some (fallen_back code kept))
        ≡ serve_loaded cfg w ctx (fallen_back code kept) kept l
  unfolding serve_result serve_fallback
  serve_kept code l e = rw e refl

  module _ (alone : rechecked cfg w ctx ≡ none) where
    fetch_alone : fetch cfg w ctx m v ≡ asked cfg w ctx m v stored_body
    unfolding fetch
    fetch_alone = rw (alone, fetch) refl

    respond_asked :
        (code : ℕ) (l : Loaded)
        → asked cfg w ctx m v stored_body ≡ (asked_origin ∷ [], some (fallen_back code kept))
        → decoded cfg w v stored_body ≡ l
        → (respond_revalidated cfg w ctx m v).events
          ≡ asked_origin ∷ serve_loaded cfg w ctx (fallen_back code kept) kept l
    unfolding respond_revalidated
    respond_asked code l e k =
        ap (λ f. f.0 ++ serve_result cfg w ctx f.1) (fetch_alone ∙ e)
        ∙ ap (λ t. asked_origin ∷ t) (serve_kept code l k)

    pub stale_if_error :
        (raw : Text) (stored : VariantInfo)
        → Panics ⊎ ((resp : Response) × Errs resp)
        → decoded cfg w v stored_body ≡ loaded stored raw
        → (respond_revalidated cfg w ctx m v).events
          ≡ asked_origin ∷ served_body cfg w ctx false kept raw
    stale_if_error raw stored (inl h) d = respond_asked 0 (loaded stored raw) (asked_panic h) d
    stale_if_error raw stored (inr (resp, h)) d =
        respond_asked resp.code (loaded stored raw) (asked_error resp h) d

    -- Where no other request has refreshed the entry, the origin panics, and the stored body cannot be
    -- read back, nothing at all is written to the client: no status, no header, no body.
    pub panic_unanswered :
        (decoded cfg w v stored_body ≡ unavailable) ⊎ (decoded cfg w v stored_body ≡ corrupt)
        → Panics
        → (respond_revalidated cfg w ctx m v).events ≡ asked_origin ∷ []
    unfolding serve_fresh is_empty
    panic_unanswered (inl d) h = respond_asked 0 unavailable (asked_panic h) d
    panic_unanswered (inr d) h = respond_asked 0 corrupt (asked_panic h) d

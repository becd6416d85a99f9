-- ===== src/Handler/Miss/NoCookie.antt =====
-- handler.go: what a miss stores.
use titip.Prelude.{
  ◌≡◌, refl, Bool, true, false, some, List, [], ◌∷◌, any, arith, Bool-cases, Option-cases, inl, inr,
  ◌⊎◌,
}
use titip.Http.{Header, values, is_empty}
use titip.Http.Name
use titip.Esi.Fragment.{Fragment}
use titip.Esi.Tag.{Result, ok, err, Fault}
use titip.Handler.{Config, Context, World, Response, Event, set_variant}
use titip.Handler.Miss.{
  origin_request, inspect_and_prepare_esi, freshness_of, should_cache, respond_prepared, respond,
  state_fetch_origin_miss,
}

-- Is a variant stored?
abbrev pub stores : Event → Bool
stores (set_variant k m v b t) = true
stores _ = false

module _ (cfg : Config) (w : World) (ctx : Context) where
  -- The origin answered, the answer sets no cookie and may be stored by the rules of freshness.go, and the cache is not closed.
  pub record MayStore : Type 0 where
    pub response : Response
    pub answered_by : w.origin (origin_request cfg w ctx.request) ≡ some response
    pub no_cookie : values response.header Name.set_cookie ≡ []
    pub cacheable :
        (freshness_of cfg w ctx response.code
          (inspect_and_prepare_esi cfg w response.header response.body).0).is_cacheable
        ≡ true
    pub is_open : cfg.is_closed ≡ false

  respond_prepared-stores :
      (resp : Response) (h : Header) (fs : List Fragment)
      → any stores (respond_prepared cfg w ctx resp h fs) ≡ true
      → should_cache cfg w ctx (freshness_of cfg w ctx resp.code h) ≡ true
  unfolding respond_prepared
  respond_prepared-stores resp h [] e =
      elim (Bool-cases (should_cache cfg w ctx (freshness_of cfg w ctx resp.code h))) [
        | inl s ↦ s
        | inr s ↦ ground (arith, s)
      ]
  respond_prepared-stores resp h (f ∷ fs) e =
      elim (Bool-cases (should_cache cfg w ctx (freshness_of cfg w ctx resp.code h))) [
        | inl s ↦ s
        | inr s ↦ ground (arith, s)
      ]

  Result-cases :
      (r : Result (List Fragment))
      → ((e : Fault) × (r ≡ err e)) ⊎ ((fs : List Fragment) × (r ≡ ok fs))
  Result-cases (ok fs) = inr (fs, refl)
  Result-cases (err e) = inl (e, refl)

  respond-stores :
      (resp : Response)
      → any stores (respond cfg w ctx resp) ≡ true
      → (values resp.header Name.set_cookie ≡ [])
        × (should_cache cfg w ctx (
              freshness_of cfg w ctx resp.code
                (inspect_and_prepare_esi cfg w resp.header resp.body).0)
            ≡ true)
  unfolding respond is_empty
  respond-stores resp e =
      elim (Result-cases (inspect_and_prepare_esi cfg w resp.header resp.body).1) [
        | inl (f, k) ↦ ground (arith, k)
        | inr (fs, k) ↦ ground (
          arith,
          k,
          respond_prepared-stores resp (inspect_and_prepare_esi cfg w resp.header resp.body).0 fs,
        )
      ]

  -- A miss stores a variant only where the origin has answered with no Set-Cookie, its response may be
  -- stored by the rules of freshness.go, and the cache is open.
  pub miss_stores : any stores (state_fetch_origin_miss cfg w ctx).events ≡ true → MayStore
  unfolding state_fetch_origin_miss
  miss_stores e = elim (Option-cases (w.origin (origin_request cfg w ctx.request))) [
    | inl n ↦ ground (arith, n)
    | inr (resp, n) ↦
        let allowed = respond-stores resp (ground (arith, n)) in
        record {
          response = resp;
          answered_by = n;
          no_cookie = allowed.0;
          cacheable = unfold should_cache in ground (arith, allowed.1);
          is_open = unfold should_cache in ground (arith, allowed.1);
        }
  ]

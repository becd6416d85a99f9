-- ===== src/Handler/Background/Replace.antt =====
-- handler.go: what a revalidation in the background does to the store.
use titip.Prelude.{
  ◌≡◌, refl, true, false, some, List, [], ◌∷◌, any, arith, Option-cases, inl, inr, ◌⊎◌,
}
use titip.Text.{Text}
use titip.Http.{Header}
use titip.Key.{Request}
use titip.Esi.Fragment.{Fragment}
use titip.Esi.Tag.{Result, ok, err, Fault}
use titip.Freshness.Calculate.{calculate_freshness}
use titip.Freshness.Cacheable.{is_response_cacheable, uncacheable_status}
use titip.Handler.{Config, World, Response, called_origin}
use titip.Handler.Miss.{inspect_and_prepare_esi}
use titip.Handler.Miss.NoCookie.{stores}
use titip.Handler.Background.{
  background_request, background_freshness, may_replace, replace_entry, revalidate_origin_async,
}

module _ (cfg : Config) (w : World) (r : Request) (primary variant : Text) where
  -- The origin answered what may be stored by the rules of freshness.go, and the cache is open.
  pub record MayReplace : Type 0 where
    pub response : Response
    pub answered_by : w.origin (background_request cfg w r) ≡ some response
    pub cacheable :
        (background_freshness cfg w r response.code
          (inspect_and_prepare_esi cfg w response.header response.body).0).is_cacheable
        ≡ true
    pub is_open : cfg.is_closed ≡ false

  Result-cases :
      (x : Result (List Fragment))
      → ((e : Fault) × (x ≡ err e)) ⊎ ((fs : List Fragment) × (x ≡ ok fs))
  Result-cases (ok fs) = inr (fs, refl)
  Result-cases (err e) = inl (e, refl)

  replace_entry-stores :
      (resp : Response)
      → any stores (replace_entry cfg w r primary variant resp) ≡ true
      → may_replace cfg w r (
          background_freshness cfg w r resp.code
            (inspect_and_prepare_esi cfg w resp.header resp.body).0)
        ≡ true
  unfolding replace_entry
  replace_entry-stores resp e =
      elim (Result-cases (inspect_and_prepare_esi cfg w resp.header resp.body).1) [
        | inl (f, k) ↦ ground (arith, k)
        | inr (fs, k) ↦ ground (arith, k)
      ]

  -- A revalidation in the background stores a response only where the origin has answered, the response
  -- may be stored by the rules of freshness.go, and the cache is open.
  pub background_stores :
      any stores (revalidate_origin_async cfg w r primary variant) ≡ true → MayReplace
  unfolding revalidate_origin_async
  background_stores e = elim (Option-cases (w.origin (background_request cfg w r))) [
    | inl n ↦ ground (arith, n)
    | inr (resp, n) ↦
        let allowed = replace_entry-stores resp (ground (arith, n)) in
        record {
          response = resp;
          answered_by = n;
          cacheable = unfold may_replace in ground (arith, allowed);
          is_open = unfold may_replace in ground (arith, allowed);
        }
  ]

  never_304 : (h : Header) → (background_freshness cfg w r 304 h).is_cacheable ≡ false
  unfolding background_freshness calculate_freshness is_response_cacheable uncacheable_status
  never_304 h = refl

  nothing_replaced :
      (resp : Response) → resp.code ≡ 304 → replace_entry cfg w r primary variant resp ≡ []
  unfolding replace_entry may_replace
  nothing_replaced resp c =
      elim (Result-cases (inspect_and_prepare_esi cfg w resp.header resp.body).1) [
        | inl (f, k) ↦ rw (k, replace_entry) refl
        | inr (fs, k) ↦
            rw
              (
                k,
                c,
                replace_entry,
                never_304 (inspect_and_prepare_esi cfg w resp.header resp.body).0,
              )
              refl
      ]

  -- Where the origin answers a revalidation in the background with 304, the entry stays as it is: the
  -- only thing that is done is the call of the origin.
  pub background_unmodified :
      (resp : Response)
      → w.origin (background_request cfg w r) ≡ some resp
      → resp.code ≡ 304
      → revalidate_origin_async cfg w r primary variant
        ≡ called_origin (background_request cfg w r) ∷ []
  unfolding revalidate_origin_async
  background_unmodified resp n c = rw (n, nothing_replaced resp c) refl

-- ===== src/Handler/Background.antt =====
-- handler.go: the revalidation in the background (`revalidateOriginAsync`).
pub mod Replace
use titip.Prelude.{
  Bool, true, false, not, ◌&&◌, ◌||◌, Option, none, some, List, [], ◌∷◌, if◌then◌else◌,
}
use titip.Text.{Text, codes, ◌==ₜ◌}
use titip.Http.{Header}
use titip.Freshness.{FreshnessInfo}
use titip.Freshness.Calculate.{calculate_freshness}
use titip.Key.{Request}
use titip.Esi.Fragment.{Fragment}
use titip.Esi.Tag.{ok, err}
use titip.Handler.{ℕ, Config, World, Response, Event, called_origin}
use titip.Handler.Save.{save_variant}
use titip.Handler.Miss.{origin_method, with_capability, inspect_and_prepare_esi}

module _ (cfg : Config) (w : World) where
  -- The request that the origin gets: the conditions of the client stay in it.
  unfoldable pub background_request : Request → Request
  background_request r = record r {
    method = origin_method cfg w r.method;
    header = with_capability cfg w r.header;
  }

  -- The freshness of the response to the request.
  unfoldable pub background_freshness : Request → ℕ → Header → FreshnessInfo
  background_freshness r code h =
      calculate_freshness w.parsers w.judged_at code r.header h w.request_time w.response_time
        w.response_time

  unfoldable pub may_replace : Request → FreshnessInfo → Bool
  may_replace r f =
      f.is_cacheable
      && not cfg.is_closed
      && not (r.method ==ₜ codes "HEAD" && not cfg.convert_head_to_get)

  -- What is stored of the response. A panic of the scanner is recovered, with nothing done.
  unfoldable pub replace_entry : Request → Text → Text → Response → List Event
  unfolding background_freshness may_replace
  replace_entry r primary variant resp =
      let prepared = inspect_and_prepare_esi cfg w resp.header resp.body in
      elim prepared.1 [
        | err e ↦ []
        | ok fragments ↦
            let f = background_freshness r resp.code prepared.0 in
            if may_replace r f
            then save_variant cfg w r primary variant resp.code prepared.0 resp.body fragments f
              ∷ []
            else []
      ]

  -- `revalidateOriginAsync`: a panic of the origin is recovered too.
  unfoldable pub revalidate_origin_async : Request → Text → Text → List Event
  unfolding background_request replace_entry
  revalidate_origin_async r primary variant =
      let request = background_request r in
      called_origin request
      ∷ (elim (w.origin request) [ none ↦ [] | some resp ↦ replace_entry r primary variant resp ])

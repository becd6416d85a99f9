-- ===== src/Handler/Machine.antt =====
-- handler.go: the loop of `ServeHTTP` over the states.
pub mod Ends
pub mod Fresh
pub mod ReadBack
pub mod Again
use titip.Prelude.{ℕ, zero, suc, Bool, true, false, Option, none, some, List, [], ◌∷◌, ◌++◌}
use titip.Prelude.Int.{pos}
use titip.Key.{Request}
use titip.Handler.{
  Config, Context, World, Event, forwarded, Outcome, State, check_bypass, lookup_metadata,
  match_variant, evaluate_freshness, serve_304, serve_412, serve_cached_hit, serve_swr,
  fetch_origin_miss, fetch_origin_revalidate, bypass_origin,
}
use titip.Handler.Lookup.{
  finish, unix_nano, state_check_bypass, state_lookup_metadata, state_match_variant,
  state_evaluate_freshness,
}
use titip.Handler.Serve.{
  with_entry, state_serve_304, state_serve_412, state_serve_cached_hit, state_serve_swr,
}
use titip.Handler.Miss.{state_fetch_origin_miss}
use titip.Handler.Revalidate.Answer.{respond_revalidated}

module _ (cfg : Config) (w : World) where
  -- `acquireRequestContext`
  abbrev pub acquired : Request → Context
  acquired r = record {
    request = r;
    directives = none;
    primary_key = [];
    variant_key = [];
    meta = none;
    is_soft_purged = false;
    variant = none;
    now = unix_nano (pos w.clock);
    is_vary_miss = false;
  }

  -- One call of a state function. The state `fetch_origin_revalidate` is entered with an entry.
  unfoldable pub step : State → Context → Outcome
  step check_bypass ctx = state_check_bypass cfg w ctx
  step lookup_metadata ctx = state_lookup_metadata cfg w ctx
  step match_variant ctx = state_match_variant cfg w ctx
  step evaluate_freshness ctx = state_evaluate_freshness cfg w ctx
  step serve_304 ctx = state_serve_304 cfg w ctx
  step serve_412 ctx = state_serve_412 cfg w ctx
  step serve_cached_hit ctx = state_serve_cached_hit cfg w ctx
  step serve_swr ctx = state_serve_swr cfg w ctx
  step fetch_origin_miss ctx = state_fetch_origin_miss cfg w ctx
  step fetch_origin_revalidate ctx = with_entry cfg w (respond_revalidated cfg w) ctx
  step bypass_origin ctx = finish ctx (forwarded ∷ [])

  abbrev pub before : List Event → Option (List Event) → Option (List Event)
  before events none = none
  before events (some later) = some (events ++ later)

  -- The loop of `ServeHTTP`; `none` means that the fuel ran out.
  unfoldable pub run : ℕ → State → Context → Option (List Event)
  unfolding step
  run zero s ctx = none
  run (suc f) s ctx = elim (step s ctx).next [
    | none ↦ some (step s ctx).events
    | some t ↦ before (step s ctx).events (run f t (step s ctx).context)
  ]

  -- `ServeHTTP`: no more than six states follow one another.
  unfoldable pub serve_http : Request → Option (List Event)
  unfolding run
  serve_http r = run 6 check_bypass (acquired r)

-- ===== src/Handler/Machine/Ends.antt =====
-- handler.go: the states that can follow a state.
use titip.Prelude.{ℕ, ◌<◌, ◌≡◌, refl, ◌⊎◌, inl, inr, Option, none, some}
use titip.Prelude.{Bool}
use titip.Storage.{CacheMetadata, MetaReply, meta_error, meta_absent, meta_found}
use titip.Handler.{
  State, check_bypass, lookup_metadata, match_variant, evaluate_freshness, serve_304, serve_412,
  serve_cached_hit, serve_swr, fetch_origin_miss, fetch_origin_revalidate, bypass_origin,
}

-- How many states can stand from here to the end.
abbrev pub rank : State → ℕ
rank check_bypass = 6
rank lookup_metadata = 5
rank match_variant = 4
rank evaluate_freshness = 3
rank serve_cached_hit = 2
rank serve_swr = 2
rank serve_304 = 1
rank serve_412 = 1
rank fetch_origin_miss = 1
rank fetch_origin_revalidate = 1
rank bypass_origin = 1

-- The outcome goes on, if it does, to a state of a rank below `n`.
abbrev Below : ℕ → Option State → Type 0
Below n none = Unit
Below n (some t) = rank t < n

MetaReply-cases :
    (r : MetaReply)
    → (r ≡ meta_error)
      ⊎ (r ≡ meta_absent)
      ⊎ ((m : CacheMetadata) × (soft : Bool) × (r ≡ meta_found m soft))
MetaReply-cases meta_error = inl refl
MetaReply-cases meta_absent = inr (inl refl)
MetaReply-cases (meta_found m soft) = inr (inr (m, soft, refl))

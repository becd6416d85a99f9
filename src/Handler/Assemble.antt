-- ===== src/Handler/Assemble.antt =====
-- handler_esi.go: a document with fragments is assembled and written (`processESI`).
pub mod Serves
use titip.Prelude.{ℕ, Bool, true, false, Option, none, some, List, [], ◌∷◌, if◌then◌else◌}
use titip.Text.{Text}
use titip.Http.{Header}
use titip.Esi.Fragment.{Fragment}
use titip.Esi.Surrogate.{clean_surrogate_control}
use titip.Esi.Fetch.{EsiConfig, Network, State}
use titip.Esi.Execute.{Processed, process_fragments}
use titip.Esi.Reconcile.{reconcile_headers}
use titip.Handler.{Config, Context, World, Event, Status, cache_status, wrote_status}
use titip.Handler.Serve.{body_unless_head}

-- What stands around the processor of a request: its network, the time for alternatives, and the state
-- of a document that includes this one.
pub record Surroundings : Type 0 where
  pub network : Network
  pub in_time : Fragment → Bool
  pub context : Option State

module _ (cfg : Config) (esi : EsiConfig) (w : World) (s : Surroundings) where
  -- The result of the processor; `none` would be its error.
  unfoldable pub assembled : Context → Text → List Fragment → Option Processed
  assembled ctx body fs =
      process_fragments esi s.network w.parse_duration s.in_time s.context ctx.request body fs

  abbrev pub body_of : Text → Option Processed → Text
  body_of parent none = parent
  body_of parent (some p) = p.body

  -- `processESI`: the headers of the client's writer, and what is done.
  unfoldable pub process_esi :
      Context → Header → Text → List Fragment → ℕ → Status → Header × List Event
  unfolding assembled
  process_esi ctx h parent fs code status =
      if cfg.has_esi
      then (
        reconcile_headers esi.preserve_etag h (assembled ctx parent fs),
        cache_status status
            ∷ wrote_status code
            ∷ body_unless_head ctx (body_of parent (assembled ctx parent fs)),
      )
      else (
        clean_surrogate_control h,
        cache_status status ∷ wrote_status code ∷ body_unless_head ctx parent,
      )

-- ===== src/Esi/Execute.antt =====
-- esi/processor.go: the fragments of a document are fetched, expanded and spliced
-- (`executeFragments`, `executeFragment`, `expandNestedESI`, `ProcessFragments`). The fragments of
-- one document run at the same time in the code; none reads what another writes, so they stand here
-- in the order of their results. Tags of one URL share one fetch in the code, which Esi/Flight has; here
-- each makes its own. Time is a parameter: `in_time` says of a fragment whose source has
-- failed whether its budget allows the alternative.
pub mod Chain
pub mod Total
pub mod Fallback
use titip.Prelude.{
  ℕ, zero, suc, ◌+◌, Bool, true, false, not, ◌&&◌, Option, none, some, List, [], ◌∷◌, ◌++◌, any,
  ltb, leb, if◌then◌else◌,
}
use titip.Prelude.Int.{ℤ}
use titip.Text.{Text, ◌==ₜ◌}
use titip.Http.{is_empty}
use titip.Key.{Request}
use titip.Esi.Fragment.{Fragment}
use titip.Esi.Tag.{Result, ok, err}
use titip.Esi.Scanner.{scan}
use titip.Esi.Splice.{FragmentResult, splice_fragments, safe_slice, resolve_fallback}
use titip.Esi.Fetch.{State, Raw, Fetched, fetched, failed, EsiConfig, Network, fetch_fragment}

-- A fetch that was made: its URL, the state that went with it, and whether it was for an `alt`.
pub record Call : Type 0 where
  pub url : Text
  pub state : State
  pub is_alt : Bool

pub record Executed : Type 0 where
  pub results : List FragmentResult
  pub calls : List Call

-- A body with its own fragments put in; `exhausted` is the end of the fuel, and `crashed` a panic.
pub data Expansion : Type 0 where
  exhausted crashed : Expansion
  expanded : Text → List Text → List Call → Expansion

-- The cookies of all results, in their order.
abbrev pub all_cookies : List FragmentResult → List Text
all_cookies [] = []
all_cookies (r ∷ rs) = r.set_cookies ++ all_cookies rs

-- The smaller of the two limits; a limit of 0 on the tag is none.
abbrev pub effective_max : State → Fragment → ℕ
effective_max st f =
    if ltb 0 f.max_depth && ltb f.max_depth st.max_depth then f.max_depth else st.max_depth

-- The state below a fragment.
abbrev pub child_state : State → Fragment → Text → State
child_state st f url = record {
  depth = st.depth + 1;
  max_depth = effective_max st f;
  visited = url ∷ st.visited;
}

-- `visitedNode.contains`
abbrev pub visits : State → Text → Bool
visits st url = any (λ u. u ==ₜ url) st.visited

module _ (marker : Text) where
  -- What stands for a fragment with no body of its own.
  abbrev pub fallback : Text → Fragment → FragmentResult
  fallback parent f = record {
    spec = f;
    body = resolve_fallback marker (safe_slice parent f.inner_start_pos f.inner_end_pos) f.on_error;
    set_cookies = [];
  }

  -- The result of a fragment by the expansion of what was fetched for it.
  unfoldable pub settle :
      Text → Fragment → List Call → Expansion → Option (FragmentResult × List Call)
  settle parent f made exhausted = none
  settle parent f made crashed = some (fallback parent f, made)
  settle parent f made (expanded body cookies calls) =
      some (record { spec = f; body = body; set_cookies = cookies }, made ++ calls)

  module _ (parse_duration : Text → Option ℤ) (fetch : Text → State → Fetched)
      (in_time : Fragment → Bool) (run : State → Text → List Fragment → Option Executed) where
    -- `expandNestedESI`, where `run` executes the fragments of the body.
    unfoldable pub expand_nested_esi : State → Raw → Expansion
    expand_nested_esi st raw = elim (scan parse_duration raw.body) [
      | err e ↦ crashed
      | ok [] ↦ expanded raw.body raw.cookies []
      | ok (f ∷ fs) ↦ elim (run st raw.body (f ∷ fs)) [
        | none ↦ exhausted
        | some x ↦
            expanded (splice_fragments raw.body x.results) (raw.cookies ++ all_cookies x.results)
              x.calls
      ]
    ]

    -- The alternative of a fragment whose source has failed; `made` is the call for the source.
    unfoldable pub try_alt : State → Text → Fragment → Call → Option (FragmentResult × List Call)
    unfolding settle expand_nested_esi
    try_alt st parent f made =
        let below = child_state st f f.alt in
        let call : Call = record { url = f.alt; state = below; is_alt = true } in
        if not (is_empty f.alt) && in_time f
        then elim (fetch f.alt below) [
          | failed e ↦ some (fallback parent f, made ∷ call ∷ [])
          | fetched raw ↦ settle parent f (made ∷ call ∷ []) (expand_nested_esi below raw)
        ]
        else some (fallback parent f, made ∷ [])

    -- `executeFragment`
    unfoldable pub execute_fragment : State → Text → Fragment → Option (FragmentResult × List Call)
    unfolding try_alt settle expand_nested_esi
    execute_fragment st parent f =
        let below = child_state st f f.src in
        let call : Call = record { url = f.src; state = below; is_alt = false } in
        if leb (effective_max st f) st.depth
        then some (fallback parent f, [])
        else if visits st f.src
        then some (fallback parent f, [])
        else elim (fetch f.src below) [
          | failed e ↦ try_alt st parent f call
          | fetched raw ↦ settle parent f (call ∷ []) (expand_nested_esi below raw)
        ]

    -- A fragment with no source is its inner block, or nothing.
    unfoldable pub execute_one : State → Text → Fragment → Option (FragmentResult × List Call)
    unfolding execute_fragment
    execute_one st parent f =
        if is_empty f.src then some (fallback parent f, []) else execute_fragment st parent f

    unfoldable pub execute_each : State → Text → List Fragment → Option Executed
    unfolding execute_one
    execute_each st parent [] = some (record { results = []; calls = [] })
    execute_each st parent (f ∷ fs) =
        let rest = execute_each st parent fs in
        elim (execute_one st parent f) [
          | none ↦ none
          | some one ↦ elim rest [
            | none ↦ none
            | some x ↦ some (record { results = one.0 ∷ x.results; calls = one.1 ++ x.calls })
          ]
        ]

  -- `executeFragments`, with fuel for the documents inside one another.
  unfoldable pub execute_fragments :
      (Text → Option ℤ)
      → (Text → State → Fetched)
      → (Fragment → Bool)
      → ℕ
      → State
      → Text
      → List Fragment
      → Option Executed
  unfolding execute_each
  execute_fragments parse_duration fetch in_time zero st parent fs = none
  execute_fragments parse_duration fetch in_time (suc n) st parent fs =
      execute_each parse_duration fetch in_time (execute_fragments parse_duration fetch in_time n)
        st parent fs

-- The state at the top of a document, where the context has none.
abbrev pub initial_state : EsiConfig → Request → State
initial_state cfg r = record {
  depth = 0;
  max_depth = cfg.max_depth;
  visited = if is_empty r.path then [] else r.path ∷ [];
}

-- `Result`
pub record Processed : Type 0 where
  pub body : Text
  pub set_cookies : List Text

-- `ProcessFragments`; the fuel is one more than the depth that is left.
unfoldable pub process_fragments :
    EsiConfig
    → Network
    → (Text → Option ℤ)
    → (Fragment → Bool)
    → Option State
    → Request
    → Text
    → List Fragment
    → Option Processed
unfolding execute_fragments
process_fragments cfg net parse_duration in_time context parent body fragments =
    let st : State = elim context [ none ↦ initial_state cfg parent | some s ↦ s ] in
    elim (execute_fragments cfg.include_error_marker parse_duration (fetch_fragment cfg net parent)
      in_time (suc st.max_depth) st body fragments) [
        | none ↦ none
        | some x ↦
            some (record {
              body = splice_fragments body x.results;
              set_cookies = all_cookies x.results;
            })
      ]

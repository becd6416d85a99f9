-- ===== src/Esi/Execute/Total.antt =====
-- esi/processor.go: the assembly of a document ends, with one result for each of its tags.
use titip.Prelude.{
  ◌⊎◌, ℕ, zero, suc, ◌-◌, ◌<◌, ◌≡◌, ◌≢◌, refl, inl, inr, Bool, not, ◌&&◌, Option, none, some, List,
  [], ◌∷◌, ◌++◌, leb, arith, Bool-cases, length,
}
use titip.Prelude.Int.{ℤ}
use titip.Text.{Text}
use titip.Http.{is_empty}
use titip.Key.{Request}
use titip.Esi.Fragment.{Fragment, Ordered}
use titip.Esi.Tag.{Result, ok, err}
use titip.Esi.Scanner.{scan}
use titip.Esi.Splice.{FragmentResult}
use titip.Esi.Splice.Replace.{specs, replace, splice_fragments-replace}
use titip.Esi.Fetch.{
  Error, State, Raw, Fetched, fetched, failed, EsiConfig, Network, fetch_fragment,
}
use titip.Esi.Execute.{
  Call, Executed, Expansion, exhausted, crashed, expanded, all_cookies, effective_max, child_state,
  visits, settle, expand_nested_esi, try_alt, execute_fragment, execute_one, execute_each,
  execute_fragments, initial_state, process_fragments,
}

-- A result for the fragment, with the calls that were made.
abbrev Yields : Option (FragmentResult × List Call) → Fragment → Type 0
Yields o f = (p : FragmentResult × List Call) × ((o ≡ some p) × (p.0.spec ≡ f))

-- The depth that is left below a state.
abbrev left : State → ℕ
left st = st.max_depth - st.depth

pub Fetched-cases :
    (x : Fetched) → ((raw : Raw) × (x ≡ fetched raw)) ⊎ ((e : Error) × (x ≡ failed e))
Fetched-cases (fetched raw) = inl (raw, refl)
Fetched-cases (failed e) = inr (e, refl)

settle-Yields :
    (marker parent : Text) (f : Fragment) (made : List Call) (e : Expansion)
    → e ≢ exhausted
    → Yields (settle marker parent f made e) f
unfolding settle
settle-Yields marker parent f made exhausted n = absurd (n refl)
settle-Yields marker parent f made crashed n = (_, (refl, refl))
settle-Yields marker parent f made (expanded body cookies calls) n = (_, (refl, refl))

module _ (marker : Text) (parse_duration : Text → Option ℤ) (fetch : Text → State → Fetched)
    (in_time : Fragment → Bool) (run : State → Text → List Fragment → Option Executed) where
  module _ (n : ℕ)
      (runs : (st : State) (b : Text) (fs : List Fragment)
        → left st < n
        → (x : Executed) × ((run st b fs ≡ some x) × (specs x.results ≡ fs))) where
    expansion_ends :
        (st : State) (raw : Raw) (r : Result (List Fragment))
        → scan parse_duration raw.body ≡ r
        → left st < n
        → expand_nested_esi marker parse_duration fetch in_time run st raw ≢ exhausted
    unfolding expand_nested_esi
    expansion_ends st raw (err e) s l = rw (s, expand_nested_esi) (λ h. cc)
    expansion_ends st raw (ok []) s l = rw (s, expand_nested_esi) (λ h. cc)
    expansion_ends st raw (ok (f ∷ fs)) s l =
        let (x, (e, _)) = runs st raw.body (f ∷ fs) l in rw (s, expand_nested_esi, e) (λ h. cc)

    module _ (st : State) (parent : Text) (f : Fragment) (l : left st < suc n) where
      settled :
          (url : Text) (made : List Call) (raw : Raw)
          → st.depth < effective_max st f
          → Yields
              (settle marker parent f made (
                expand_nested_esi marker parse_duration fetch in_time run
                  (child_state st f url)
                  raw))
              f
      settled url made raw d =
          settle-Yields marker parent f made _
            (expansion_ends (child_state st f url) raw _ refl (ground arith))

      alt-Yields :
          (made : Call)
          → st.depth < effective_max st f
          → Yields (try_alt marker parse_duration fetch in_time run st parent f made) f
      unfolding try_alt
      alt-Yields made d = elim (Bool-cases (not (is_empty f.alt) && in_time f)) [
        | inr no_alt ↦ rw no_alt (_, (refl, refl))
        | inl alt ↦ elim (Fetched-cases (fetch f.alt (child_state st f f.alt))) [
          | inl (raw, e) ↦ rw (alt, e) (settled f.alt _ raw d)
          | inr (x, e) ↦ rw (alt, e) (_, (refl, refl))
        ]
      ]

      fragment-Yields :
          Yields (execute_fragment marker parse_duration fetch in_time run st parent f) f
      unfolding execute_fragment
      fragment-Yields = elim (Bool-cases (leb (effective_max st f) st.depth)) [
        | inl deep ↦ rw deep (_, (refl, refl))
        | inr deep ↦ elim (Bool-cases (visits st f.src)) [
          | inl again ↦ rw (deep, again) (_, (refl, refl))
          | inr again ↦ elim (Fetched-cases (fetch f.src (child_state st f f.src))) [
            | inl (raw, e) ↦ rw (deep, again, e) (settled f.src _ raw (ground (arith, deep)))
            | inr (x, e) ↦ rw (deep, again, e) (alt-Yields _ (ground (arith, deep)))
          ]
        ]
      ]

      one-Yields : Yields (execute_one marker parse_duration fetch in_time run st parent f) f
      unfolding execute_one
      one-Yields = elim (Bool-cases (is_empty f.src)) [
        | inl e ↦ rw e (_, (refl, refl))
        | inr e ↦ rw e fragment-Yields
      ]

    each-runs :
        (st : State) (parent : Text) (fs : List Fragment)
        → left st < suc n
        → (x : Executed) × ((execute_each marker parse_duration fetch in_time run st parent fs
              ≡ some x)
            × (specs x.results ≡ fs))
    unfolding execute_each
    each-runs st parent [] l = (_, (refl, refl))
    each-runs st parent (f ∷ fs) l =
        let (p, (e, s)) = one-Yields st parent f l in
        let (x, (r, t)) = each-runs st parent fs l in
        (
          record { results = p.0 ∷ x.results; calls = p.1 ++ x.calls },
          (rw (e, r, execute_each) refl, rw (s, t) refl),
        )

-- With fuel above the depth that is left, every document is assembled.
pub fragments-run :
    (marker : Text) (parse_duration : Text → Option ℤ) (fetch : Text → State → Fetched)
    (in_time : Fragment → Bool) (n : ℕ) (st : State) (parent : Text) (fs : List Fragment)
    → left st < n
    → (x : Executed) × ((execute_fragments marker parse_duration fetch in_time n st parent fs
          ≡ some x)
        × (specs x.results ≡ fs))
unfolding execute_fragments
fragments-run marker parse_duration fetch in_time zero st parent fs l = absurd (omega arith)
fragments-run marker parse_duration fetch in_time (suc n) st parent fs l =
    each-runs marker parse_duration fetch in_time
      (execute_fragments marker parse_duration fetch in_time n) n
      (fragments-run marker parse_duration fetch in_time n) st parent fs l

-- The assembly of a document ends, whatever the fetches return and whatever state the context has; and
-- where the tags are in order, as Scan returns them, the document that it yields is the parent with
-- each tag replaced by the body of its own result.
pub process_fragments-replace :
    (cfg : EsiConfig) (net : Network) (parse_duration : Text → Option ℤ) (in_time : Fragment → Bool)
    (context : Option State) (r : Request) (body : Text) (fs : List Fragment)
    → Ordered 0 (length body) fs
    → (rs : List FragmentResult) × (specs rs ≡ fs)
      × (process_fragments cfg net parse_duration in_time context r body fs
          ≡ some (record { body = replace 0 body rs; set_cookies = all_cookies rs }))
unfolding process_fragments
process_fragments-replace cfg net parse_duration in_time none r body fs ordered =
    let (x, (e, s)) =
      fragments-run cfg.include_error_marker parse_duration (fetch_fragment cfg net r) in_time
        (suc cfg.max_depth) (initial_state cfg r) body fs (omega arith) in
    (
      x.results,
      s,
      rw (e, process_fragments, splice_fragments-replace body x.results (rw s ordered)) refl,
    )
process_fragments-replace cfg net parse_duration in_time (some st) r body fs ordered =
    let (x, (e, s)) =
      fragments-run cfg.include_error_marker parse_duration (fetch_fragment cfg net r) in_time
        (suc st.max_depth) st body fs (omega arith) in
    (
      x.results,
      s,
      rw (e, process_fragments, splice_fragments-replace body x.results (rw s ordered)) refl,
    )

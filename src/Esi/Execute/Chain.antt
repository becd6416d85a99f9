-- ===== src/Esi/Execute/Chain.antt =====
-- esi/processor.go: the limits of the recursion, as the fetches that are made keep them.
use titip.Prelude.{
  ℕ, zero, suc, ◌+◌, ◌-◌, ◌<◌, ◌≤◌, ◌≡◌, refl, ◌⊎◌, inl, inr, Bool, true, false, not, ◌&&◌, Option,
  none, some, List, [], ◌∷◌, any, leb, arith, Bool-cases, Option-cases, length, All, All-append,
}
use titip.Prelude.Int.{ℤ}
use titip.Text.{Text, ◌==ₜ◌}
use titip.Http.{is_empty}
use titip.Esi.Fragment.{Fragment}
use titip.Esi.Tag.{Result, ok, err}
use titip.Esi.Scanner.{scan}
use titip.Esi.Splice.{FragmentResult}
use titip.Esi.Fetch.{State, Raw, Fetched}
use titip.Esi.Execute.{
  Call, Executed, Expansion, exhausted, crashed, expanded, effective_max, child_state, visits,
  settle, expand_nested_esi, try_alt, execute_fragment, execute_one, execute_each,
  execute_fragments,
}
use titip.Esi.Execute.Total.{Fetched-cases, fragments-run}

-- A fetch below a state: it is deeper, within the limits of the state, its URL heads the documents that
-- it stands in, one for each level, and it is none of them but where it is an alternative.
pub record IsChained (st : State) (c : Call) : Type 0 where
  pub deeper : st.depth < c.state.depth
  pub bounded : c.state.depth ≤ c.state.max_depth
  pub narrowed : c.state.max_depth ≤ st.max_depth
  pub counted : length c.state.visited + st.depth ≡ c.state.depth + length st.visited
  pub outer : List Text
  pub headed : c.state.visited ≡ c.url ∷ outer
  pub fresh : (c.is_alt ≡ true) ⊎ (any (λ u. u ==ₜ c.url) outer ≡ false)

abbrev IsKept : State → Option (FragmentResult × List Call) → Type 0
IsKept st none = Unit
IsKept st (some p) = All (IsChained st) p.1

abbrev AllKept : State → Option Executed → Type 0
AllKept st none = Unit
AllKept st (some x) = All (IsChained st) x.calls

abbrev ExpansionKept : State → Expansion → Type 0
ExpansionKept st exhausted = Unit
ExpansionKept st crashed = Unit
ExpansionKept st (expanded body cookies calls) = All (IsChained st) calls

-- What holds below a child holds below its parent.
lift-IsChained :
    (st : State) (f : Fragment) (url : Text) (c : Call)
    → IsChained (child_state st f url) c
    → IsChained st c
lift-IsChained st f url c h = record {
  deeper = omega (arith, h.deeper);
  bounded = h.bounded;
  narrowed = ground (arith, h.narrowed);
  counted = omega (arith, h.counted);
  outer = h.outer;
  headed = h.headed;
  fresh = h.fresh;
}

lift-All :
    (st : State) (f : Fragment) (url : Text) (cs : List Call)
    → All (IsChained (child_state st f url)) cs
    → All (IsChained st) cs
lift-All st f url [] h = tt
lift-All st f url (c ∷ cs) h = (lift-IsChained st f url c h.0, lift-All st f url cs h.1)

settle-IsKept :
    (marker parent : Text) (st : State) (f : Fragment) (url : Text) (made : List Call)
    (e : Expansion)
    → All (IsChained st) made
    → ExpansionKept (child_state st f url) e
    → IsKept st (settle marker parent f made e)
unfolding settle
settle-IsKept marker parent st f url made exhausted h k = tt
settle-IsKept marker parent st f url made crashed h k = h
settle-IsKept marker parent st f url made (expanded body cookies calls) h k =
    All-append (IsChained st) made calls h (lift-All st f url calls k)

-- The fetch for a source that is not being assembled, and the one for an alternative.
made-IsChained :
    (st : State) (f : Fragment) (url : Text) (alt : Bool)
    → st.depth < effective_max st f
    → (alt ≡ true) ⊎ (visits st url ≡ false)
    → IsChained st (record { url = url; state = child_state st f url; is_alt = alt })
made-IsChained st f url alt d fresh = record {
  deeper = omega arith;
  bounded = omega (arith, d);
  narrowed = ground arith;
  counted = omega arith;
  outer = st.visited;
  headed = refl;
  fresh = fresh;
}

module _ (marker : Text) (parse_duration : Text → Option ℤ) (fetch : Text → State → Fetched)
    (in_time : Fragment → Bool) (run : State → Text → List Fragment → Option Executed)
    (kept : (st : State) (b : Text) (fs : List Fragment) → AllKept st (run st b fs)) where
  expansion-kept :
      (st : State) (raw : Raw) (r : Result (List Fragment))
      → scan parse_duration raw.body ≡ r
      → ExpansionKept st (expand_nested_esi marker parse_duration fetch in_time run st raw)
  unfolding expand_nested_esi
  expansion-kept st raw (err e) s = rw (s, expand_nested_esi) tt
  expansion-kept st raw (ok []) s = rw (s, expand_nested_esi) tt
  expansion-kept st raw (ok (f ∷ fs)) s = elim (Option-cases (run st raw.body (f ∷ fs))) [
    | inl e ↦ rw (s, expand_nested_esi, e) tt
    | inr (x, e) ↦ rw (s, expand_nested_esi, e) (rw e at (kept st raw.body (f ∷ fs)))
  ]

  module _ (st : State) (parent : Text) (f : Fragment) where
    settled-IsKept :
        (url : Text) (made : List Call) (raw : Raw)
        → All (IsChained st) made
        → IsKept st (
            settle marker parent f made (
              expand_nested_esi marker parse_duration fetch in_time run (child_state st f url) raw))
    settled-IsKept url made raw h =
        settle-IsKept marker parent st f url made _ h
          (expansion-kept (child_state st f url) raw _ refl)

    alt-IsKept :
        (made : Call)
        → IsChained st made
        → st.depth < effective_max st f
        → IsKept st (try_alt marker parse_duration fetch in_time run st parent f made)
    unfolding try_alt
    alt-IsKept made h d =
        let second = made-IsChained st f f.alt true d (inl refl) in
        elim (Bool-cases (not (is_empty f.alt) && in_time f)) [
          | inr no_alt ↦ rw no_alt (h, tt)
          | inl alt ↦ elim (Fetched-cases (fetch f.alt (child_state st f f.alt))) [
            | inl (raw, e) ↦ rw (alt, e) (settled-IsKept f.alt _ raw (h, (second, tt)))
            | inr (x, e) ↦ rw (alt, e) (h, (second, tt))
          ]
        ]

    fragment-IsKept :
        IsKept st (execute_fragment marker parse_duration fetch in_time run st parent f)
    unfolding execute_fragment
    fragment-IsKept = elim (Bool-cases (leb (effective_max st f) st.depth)) [
      | inl deep ↦ rw deep tt
      | inr deep ↦ elim (Bool-cases (visits st f.src)) [
        | inl again ↦ rw (deep, again) tt
        | inr again ↦
            let d : st.depth < effective_max st f = ground (arith, deep) in
            let first = made-IsChained st f f.src false d (inr again) in
            elim (Fetched-cases (fetch f.src (child_state st f f.src))) [
              | inl (raw, e) ↦ rw (deep, again, e) (settled-IsKept f.src _ raw (first, tt))
              | inr (x, e) ↦ rw (deep, again, e) (alt-IsKept _ first d)
            ]
      ]
    ]

    one-IsKept : IsKept st (execute_one marker parse_duration fetch in_time run st parent f)
    unfolding execute_one
    one-IsKept = elim (Bool-cases (is_empty f.src)) [
      | inl e ↦ rw e tt
      | inr e ↦ rw e fragment-IsKept
    ]

  each-kept :
      (st : State) (parent : Text) (fs : List Fragment)
      → AllKept st (execute_each marker parse_duration fetch in_time run st parent fs)
  unfolding execute_each
  each-kept st parent [] = tt
  each-kept st parent (f ∷ fs) =
      elim (Option-cases (execute_one marker parse_duration fetch in_time run st parent f)) [
        | inl e ↦ rw (e, execute_each) tt
        | inr (p, e) ↦
            elim (Option-cases
              (execute_each marker parse_duration fetch in_time run st parent fs)) [
                | inl r ↦ rw (e, execute_each, r) tt
                | inr (x, r) ↦
                    rw (e, execute_each, r)
                      (All-append (IsChained st) p.1 x.calls (rw e at (one-IsKept st parent f))
                        (rw r at (each-kept st parent fs)))
              ]
      ]

fragments-kept :
    (marker : Text) (parse_duration : Text → Option ℤ) (fetch : Text → State → Fetched)
    (in_time : Fragment → Bool) (n : ℕ) (st : State) (parent : Text) (fs : List Fragment)
    → AllKept st (execute_fragments marker parse_duration fetch in_time n st parent fs)
unfolding execute_fragments
fragments-kept marker parse_duration fetch in_time zero st parent fs = tt
fragments-kept marker parse_duration fetch in_time (suc n) st parent fs =
    each-kept marker parse_duration fetch in_time
      (execute_fragments marker parse_duration fetch in_time n)
      (fragments-kept marker parse_duration fetch in_time n) st parent fs

-- Whatever the fetches return, with fuel above the depth that is left the fragments of a document are
-- executed, and every fetch that is made is below the state of the document: deeper, within its limit
-- of depth, with one URL visited for each level; and the URL of a source is none of the documents that
-- it is included in.
pub execute_fragments-IsChained :
    (marker : Text) (parse_duration : Text → Option ℤ) (fetch : Text → State → Fetched)
    (in_time : Fragment → Bool) (n : ℕ) (st : State) (parent : Text) (fs : List Fragment)
    → st.max_depth - st.depth < n
    → (x : Executed) × (execute_fragments marker parse_duration fetch in_time n st parent fs
        ≡ some x)
      × All (IsChained st) x.calls
execute_fragments-IsChained marker parse_duration fetch in_time n st parent fs l =
    let (x, (e, _)) = fragments-run marker parse_duration fetch in_time n st parent fs l in
    (x, e, rw e at (fragments-kept marker parse_duration fetch in_time n st parent fs))

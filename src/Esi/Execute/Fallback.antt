-- ===== src/Esi/Execute/Fallback.antt =====
-- esi/processor.go: what stands for a fragment that cannot be had.
use titip.Prelude.{◌≤◌, ◌≡◌, Bool, true, false, Option, some, List}
use titip.Prelude.Int.{ℤ}
use titip.Text.{Text}
use titip.Http.{is_empty}
use titip.Esi.Fragment.{Fragment}
use titip.Esi.Splice.{FragmentResult}
use titip.Esi.Fetch.{State, Error, Fetched, failed}
use titip.Esi.Execute.{Call, Executed, effective_max, child_state, visits, fallback}

module _ (fetch : Text → State → Fetched) (in_time : Fragment → Bool) (st : State)
    (f : Fragment) where
  abbrev SourceFails : Type 0
  SourceFails = (e : Error) × (fetch f.src (child_state st f f.src) ≡ failed e)

  -- Why a fragment cannot be had: the limit of depth is reached, or its source is a document that it
  -- stands in, or the source fails and there is no alternative, no time for it, or it fails as well.
  pub data CannotBeHad : Type 0 where
    too_deep : effective_max st f ≤ st.depth → CannotBeHad
    circular : visits st f.src ≡ true → CannotBeHad
    no_alternative : SourceFails → is_empty f.alt ≡ true → CannotBeHad
    no_time : SourceFails → in_time f ≡ false → CannotBeHad
    both_fail :
        SourceFails → (e : Error) → fetch f.alt (child_state st f f.alt) ≡ failed e → CannotBeHad

module _ (marker : Text) (parse_duration : Text → Option ℤ) (fetch : Text → State → Fetched)
    (in_time : Fragment → Bool) (run : State → Text → List Fragment → Option Executed) (st : State)
    (parent : Text) (f : Fragment) where
  -- The result is the fallback, with some calls made.
  abbrev FallsBack : Option (FragmentResult × List Call) → Type 0
  FallsBack o = (calls : List Call) × (o ≡ some (fallback marker parent f, calls))

  abbrev made : Call
  made = record { url = f.src; state = child_state st f f.src; is_alt = false }

-- ===== src/Esi/Flight.antt =====
-- esi/processor.go: `flightGroup`, which shares one fetch among the tags of one URL. Keys do not touch
-- one another, so the state is that of one key. Each function is a section under the mutex, and
-- `returned` is the end of the call in singleflight, behind the function that it ran.
pub mod Shared
use titip.Prelude.{
  ℕ, zero, suc, ◌+◌, ◌-◌, ◌<◌, ◌≡◌, Bool, true, false, Option, none, some, leb, ◌==◌, if◌then◌else◌,
}
use titip.Esi.Fetch.{Fetched}

-- Trackers and the flights that they were made for have one number. A tracker may be out of the map
-- while callers still hold it: `listeners` is the count in each. `call` is the flight that
-- singleflight knows under the key, and `memo` is what `results` and `errors` hold.
pub record Group : Type 0 where
  pub tracker : Option ℕ
  pub listeners : ℕ → ℕ
  pub cancelled : ℕ → Bool
  pub finished : ℕ → Bool
  pub call : Option ℕ
  pub memo : Option Fetched
  pub next : ℕ

-- What a caller gets: the result of a flight that is over, a flight of its own, one that is shared; or,
-- where singleflight knows no flight, a call that returns nothing, or knows one and the group does
-- not, the result of a stranger.
pub data Ticket : Type 0 where
  memoized : Fetched → Ticket
  leads follows : ℕ → Ticket
  hollow : Ticket
  strays : ℕ → Ticket

-- A function with another value at one number.
abbrev pub update {ℓ} : {A : Type ℓ} → (ℕ → A) → ℕ → A → ℕ → A
update f i a j = if i == j then a else f j

abbrev pub new_group : Group
new_group = record {
  tracker = none;
  listeners = λ i. 0;
  cancelled = λ i. false;
  finished = λ i. false;
  call = none;
  memo = none;
  next = 0;
}

-- `newFlightGroup` has no entry for any key. A tracker for the flight `i`, which the caller waits for.
abbrev pub tracked : Group → ℕ → Group
tracked g i = record g { tracker = some i; listeners = update g.listeners i 1; next = suc g.next }

abbrev pub begin : Group → Option ℕ → Group × Ticket
begin g none = (record (tracked g g.next) { call = some g.next }, leads g.next)
begin g (some m) = (tracked g g.next, strays m)

abbrev pub join : Group → ℕ → Option ℕ → Group × Ticket
join g i none = (record g { listeners = update g.listeners i (g.listeners i + 1) }, hollow)
join g i (some m) = (record g { listeners = update g.listeners i (g.listeners i + 1) }, follows m)

abbrev pub by_tracker : Group → Option ℕ → Group × Ticket
by_tracker g none = begin g g.call
by_tracker g (some i) = join g i g.call

abbrev pub by_memo : Group → Option Fetched → Group × Ticket
by_memo g (some r) = (g, memoized r)
by_memo g none = by_tracker g g.tracker

-- `do`
unfoldable pub do_flight : Group → Group × Ticket
do_flight g = by_memo g g.memo

-- The function of a flight ends with a result.
unfoldable pub finish : Group → ℕ → Fetched → Group
finish g i r = record g { memo = some r; tracker = none; finished = update g.finished i true }

abbrev pub unless_is : ℕ → Option ℕ → Option ℕ
unless_is i none = none
unless_is i (some j) = if i == j then none else some j

-- singleflight removes the call, where it is still the one under the key.
unfoldable pub returned : Group → ℕ → Group
returned g i = record g { call = unless_is i g.call }

-- `release` of the tracker `i`
unfoldable pub release : Group → ℕ → Group
release g i =
    let fewer = record g { listeners = update g.listeners i (g.listeners i - 1) } in
    if leb (g.listeners i) 1
    then record fewer {
      cancelled = update g.cancelled i true;
      call = none;
      tracker = unless_is i g.tracker;
    }
    else fewer

-- What may happen to the group of a document: a caller comes, a flight that was started ends, its call
-- is removed, a caller that waits on a tracker leaves it.
pub data Step (g : Group) : Group → Type 0 where
  arrives : {h : Group} → (do_flight g).0 ≡ h → Step g h
  ends :
      {h : Group} (i : ℕ) (r : Fetched)
      → i < g.next
      → g.finished i ≡ false
      → finish g i r ≡ h
      → Step g h
  removed : {h : Group} (i : ℕ) → g.finished i ≡ true → returned g i ≡ h → Step g h
  leaves : {h : Group} (i : ℕ) → 0 < g.listeners i → release g i ≡ h → Step g h

-- The states that a new group comes to.
pub data Reach : Group → Type 0 where
  start : Reach new_group
  later : {g h : Group} → Reach g → Step g h → Reach h

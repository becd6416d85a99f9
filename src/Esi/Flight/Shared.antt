-- ===== src/Esi/Flight/Shared.antt =====
-- esi/processor.go: no caller of a flight group is left without a result.
use titip.Prelude.{
  ap, ℕ, ◌<◌, ◌≡◌, refl, subst, inl, inr, ◌⊎◌, true, false, Option, none, some, leb, arith,
  Bool-cases,
}
use titip.Esi.Fetch.{Fetched}
use titip.Esi.Flight.{
  begin, join, by_tracker, by_memo, Group, Ticket, memoized, leads, follows, new_group, do_flight,
  finish, unless_is, returned, release, Step, arrives, ends, removed, leaves, Reach, start, later,
}

-- With a result kept there is no tracker. Without one, the tracker is the only one that is held, its
-- flight is the one that singleflight knows, and no flight has ended.
pub record IsConsistent (g : Group) : Type 0 where
  pub settled : (r : Fetched) → g.memo ≡ some r → g.tracker ≡ none
  pub known : g.memo ≡ none → g.call ≡ g.tracker
  pub held : (i : ℕ) → g.memo ≡ none → 0 < g.listeners i → g.tracker ≡ some i
  pub open_flights : (i : ℕ) → g.memo ≡ none → g.finished i ≡ false

new_group-IsConsistent : IsConsistent new_group
new_group-IsConsistent = record {
  settled = λ r e. cc;
  known = λ e. refl;
  held = λ i e l. absurd (omega arith);
  open_flights = λ i e. refl;
}

finish-IsConsistent :
    (g : Group) (i : ℕ) (r : Fetched) → IsConsistent g → IsConsistent (finish g i r)
unfolding finish
finish-IsConsistent g i r c = record {
  settled = λ s e. refl;
  known = λ e. cc;
  held = λ j e l. cc;
  open_flights = λ j e. cc;
}

returned-IsConsistent :
    (g : Group) (i : ℕ) → g.finished i ≡ true → IsConsistent g → IsConsistent (returned g i)
unfolding returned
returned-IsConsistent g i f c = record {
  settled = c.settled;
  known = λ e. cc (c.open_flights i e);
  held = c.held;
  open_flights = c.open_flights;
}

release-IsConsistent :
    (g : Group) (i : ℕ) → 0 < g.listeners i → IsConsistent g → IsConsistent (release g i)
unfolding release
release-IsConsistent g i l c = elim (Bool-cases (leb (g.listeners i) 1)) [
  | inl e ↦ rw e (record {
    settled = λ r m. ap (unless_is i) (c.settled r m);
    known = λ m. ground (arith, c.held i m l);
    held = λ j m k. ground (arith, c.held i m l, c.held j m);
    open_flights = c.open_flights;
  })
  | inr e ↦ rw e (record {
    settled = c.settled;
    known = c.known;
    held = λ j m k. ground (arith, c.held i m l, c.held j m);
    open_flights = c.open_flights;
  })
]

-- A caller gets a result that is kept; or it has a tracker, which is the current one, and waits for the
-- flight that it starts or for the one of the tracker.
abbrev pub IsServed : Group × Ticket → Type 0
IsServed p =
    IsConsistent p.0
    × (((r : Fetched) × (p.1 ≡ memoized r))
        ⊎ ((i : ℕ) × (p.0.tracker ≡ some i)
            × (0 < p.0.listeners i)
            × ((p.1 ≡ leads i) ⊎ (p.1 ≡ follows i))))

module _ (g : Group) (c : IsConsistent g) where
  join-IsServed :
      (i : ℕ) (k : Option ℕ)
      → g.memo ≡ none
      → g.tracker ≡ some i
      → g.call ≡ k
      → IsServed (join g i k)
  join-IsServed i none m t e = cc (c.known m)
  join-IsServed i (some j) m t e = (
    record {
      settled = λ r h. cc;
      known = c.known;
      held = λ j m k. ground (arith, c.held j m, t);
      open_flights = c.open_flights;
    },
    inr (i, t, ground arith, inr (cc (c.known m))),
  )

  begin-IsServed :
      (k : Option ℕ) → g.memo ≡ none → g.tracker ≡ none → g.call ≡ k → IsServed (begin g k)
  begin-IsServed (some j) m t e = cc (c.known m)
  begin-IsServed none m t e = (
    record {
      settled = λ r h. cc;
      known = λ h. refl;
      held = λ j m k. ground (arith, c.held j m, t);
      open_flights = c.open_flights;
    },
    inr (g.next, refl, ground arith, inl refl),
  )

  by_tracker-IsServed : (t : Option ℕ) → g.memo ≡ none → g.tracker ≡ t → IsServed (by_tracker g t)
  by_tracker-IsServed none m e = begin-IsServed g.call m e refl
  by_tracker-IsServed (some i) m e = join-IsServed i g.call m e refl

  by_memo-IsServed : (m : Option Fetched) → g.memo ≡ m → IsServed (by_memo g m)
  by_memo-IsServed none e = by_tracker-IsServed g.tracker e refl
  by_memo-IsServed (some r) e = (c, inl (r, refl))

consistent-IsServed : (g : Group) → IsConsistent g → IsServed (do_flight g)
unfolding do_flight
consistent-IsServed g c = by_memo-IsServed g c g.memo refl

Step-IsConsistent : {g h : Group} → Step g h → IsConsistent g → IsConsistent h
Step-IsConsistent {g} (arrives e) c = subst IsConsistent e (consistent-IsServed g c).0
Step-IsConsistent {g} (ends i r l f e) c = subst IsConsistent e (finish-IsConsistent g i r c)
Step-IsConsistent {g} (removed i f e) c = subst IsConsistent e (returned-IsConsistent g i f c)
Step-IsConsistent {g} (leaves i l e) c = subst IsConsistent e (release-IsConsistent g i l c)

Reach-IsConsistent : {g : Group} → Reach g → IsConsistent g
Reach-IsConsistent start = new_group-IsConsistent
Reach-IsConsistent (later r s) = Step-IsConsistent s (Reach-IsConsistent r)

-- In every state that a new group comes to, by callers that come and leave and flights that end, in any
-- order, a caller that comes gets a result that is kept, or waits for the flight that it starts or for
-- the one of the tracker that it holds: it never runs the function that returns nothing, and never
-- shares the flight of a stranger.
pub do_flight-IsServed : {g : Group} → Reach g → IsServed (do_flight g)
do_flight-IsServed {g} r = consistent-IsServed g (Reach-IsConsistent r)

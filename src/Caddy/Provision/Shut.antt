-- ===== src/Caddy/Provision/Shut.antt =====
-- adapter/caddy/caddy.go: options of ESI that let no private address in.
use titip.Prelude.{
  ◌≡◌, refl, ◌⊎◌, inl, inr, Bool, true, false, not, any, ◌||◌, Option, none, some, List, [], ◌∷◌,
  ◌++◌, map, Option-cases, if◌then◌else◌, arith,
}
use titip.Text.{Text}
use titip.Esi.Options.{EsiOption}
use titip.Esi.Options.Guards.{opens}
use titip.Caddy.{EsiRules}
use titip.Caddy.Provision.{collect, when, opt, parsed, unless_blank, hosts_given}

-- Does a switch say `b`?
abbrev pub says : Option Bool → Bool → Bool
says none b = false
says (some v) b = if b then v else not v

-- Do the rules let private addresses in?
abbrev pub opens_private : Option EsiRules → Bool
opens_private none = false
opens_private (some r) =
    says r.block_private_ips false || says r.allow_private_ips_for_allowed_hosts true

-- Options of which none opens the processor.
abbrev pub IsShut : List EsiOption → Type 0
IsShut os = any opens (map some os) ≡ false

abbrev pub IsShutIfAny : Option (List EsiOption) → Type 0
IsShutIfAny none = Unit
IsShutIfAny (some os) = IsShut os

-- No part opens the processor.
abbrev pub AllShut : List (Option (List EsiOption)) → Type 0
AllShut [] = Unit
AllShut (x ∷ xs) = IsShutIfAny x × AllShut xs

pub append-IsShut : (p q : List EsiOption) → IsShut p → IsShut q → IsShut (p ++ q)
append-IsShut [] q a b = b
append-IsShut (o ∷ p) q a b = ground (arith, append-IsShut p q)

pub collect-IsShut : (xs : List (Option (List EsiOption))) → AllShut xs → IsShutIfAny (collect xs)
unfolding collect
collect-IsShut [] a = refl
collect-IsShut (none ∷ xs) a = tt
collect-IsShut (some p ∷ xs) a = elim (Option-cases (collect xs)) [
  | inl n ↦ rw (n, collect) tt
  | inr (q, f) ↦ rw (f, collect) (append-IsShut p q a.0 (rw f at (collect-IsShut xs a.1)))
]

pub single : (o : EsiOption) → opens (some o) ≡ false → IsShut (o ∷ [])
single o e = rw e refl

pub when-IsShut :
    (v : Option Bool) (b : Bool) (o : EsiOption)
    → (says v b ≡ false) ⊎ (opens (some o) ≡ false)
    → IsShut (when v b o)
when-IsShut none b o e = refl
when-IsShut (some true) true o (inl e) = cc
when-IsShut (some true) true o (inr e) = single o e
when-IsShut (some false) false o (inl e) = cc
when-IsShut (some false) false o (inr e) = single o e
when-IsShut (some true) false o e = refl
when-IsShut (some false) true o e = refl

pub opt-IsShut :
    {A : Type 0} (v : Option A) (f : A → EsiOption)
    → ((x : A) → opens (some (f x)) ≡ false)
    → IsShut (opt v f)
opt-IsShut none f e = refl
opt-IsShut (some x) f e = single (f x) (e x)

pub found-IsShut :
    {A : Type 0} (v : Option A) (f : A → EsiOption)
    → ((x : A) → opens (some (f x)) ≡ false)
    → IsShutIfAny (elim v [ none ↦ none | some x ↦ some (f x ∷ []) ])
found-IsShut none f e = tt
found-IsShut (some x) f e = single (f x) (e x)

pub parsed-IsShut :
    {A : Type 0} (parse : Text → Option A) (t : Text) (f : A → EsiOption)
    → ((x : A) → opens (some (f x)) ≡ false)
    → IsShutIfAny (parsed parse t f)
parsed-IsShut parse [] f e = refl
parsed-IsShut parse (b ∷ t) f e = found-IsShut (parse (b ∷ t)) f e

pub hosts-IsShut : (hs : List Text) → IsShut (hosts_given hs)
hosts-IsShut [] = refl
hosts-IsShut (h ∷ hs) = refl

pub blank-IsShut : (t : Text) (o : EsiOption) → opens (some o) ≡ false → IsShut (unless_blank t o)
blank-IsShut [] o e = refl
blank-IsShut (b ∷ t) o e = single o e

pub neither : (a b : Bool) → (a || b) ≡ false → (a ≡ false) × (b ≡ false)
neither a b e = ground arith

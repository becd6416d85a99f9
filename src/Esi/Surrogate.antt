-- ===== src/Esi/Surrogate.antt =====
-- esi/processor.go: the Surrogate-Control and Surrogate-Capability headers.
pub mod Keeps
use titip.Prelude.{
  Bool, true, false, not, ◌&&◌, ◌||◌, Option, none, some, List, [], ◌∷◌, ◌++◌, any, if◌then◌else◌,
}
use titip.Text.{Text, codes, ◌==ₜ◌, equal_fold, contains, split, join, trim_space}
use titip.Http.{Header, get, set, is_empty}
use titip.Http.Name

-- `containsESI`
unfoldable pub contains_esi : Text → Bool
contains_esi s = contains (codes "ESI/1.0") s || contains (codes "esi/1.0") s

-- `h[key]` with its presence, under the key as it stands.
unfoldable pub lookup : Text → Header → Option (List Text)
lookup k [] = none
lookup k ((j, vs) ∷ h) = let rest = lookup k h in if j ==ₜ k then some vs else rest

-- The first entry whose key is the name but for the case, with that key.
unfoldable pub lookup_fold : Text → Header → Option (Text × List Text)
lookup_fold k [] = none
lookup_fold k ((j, vs) ∷ h) =
    let rest = lookup_fold k h in if equal_fold j k then some (j, vs) else rest

-- The entry of Surrogate-Control: under its own key first.
unfoldable pub surrogate_entry : Header → Option (Text × List Text)
unfolding lookup lookup_fold
surrogate_entry h = elim (lookup Name.surrogate_control h) [
  | some vs ↦ some (Name.surrogate_control, vs)
  | none ↦ lookup_fold Name.surrogate_control h
]

-- `CanProcess`; the flag is `requireSurrogateControl`.
unfoldable pub can_process : Bool → Header → Bool
unfolding surrogate_entry
can_process require h =
    if not require
    then true
    else elim (surrogate_entry h) [ none ↦ false | some e ↦ any (λ v. contains_esi v) e.1 ]

abbrev kept_parts : List Text → List Text
kept_parts [] = []
kept_parts (p ∷ ps) =
    let rest = kept_parts ps in
    if not (is_empty (trim_space p)) && not (contains_esi (trim_space p))
    then trim_space p ∷ rest
    else rest

-- What is left of the values without the directives for ESI.
unfoldable pub remaining : List Text → List Text
remaining [] = []
remaining (v ∷ vs) =
    let rest = remaining vs in
    if not (contains_esi v) then v ∷ rest else kept_parts (split b',' v) ++ rest

unfoldable pub delete : Text → Header → Header
delete k [] = []
delete k ((j, vs) ∷ h) = let rest = delete k h in if j ==ₜ k then rest else (j, vs) ∷ rest

-- `CleanSurrogateControl`: `delete` under the key that is found and under the name are one where the
-- keys agree.
unfoldable pub clean_surrogate_control : Header → Header
unfolding surrogate_entry remaining delete
clean_surrogate_control h = elim (surrogate_entry h) [
  | none ↦ h
  | some e ↦
      let left = remaining e.1 in
      let bare = delete Name.surrogate_control (delete e.0 h) in
      if not (any (λ v. contains_esi v) e.1)
      then h
      else if is_empty left
      then bare
      else (Name.surrogate_control, join (codes ", ") left ∷ []) ∷ bare
]

abbrev pub capability : Text
capability = codes "titip=\"ESI/1.0\""

-- `addSurrogateCapability` for the token `titip`
unfoldable pub add_surrogate_capability : Header → Header
add_surrogate_capability h =
    let existing = get h Name.surrogate_capability in
    if is_empty existing
    then set h Name.surrogate_capability capability
    else if not (contains capability existing)
    then set h Name.surrogate_capability (existing ++ (codes ", " ++ capability))
    else h

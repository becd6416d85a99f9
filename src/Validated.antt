-- ===== src/Validated.antt =====
-- Options that may be refused: config.go and esi/config.go.
use titip.Prelude.{Bool, true, false, not, Option, none, some, ◌≡◌, refl}

-- A result under a condition; `none` is an error.
abbrev pub where_valid {ℓ} : {A : Type ℓ} → Bool → A → Option A
where_valid true c = some c
where_valid false c = none

-- Nothing, or something for which `P` holds.
abbrev pub IfAny {ℓ} : {A : Type ℓ} → (A → Type 0) → Option A → Type 0
IfAny P none = Unit
IfAny P (some a) = P a

pub where_valid-IfAny {ℓ} :
    {A : Type ℓ} (P : A → Type 0) (b : Bool) (c : A) → (b ≡ true → P c) → IfAny P (where_valid b c)
where_valid-IfAny P true c v = v refl
where_valid-IfAny P false c v = tt

pub not_set : (b : Bool) → not b ≡ true → b ≡ false
not_set true e = cc
not_set false e = refl

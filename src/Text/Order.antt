-- ===== src/Text/Order.antt =====
-- The order of Go strings, by bytes, and `slices.Sort` on strings.
use mathlib.Core.List.{Permᴰ}
use titip.Prelude.{
  ◌≡◌, refl, sym, ◌∙◌, ◌⊎◌, inl, inr, Bool, true, false, List, [], ◌∷◌, arith, ltb, ◌==◌,
  if◌then◌else◌, Bool-cases,
}
use titip.Text.{Text, ◌==ₜ◌, ==ₜ_iff}

-- `a < b`
unfoldable pub before : Text → Text → Bool
before [] [] = false
before [] (c ∷ cs) = true
before (c ∷ cs) [] = false
before (c ∷ cs) (d ∷ ds) =
    let later = before cs ds in if ltb c d then true else if c == d then later else false

unfoldable pub insert : Text → List Text → List Text
insert x [] = x ∷ []
insert x (y ∷ ys) = let rest = insert x ys in if before y x then y ∷ rest else x ∷ y ∷ ys

-- `slices.Sort`
unfoldable pub sort : List Text → List Text
unfolding insert
sort [] = []
sort (x ∷ xs) = insert x (sort xs)

-- Into a sorted list with no repetition; a text that is there is not added.
unfoldable pub insert_new : Text → List Text → List Text
unfolding ◌==ₜ◌
insert_new x [] = x ∷ []
insert_new x (y ∷ ys) =
    let rest = insert_new x ys in
    if before y x then y ∷ rest else if x ==ₜ y then y ∷ ys else x ∷ y ∷ ys

pub before_irrefl : (a : Text) → before a a ≡ false
unfolding before
before_irrefl [] = refl
before_irrefl (c ∷ a) = ground (arith, before_irrefl a)

pub before_trans : (a b c : Text) → before a b ≡ true → before b c ≡ true → before a c ≡ true
unfolding before
before_trans [] [] c h k = k
before_trans (x ∷ a) [] c h k = ground arith
before_trans a (y ∷ b) [] h k = ground arith
before_trans [] (y ∷ b) (z ∷ c) h k = refl
before_trans (x ∷ a) (y ∷ b) (z ∷ c) h k = ground (arith, before_trans a b c)

pub before-cases : (a b : Text) → (before a b ≡ true) ⊎ (a ≡ b) ⊎ (before b a ≡ true)
unfolding before
before-cases [] [] = inr (inl refl)
before-cases [] (c ∷ b) = inl refl
before-cases (c ∷ a) [] = inr (inr refl)
before-cases (c ∷ a) (d ∷ b) = elim (before-cases a b) [
  | inl h ↦ ground (arith, h)
  | inr (inl e) ↦ ground (arith, e)
  | inr (inr h) ↦ ground (arith, h)
]

before-asym : (a b : Text) → before a b ≡ true → before b a ≡ false
before-asym a b h = elim (Bool-cases (before b a)) [
  | inl k ↦ ground (arith, before_trans a b a h k, before_irrefl a)
  | inr k ↦ k
]

insert_ordered :
    (x y : Text) (l : List Text) → before x y ≡ true → insert x (insert y l) ≡ insert y (insert x l)
unfolding insert
insert_ordered x y [] h = ground (arith, before-asym x y h)
insert_ordered x y (z ∷ l) h =
    ground (arith, before-asym x y h, before_trans z x y, insert_ordered x y l h)

pub insert_comm : (x y : Text) (l : List Text) → insert x (insert y l) ≡ insert y (insert x l)
insert_comm x y l = elim (before-cases x y) [
  | inl h ↦ insert_ordered x y l h
  | inr (inl e) ↦ rw e refl
  | inr (inr h) ↦ sym (insert_ordered y x l h)
]

insert_new_ordered :
    (x y : Text) (l : List Text)
    → before x y ≡ true
    → insert_new x (insert_new y l) ≡ insert_new y (insert_new x l)
unfolding insert_new
insert_new_ordered x y [] h =
    ground (arith, before-asym x y h, ==ₜ_iff x y, ==ₜ_iff y x, before_irrefl x)
insert_new_ordered x y (z ∷ l) h = ground (
  arith,
  before-asym x y h,
  before_trans z x y,
  before_irrefl x,
  before_irrefl y,
  ==ₜ_iff x y,
  ==ₜ_iff y x,
  ==ₜ_iff x z,
  ==ₜ_iff y z,
  insert_new_ordered x y l h,
)

pub insert_new_comm :
    (x y : Text) (l : List Text) → insert_new x (insert_new y l) ≡ insert_new y (insert_new x l)
insert_new_comm x y l = elim (before-cases x y) [
  | inl h ↦ insert_new_ordered x y l h
  | inr (inl e) ↦ rw e refl
  | inr (inr h) ↦ sym (insert_new_ordered y x l h)
]

-- Sorting forgets the order.
pub sort-Permᴰ : (xs ys : List Text) → Permᴰ xs ys → sort xs ≡ sort ys
unfolding sort
sort-Permᴰ _ _ Permᴰ.nil = refl
sort-Permᴰ _ _ (Permᴰ.cons {a = a} {b = b} {l₁ = l} {l₂ = m} e p) = rw (e, sort-Permᴰ l m p) refl
sort-Permᴰ _ _ (Permᴰ.swap {a = a} {b = b} {l = l} e f) =
    rw (sym e, sym f) (insert_comm a b (sort l))
sort-Permᴰ _ _ (Permᴰ.trans {l₁ = l} {l₂ = m} {l₃ = n} p q) = sort-Permᴰ l m p ∙ sort-Permᴰ m n q

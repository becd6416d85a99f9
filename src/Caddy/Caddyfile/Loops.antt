-- ===== src/Caddy/Caddyfile/Loops.antt =====
-- adapter/caddy: a loop over a block of a Caddyfile settles where its cases do.
use titip.Prelude.{
  ℕ, zero, suc, ◌≤◌, ◌<◌, ◌≡◌, inl, inr, Bool, true, Option, none, some, List, [], ◌∷◌, arith,
  Bool-cases, Option-cases, All,
}
use titip.Text.{Text, ◌==ₜ◌}
use titip.Caddy.Caddyfile.{
  Dispenser, Outcome, ended, rejected, exhausted, switch, Reads, text_arg, of_parsed, parsed_arg,
  flag_arg, list_args, go_on, block, blocks, parse_bool,
}

-- What the dispenser documents: `left` tokens are left, each token that is read is one of them, and
-- nothing adds to them.
pub record Counts {X : Type 0} (d : Dispenser X) (left : X → ℕ) : Type 0 where
  pub by_next : (x : X) → (d.next x).1 ≡ true → left (d.next x).0 < left x
  pub by_last : (x : X) → left (d.next x).0 ≤ left x
  pub by_token :
      (n : ℕ) (x : X) (t : Text)
      → (d.next_block n x).1 ≡ some t
      → left (d.next_block n x).0 < left x
  pub by_end : (n : ℕ) (x : X) → left (d.next_block n x).0 ≤ left x
  pub by_arg : (x y : X) (t : Text) → d.next_arg x ≡ some (t, y) → left y ≤ left x
  pub by_args : (x : X) → left (d.remaining_args x).1 ≤ left x
  pub by_module :
      (name raw : Text) (x y : X) → d.unmarshal_module name x ≡ some (raw, y) → left y ≤ left x

module _ {X : Type 0} (d : Dispenser X) (left : X → ℕ) (law : Counts d left) where
  -- A result with no more tokens than `n`, or an error, but not the end of the fuel.
  abbrev pub Settles : {R : Type 0} → ℕ → Outcome (R × X) → Type 0
  Settles n (ended (r, y)) = left y ≤ n
  Settles n rejected = Unit
  Settles n exhausted = ⊥

  -- What is read settles.
  abbrev pub IsSettling : {R : Type 0} → Reads d R → Type 0
  IsSettling read = (x : X) → Settles (left x) (read x)

  pub text_arg-IsSettling : {R : Type 0} (f : Text → R) → IsSettling (text_arg d f)
  text_arg-IsSettling f x = elim (Option-cases (d.next_arg x)) [
    | inl n ↦ rw (n, text_arg) tt
    | inr ((t, y), e) ↦ rw (e, text_arg) (law.by_arg x y t e)
  ]

  pub of_parsed-Settles :
      {A R : Type 0} (f : A → R) (n : ℕ) (y : X) (o : Option A)
      → left y ≤ n
      → Settles n (of_parsed d f y o)
  of_parsed-Settles f n y none h = tt
  of_parsed-Settles f n y (some a) h = h

  pub parsed_arg-IsSettling :
      {A R : Type 0} (parse : Text → Option A) (f : A → R) → IsSettling (parsed_arg d parse f)
  parsed_arg-IsSettling parse f x = elim (Option-cases (d.next_arg x)) [
    | inl n ↦ rw (n, parsed_arg) tt
    | inr ((t, y), e) ↦
        rw (e, parsed_arg) (of_parsed-Settles f (left x) y (parse t) (law.by_arg x y t e))
  ]

  pub flag_arg-IsSettling : {R : Type 0} (f : Bool → R) → IsSettling (flag_arg d f)
  flag_arg-IsSettling f x = elim (Option-cases (d.next_arg x)) [
    | inl n ↦ rw (n, flag_arg) (omega arith)
    | inr ((t, y), e) ↦
        rw (e, flag_arg) (of_parsed-Settles f (left x) y (parse_bool t) (law.by_arg x y t e))
  ]

  pub list_args-IsSettling : {R : Type 0} (f : List Text → R) → IsSettling (list_args d f)
  list_args-IsSettling f x = law.by_args x

  -- The same, where there are fewer tokens than `most`.
  abbrev pub IsBelow : {R : Type 0} → ℕ → Reads d R → Type 0
  IsBelow most read = (x : X) → left x < most → Settles (left x) (read x)

  pub All-IsBelow :
      {R : Type 0} (most : ℕ) (cases : List (Text × Reads d R))
      → All (λ c. IsSettling c.1) cases
      → All (λ c. IsBelow most c.1) cases
  All-IsBelow most [] a = tt
  All-IsBelow most (c ∷ cases) a = (λ x h. a.0 x, All-IsBelow most cases a.1)

  switch-Settles :
      {R : Type 0} (t : Text) (most : ℕ) (cases : List (Text × Reads d R)) (x : X)
      → All (λ c. IsBelow most c.1) cases
      → left x < most
      → Settles (left x) (switch t cases (λ z. rejected) x)
  unfolding switch
  switch-Settles t most [] x a h = tt
  switch-Settles t most ((k, read) ∷ cases) x a h = elim (Bool-cases (k ==ₜ t)) [
    | inl e ↦ rw e (a.0 x h)
    | inr e ↦ rw e (switch-Settles t most cases x a.1 h)
  ]

  pub weaken : {R : Type 0} (n m : ℕ) (o : Outcome (R × X)) → Settles m o → m ≤ n → Settles n o
  weaken n m (ended (r, y)) h e = omega arith
  weaken n m rejected h e = tt
  weaken n m exhausted h e = h

  go_on-Settles :
      {R : Type 0} (n m : ℕ) (k : R → Reads d R) (o : Outcome (R × X))
      → Settles m o
      → ((s : R) (z : X) → left z ≤ m → Settles (left z) (k s z))
      → m ≤ n
      → Settles n (go_on d k o)
  go_on-Settles n m k (ended (s, z)) h f e = weaken n (left z) (k s z) (f s z h) (omega arith)
  go_on-Settles n m k rejected h f e = tt
  go_on-Settles n m k exhausted h f e = h

  pub block-Settles :
      {R : Type 0} (cases : R → List (Text × Reads d R)) (nesting most f : ℕ) (r : R) (x : X)
      → ((s : R) → All (λ c. IsBelow most c.1) (cases s))
      → left x < f
      → left x < most
      → Settles (left x) (block d cases nesting f r x)
  unfolding block
  block-Settles cases nesting most zero r x a h i = elim h [ ]
  block-Settles cases nesting most (suc f) r x a h i =
      elim (Option-cases (d.next_block nesting x).1) [
        | inl e ↦ rw (e, block) (law.by_end nesting x)
        | inr (t, e) ↦
            let y = (d.next_block nesting x).0 in
            let less = law.by_token nesting x t e in
            rw (e, block)
              (go_on-Settles (left x) (left y) (block d cases nesting f)
                (switch t (cases r) (λ z. rejected) y)
                (switch-Settles t most (cases r) y (a r) (omega arith))
                (λ s z le. block-Settles cases nesting most f s z a (omega arith) (omega arith))
                (omega arith))
      ]

  pub blocks-Settles :
      {R : Type 0} (cases : R → List (Text × Reads d R)) (inner f : ℕ) (r : R) (x : X)
      → ((s : R) → All (λ c. IsBelow inner c.1) (cases s))
      → left x < f
      → left x < inner
      → Settles (left x) (blocks d cases inner f r x)
  unfolding blocks
  blocks-Settles cases inner zero r x a h i = elim h [ ]
  blocks-Settles cases inner (suc f) r x a h i = elim (Bool-cases (d.next x).1) [
    | inl e ↦
        let y = (d.next x).0 in
        let less = law.by_next x e in
        rw (e, blocks)
          (go_on-Settles (left x) (left y) (blocks d cases inner f) (block d cases 0 inner r y)
            (block-Settles cases 0 inner inner r y a (omega arith) (omega arith))
            (λ s z le. blocks-Settles cases inner f s z a (omega arith) (omega arith))
            (omega arith))
    | inr e ↦ rw (e, blocks) (law.by_last x)
  ]

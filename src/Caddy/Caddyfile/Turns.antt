-- ===== src/Caddy/Caddyfile/Turns.antt =====
-- adapter/caddy: how the loop over a block of ESI goes on behind a line.
use titip.Prelude.{
  ℕ, zero, suc, ◌^◌, ◌<◌, ◌≡◌, refl, ap, ◌∙◌, Bool, Option, none, some, List, [], ◌∷◌, ◌++◌, length,
  arith,
}
use mathlib.Core.List.{append_assoc}
use titip.Prelude.Int.{ℤ}
use titip.Text.{Text}
use titip.Text.Decimal.{itoa}
use titip.Caddy.{EsiRules}
use titip.Caddy.Caddyfile.{
  Dispenser, ended, rejected, switch, block, go_on, text_arg, parsed_arg, flag_arg, list_args,
}
use titip.Caddy.Caddyfile.Directives.{esi_cases}
use titip.Caddy.Caddyfile.Lines.{
  FitsCount, FitsDepth, Line, Presents, bool_text, count_line, count_text, depth_line, flag_line,
  list_line, parse_bool-print, text_line,
}

module _ {X : Type 0} (d : Dispenser X) (on : List Text → List Line → X) (after : X)
    (law : Presents d on after) where
  -- The block goes on behind the lines `seg` with `s`, on what fuel is left.
  abbrev pub Turns : EsiRules → List Line → EsiRules → Type 0
  Turns r seg s =
      (ls : List Line) (f : ℕ)
      → length (seg ++ ls) < f
      → (g : ℕ) × (length ls < g)
        × (block d (esi_cases d) 1 f r (on [] (seg ++ ls)) ≡ block d (esi_cases d) 1 g s (on [] ls))

  pub text_reads :
      (f : Text → EsiRules) (t : Text) (ls : List Line)
      → text_arg d f (on (t ∷ []) ls) ≡ ended (f t, on [] ls)
  text_reads f t ls = rw (law.arg_some t [] ls, text_arg) refl

  pub list_reads :
      (f : List Text → EsiRules) (ts : List Text) (ls : List Line)
      → list_args d f (on ts ls) ≡ ended (f ts, on [] ls)
  list_reads f ts ls = rw (law.args ts ls, list_args) refl

  pub parsed_reads :
      {A : Type 0} (parse : Text → Option A) (f : A → EsiRules) (t : Text) (a : A) (ls : List Line)
      → parse t ≡ some a
      → parsed_arg d parse f (on (t ∷ []) ls) ≡ ended (f a, on [] ls)
  parsed_reads parse f t a ls e = rw (law.arg_some t [] ls, e, parsed_arg) refl

  pub flag_reads :
      (f : Bool → EsiRules) (b : Bool) (ls : List Line)
      → flag_arg d f (on (bool_text b ∷ []) ls) ≡ ended (f b, on [] ls)
  flag_reads f b ls = rw (law.arg_some (bool_text b) [] ls, parse_bool-print b, flag_arg) refl

  pub Turns-nil : (r : EsiRules) → Turns r [] r
  Turns-nil r ls f h = (f, h, refl)

  pub Turns-append :
      (r s t : EsiRules) (a b : List Line) → Turns r a s → Turns s b t → Turns r (a ++ b) t
  Turns-append r s t a b x y ls f h =
      let (g, less, e) = x (b ++ ls) f (rw (append_assoc a b ls) at h) in
      let (k, less', e') = y ls g less in (k, less', rw (append_assoc a b ls) (e ∙ e'))

  pub Turns-line :
      (r s : EsiRules) (name : Text) (ts : List Text)
      → ((ls : List Line)
          → switch name (esi_cases d r) (λ z. rejected) (on ts ls) ≡ ended (s, on [] ls))
      → Turns r ((name, ts) ∷ []) s
  unfolding block
  Turns-line r s name ts reads ls zero h = elim h [ ]
  Turns-line r s name ts reads ls (suc f) h = (
    f,
    omega arith,
    rw (law.opens name ts ls, law.opens_at name ts ls, block)
        (ap (go_on d (block d (esi_cases d) 1 f)) (reads ls)),
  )

  pub flag-Turns :
      (name : Text) (v : Option Bool) (r : Option Bool → EsiRules)
      → ((b : Bool) (ls : List Line)
          → switch name (esi_cases d (r none)) (λ z. rejected) (on (bool_text b ∷ []) ls)
            ≡ ended (r (some b), on [] ls))
      → Turns (r none) (flag_line name v) (r v)
  flag-Turns name none r reads = Turns-nil (r none)
  flag-Turns name (some b) r reads =
      Turns-line (r none) (r (some b)) name (bool_text b ∷ []) (reads b)

  pub depth-Turns :
      (name : Text) (v : Option ℕ) (r : Option ℕ → EsiRules)
      → ((n : ℕ) (ls : List Line)
          → n < 2 ^ 32
          → switch name (esi_cases d (r none)) (λ z. rejected) (on (itoa n ∷ []) ls)
            ≡ ended (r (some n), on [] ls))
      → FitsDepth v
      → Turns (r none) (depth_line name v) (r v)
  depth-Turns name none r reads h = Turns-nil (r none)
  depth-Turns name (some n) r reads h =
      Turns-line (r none) (r (some n)) name (itoa n ∷ []) (λ ls. reads n ls h)

  pub count-Turns :
      (name : Text) (v : Option ℤ) (r : Option ℤ → EsiRules)
      → ((n : ℤ) (ls : List Line)
          → FitsCount (some n)
          → switch name (esi_cases d (r none)) (λ z. rejected) (on (count_text n ∷ []) ls)
            ≡ ended (r (some n), on [] ls))
      → FitsCount v
      → Turns (r none) (count_line name v) (r v)
  count-Turns name none r reads h = Turns-nil (r none)
  count-Turns name (some n) r reads h =
      Turns-line (r none) (r (some n)) name (count_text n ∷ []) (λ ls. reads n ls h)

  pub text-Turns :
      (name : Text) (v : Text) (r : Text → EsiRules)
      → ((t : Text) (ls : List Line)
          → switch name (esi_cases d (r [])) (λ z. rejected) (on (t ∷ []) ls)
            ≡ ended (r t, on [] ls))
      → Turns (r []) (text_line name v) (r v)
  text-Turns name [] r reads = Turns-nil (r [])
  text-Turns name (c ∷ t) r reads =
      Turns-line (r []) (r (c ∷ t)) name ((c ∷ t) ∷ []) (reads (c ∷ t))

  pub list-Turns :
      (name : Text) (v : List Text) (r : List Text → EsiRules)
      → ((ts : List Text) (ls : List Line)
          → switch name (esi_cases d (r [])) (λ z. rejected) (on ts ls) ≡ ended (r ts, on [] ls))
      → Turns (r []) (list_line name v) (r v)
  list-Turns name [] r reads = Turns-nil (r [])
  list-Turns name (t ∷ ts) r reads = Turns-line (r []) (r (t ∷ ts)) name (t ∷ ts) (reads (t ∷ ts))

-- ===== src/Esi/Scanner/Bounds.antt =====
-- The order and the bounds of the fragments that `Scan` of esi/scanner.go returns.
use titip.Prelude.{
  ℕ, zero, suc, ◌+◌, ◌-◌, ◌≤◌, ◌<◌, ◌≡◌, refl, sym, ◌∙◌, true, false, Option, some, List, [], ◌∷◌,
  ◌++◌, map, ◌⊎◌, inl, inr, arith, length, drop, length-drop, length-take, Option-cases, Bool-cases,
}
use titip.Prelude.Int.{ℤ}
use titip.Text.{Text, index_byte, index_byte-bound}
use titip.Esi.Fragment.{Fragment, strip, IsFragment, Ordered}
use titip.Esi.Tag.{Result, ok, err, out_of_range, ◌>>=◌, Step, emit, nested, fault, slice, scan_tag}
use titip.Esi.Tag.Bounds.{scan_tag-IsStep}
use titip.Esi.Scanner.{shift, unwrapped, may_hold, prepend, scan_loop, scan}

Ordered-append :
    (lo mid hi : ℕ) (fs gs : List Fragment)
    → Ordered lo mid fs
    → Ordered mid hi gs
    → Ordered lo hi (fs ++ gs)
Ordered-append lo mid hi [] [] p q = omega arith
Ordered-append lo mid hi [] (g ∷ gs) p q = (omega arith, q.1, q.2)
Ordered-append lo mid hi (f ∷ fs) gs p q = (p.0, p.1, Ordered-append f.end_pos mid hi fs gs p.2 q)

Ordered-lower :
    (lo lo' hi : ℕ) (fs : List Fragment) → lo' ≤ lo → Ordered lo hi fs → Ordered lo' hi fs
Ordered-lower lo lo' hi [] h p = omega arith
Ordered-lower lo lo' hi (f ∷ fs) h p = (omega arith, p.1, p.2)

shift-IsFragment : (k : ℕ) (f : Fragment) → IsFragment f → IsFragment (shift k f)
unfolding shift
shift-IsFragment k f h = ground arith

Ordered-shift :
    (k lo hi lo' hi' : ℕ) (fs : List Fragment)
    → lo' ≤ lo + k
    → hi + k ≤ hi'
    → Ordered lo hi fs
    → Ordered lo' hi' (map (shift k) fs)
unfolding shift
Ordered-shift k lo hi lo' hi' [] a b p = omega arith
Ordered-shift k lo hi lo' hi' (f ∷ fs) a b p = (
  omega arith,
  shift-IsFragment k f p.1,
  Ordered-shift k f.end_pos hi (f.end_pos + k) hi' fs (omega arith) b p.2,
)

pub Step-cases :
    (s : Step)
    → ((fs : List Fragment) × (next : ℕ) × (s ≡ emit fs next))
      ⊎ ((start : ℕ) × (content : ℕ) × (close : ℕ) × (s ≡ nested start content close))
      ⊎ (s ≡ fault)
Step-cases (emit fs next) = inl (fs, next, refl)
Step-cases (nested start content close) = inr (inl (start, content, close, refl))
Step-cases fault = inr (inr refl)

pub length-slice :
    (b : Text) (from to : ℕ) → from ≤ to → to ≤ length b → length (slice b from to) ≡ to - from
length-slice b from to p q =
    omega (arith, length-take {0} (to - from) (drop from b), length-drop {0} from b)

prepend-eq-ok :
    (fs : List Fragment) (r : Result (List Fragment)) (out : List Fragment)
    → prepend fs r ≡ ok out
    → (gs : List Fragment) × (r ≡ ok gs) × (out ≡ fs ++ gs)
prepend-eq-ok fs (ok gs) out h = (gs, refl, cc)
prepend-eq-ok fs (err e) out h = cc

-- One comment of the form `<!--esi … -->`, with the fragments of its inside.
Ordered-comment :
    (lo start content close hi : ℕ) (inner rest : List Fragment)
    → lo ≤ start
    → start ≤ content
    → content ≤ close
    → Ordered 0 (close - content) inner
    → Ordered (close + 3) hi rest
    → Ordered lo hi (unwrapped start content close inner ++ rest)
Ordered-comment lo start content close hi inner rest p q r i t = (
  p,
  omega arith,
  Ordered-append content (close + 3) hi
      (map (shift content) inner ++ (strip close (close + 3) ∷ [])) rest
      (Ordered-append content close (close + 3) (map (shift content) inner)
        (strip close (close + 3) ∷ [])
        (Ordered-shift content 0 (close - content) content close inner (omega arith) (omega arith)
          i)
        (omega arith))
      t,
)

module _ (pd : Text → Option ℤ) where
  -- The fragments of one round and of the rounds behind it.
  Ordered-prepend :
      (lo mid hi : ℕ) (fs : List Fragment) (r : Result (List Fragment)) (out : List Fragment)
      → Ordered lo mid fs
      → ((gs : List Fragment) → r ≡ ok gs → Ordered mid hi gs)
      → prepend fs r ≡ ok out
      → Ordered lo hi out
  Ordered-prepend lo mid hi fs r out p q h =
      let (gs, e, shape) = prepend-eq-ok fs r out h in
      rw shape (Ordered-append lo mid hi fs gs p (q gs e))

  -- The scan of an inner block, as `Scan` calls itself.
  abbrev pub inner_scan : ℕ → Text → Result (List Fragment)
  inner_scan f b = elim (may_hold b) [ true ↦ scan_loop pd f b 0 | false ↦ ok [] ]

  module _ (f : ℕ) (b : Text) (at n : ℕ) (open_at : index_byte b'<' (drop at b) ≡ some n) where
    pub scan_loop_emit :
        (fs : List Fragment) (next : ℕ)
        → scan_tag pd b (at + n) ≡ emit fs next
        → scan_loop pd (suc f) b at ≡ prepend fs (scan_loop pd f b next)
    unfolding scan_loop
    scan_loop_emit fs next s = rw (open_at, s, scan_loop)

    pub scan_loop_fault :
        scan_tag pd b (at + n) ≡ fault → scan_loop pd (suc f) b at ≡ err out_of_range
    unfolding scan_loop
    scan_loop_fault s = rw (open_at, s, scan_loop)

    pub scan_loop_nested :
        (start content close : ℕ)
        → scan_tag pd b (at + n) ≡ nested start content close
        → scan_loop pd (suc f) b at ≡ (
            inner_scan f (slice b content close) >>= λ inner.
            prepend (unwrapped start content close inner) (scan_loop pd f b (close + 3)))
    unfolding scan_loop
    scan_loop_nested start content close s = rw (open_at, s, scan_loop)

  >>=-eq-ok :
      (r : Result (List Fragment)) (k : List Fragment → Result (List Fragment))
      (out : List Fragment)
      → (r >>= k) ≡ ok out
      → (inner : List Fragment) × (r ≡ ok inner) × (k inner ≡ ok out)
  >>=-eq-ok (ok inner) k out h = (inner, refl, h)
  >>=-eq-ok (err e) k out h = cc

  -- The inner scan, by the theorem for the loop with less fuel.
  inner_scan-Ordered :
      (f : ℕ) (b : Text) (out : List Fragment)
      → ((out : List Fragment) → scan_loop pd f b 0 ≡ ok out → Ordered 0 (length b) out)
      → inner_scan f b ≡ ok out
      → Ordered 0 (length b) out
  inner_scan-Ordered f b out loop h = elim (Bool-cases (may_hold b)) [
    | inl e ↦ loop out (rw (e, inner_scan) at h)
    | inr e ↦ ground (arith, e)
  ]

  scan_loop-Ordered :
      (f : ℕ) (b : Text) (at : ℕ) (out : List Fragment)
      → at ≤ length b
      → scan_loop pd f b at ≡ ok out
      → Ordered at (length b) out
  scan_loop-Ordered zero b at out bound h = unfold scan_loop in cc
  scan_loop-Ordered (suc f) b at out bound h = elim (Option-cases (index_byte b'<' (drop at b))) [
    | inl e ↦ unfold scan_loop in ground (arith, e)
    | inr (n, e) ↦
        let inside : at + n < length b =
          omega (arith, index_byte-bound b'<' (drop at b) n e, length-drop {0} at b) in
        elim (Step-cases (scan_tag pd b (at + n))) [
          | inl (fs, next, s) ↦
              let (low, high, ordered) = rw s at (scan_tag-IsStep pd b (at + n) inside) in
              Ordered-prepend at next (length b) fs (scan_loop pd f b next) out
                (Ordered-lower (at + n) at next fs (omega arith) ordered)
                (λ gs. scan_loop-Ordered f b next gs high)
                (sym (scan_loop_emit f b at n e fs next s) ∙ h)
          | inr (inl (start, content, close, s)) ↦
              let (low, mid, high, fits) = rw s at (scan_tag-IsStep pd b (at + n) inside) in
              let block = slice b content close in
              let (inner, scanned, rest) =
                >>=-eq-ok (inner_scan f block) _ out
                  (sym (scan_loop_nested f b at n e start content close s) ∙ h) in
              let (gs, later, shape) =
                prepend-eq-ok (unwrapped start content close inner) (scan_loop pd f b (close + 3))
                  out rest in
              rw shape (
                Ordered-comment at start content close (length b) inner gs (omega arith)
                  (omega arith) high
                  (rw (length-slice b content close high (omega arith)) at (
                    inner_scan-Ordered f block inner
                      (λ o. scan_loop-Ordered f block 0 o (omega arith)) scanned))
                  (scan_loop-Ordered f b (close + 3) gs fits later))
          | inr (inr s) ↦ cc (scan_loop_fault f b at n e s)
        ]
  ]

  -- The fragments that `Scan` returns lie in the document, each with its end behind its start and
  -- its inner block inside it, in the order of the document and without overlap.
  pub scan-Ordered :
      (b : Text) (out : List Fragment) → scan pd b ≡ ok out → Ordered 0 (length b) out
  unfolding scan
  scan-Ordered b out h = elim (Bool-cases (may_hold b)) [
    | inl e ↦ scan_loop-Ordered (suc (length b)) b 0 out (omega arith) (rw e at h)
    | inr e ↦ ground (arith, e)
  ]

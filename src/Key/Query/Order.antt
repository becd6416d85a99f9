-- ===== src/Key/Query/Order.antt =====
-- cache_key.go: the order of the parameters in a query.
use mathlib.Core.List.Permᴰ
use mathlib.Core.List.{Permᴰ}
use titip.Prelude.{
  ◌≡◌, refl, sym, ◌∙◌, Bool, true, false, ◌&&◌, Option, none, some, List, [], ◌∷◌, if◌then◌else◌,
  Bool-cases, inl, inr,
}
use titip.Text.{Text, codes, ◌==ₜ◌, split, contains}
use titip.Text.Order.{sort-Permᴰ, insert_new_comm}
use titip.Http.{is_empty}
use titip.Key.{CacheKey}
use titip.Key.Escape.{query_unescape}
use titip.Key.Query.{
  Pair, cut, pair_onto, parse_parts, keys_of, kept_values, is_query_param_allowed, sorted_pairs,
  sorted_query, build_sorted_query_string,
}

keys_of-Permᴰ : (ps qs : List Pair) → Permᴰ ps qs → keys_of ps ≡ keys_of qs
unfolding keys_of
keys_of-Permᴰ _ _ Permᴰ.nil = refl
keys_of-Permᴰ _ _ (Permᴰ.cons {a = a} {b = b} {l₁ = l} {l₂ = m} e p) =
    rw (e, keys_of-Permᴰ l m p) refl
keys_of-Permᴰ _ _ (Permᴰ.swap {a = a} {b = b} {l = l} e f) =
    rw (sym e, sym f) (insert_new_comm a.0 b.0 (keys_of l))
keys_of-Permᴰ _ _ (Permᴰ.trans {l₁ = l} {l₂ = m} {l₃ = n} p q) =
    keys_of-Permᴰ l m p ∙ keys_of-Permᴰ m n q

abbrev keep : Bool → Text → List Text → List Text
keep b v vs = if b then v ∷ vs else vs

keep-Permᴰ :
    (b : Bool) (v : Text) (vs ws : List Text) → Permᴰ vs ws → Permᴰ (keep b v vs) (keep b v ws)
keep-Permᴰ true v vs ws p = Permᴰ.cons refl p
keep-Permᴰ false v vs ws p = p

keep_swap :
    (b c : Bool) (v w : Text) (vs : List Text)
    → Permᴰ (keep b v (keep c w vs)) (keep c w (keep b v vs))
keep_swap true true v w vs = Permᴰ.swap refl refl
keep_swap true false v w vs = Permᴰ.refl (v ∷ vs)
keep_swap false true v w vs = Permᴰ.refl (w ∷ vs)
keep_swap false false v w vs = Permᴰ.refl vs

-- The value of a pair in front of the others, where the pair is kept.
kept_values-Permᴰ :
    (cfg : CacheKey) (k : Text) (ps qs : List Pair)
    → Permᴰ ps qs
    → Permᴰ (kept_values cfg k ps) (kept_values cfg k qs)
unfolding kept_values
kept_values-Permᴰ cfg k _ _ Permᴰ.nil = Permᴰ.nil
kept_values-Permᴰ cfg k _ _ (Permᴰ.cons {a = a} {b = b} {l₁ = l} {l₂ = m} e p) = rw (sym e) (
    keep-Permᴰ (k ==ₜ a.0 && is_query_param_allowed cfg k a.1) a.1 (kept_values cfg k l)
      (kept_values cfg k m) (kept_values-Permᴰ cfg k l m p))
kept_values-Permᴰ cfg k _ _ (Permᴰ.swap {a = a} {b = b} {l = l} e f) =
    rw (sym e, sym f)
      (keep_swap (k ==ₜ a.0 && is_query_param_allowed cfg k a.1)
        (k ==ₜ b.0 && is_query_param_allowed cfg k b.1) a.1 b.1 (kept_values cfg k l))
kept_values-Permᴰ cfg k _ _ (Permᴰ.trans {l₁ = l} {l₂ = m} {l₃ = n} p q) =
    Permᴰ.trans (kept_values-Permᴰ cfg k l m p) (kept_values-Permᴰ cfg k m n q)

sorted_pairs-Permᴰ :
    (cfg : CacheKey) (ks : List Text) (ps qs : List Pair)
    → Permᴰ ps qs
    → sorted_pairs cfg ks ps ≡ sorted_pairs cfg ks qs
unfolding sorted_pairs
sorted_pairs-Permᴰ cfg [] ps qs p = refl
sorted_pairs-Permᴰ cfg (k ∷ ks) ps qs p =
    rw
      (
        sort-Permᴰ (kept_values cfg k ps) (kept_values cfg k qs) (kept_values-Permᴰ cfg k ps qs p),
        sorted_pairs-Permᴰ cfg ks ps qs p,
      )
      refl

-- Two results of `ParseQuery`: both fail, or their pairs are the same but for the order.
abbrev SamePairs : Option (List Pair) → Option (List Pair) → Type 0
SamePairs none none = Unit
SamePairs none (some qs) = ⊥
SamePairs (some ps) none = ⊥
SamePairs (some ps) (some qs) = Permᴰ ps qs

sorted_query-SamePairs :
    (cfg : CacheKey) (r s : Option (List Pair))
    → SamePairs r s
    → sorted_query cfg r ≡ sorted_query cfg s
sorted_query-SamePairs cfg none none h = refl
sorted_query-SamePairs cfg none (some qs) h = absurd h
sorted_query-SamePairs cfg (some ps) none h = absurd h
sorted_query-SamePairs cfg (some ps) (some qs) h =
    rw (keys_of-Permᴰ ps qs h, sorted_pairs-Permᴰ cfg (keys_of qs) ps qs h) refl

SamePairs-trans : (r s t : Option (List Pair)) → SamePairs r s → SamePairs s t → SamePairs r t
SamePairs-trans none none none h k = tt
SamePairs-trans none none (some ps) h k = k
SamePairs-trans none (some ps) t h k = absurd h
SamePairs-trans (some ps) none t h k = absurd h
SamePairs-trans (some ps) (some qs) none h k = absurd k
SamePairs-trans (some ps) (some qs) (some rs) h k = Permᴰ.trans h k

-- What one part adds to the result of the rest: an error, nothing, or a pair.
abbrev part_onto : Text → Option (List Pair) → Option (List Pair)
part_onto p rest =
    if contains (codes ";") p
    then none
    else if is_empty p
    then rest
    else pair_onto (query_unescape (cut p).0) (query_unescape (cut p).1) rest

pair_onto-SamePairs :
    (k v : Option Text) (r s : Option (List Pair))
    → SamePairs r s
    → SamePairs (pair_onto k v r) (pair_onto k v s)
pair_onto-SamePairs none v r s h = tt
pair_onto-SamePairs (some k) none r s h = tt
pair_onto-SamePairs (some k) (some v) none none h = tt
pair_onto-SamePairs (some k) (some v) none (some qs) h = h
pair_onto-SamePairs (some k) (some v) (some ps) none h = h
pair_onto-SamePairs (some k) (some v) (some ps) (some qs) h = Permᴰ.cons refl h

part_onto-SamePairs :
    (p : Text) (r s : Option (List Pair))
    → SamePairs r s
    → SamePairs (part_onto p r) (part_onto p s)
part_onto-SamePairs p r s h = elim (Bool-cases (contains (codes ";") p)) [
  | inl e ↦ rw e tt
  | inr e ↦ elim (Bool-cases (is_empty p)) [
    | inl k ↦ rw (e, k) h
    | inr k ↦
        rw (e, k) (pair_onto-SamePairs (query_unescape (cut p).0) (query_unescape (cut p).1) r s h)
  ]
]

SamePairs-refl : (r : Option (List Pair)) → SamePairs r r
SamePairs-refl none = tt
SamePairs-refl (some ps) = Permᴰ.refl ps

pair_onto_swap :
    (k v j w : Option Text) (r : Option (List Pair))
    → SamePairs (pair_onto k v (pair_onto j w r)) (pair_onto j w (pair_onto k v r))
pair_onto_swap (some k) (some v) (some j) (some w) (some ps) = Permᴰ.swap refl refl
pair_onto_swap (some k) (some v) (some j) (some w) none = tt
pair_onto_swap (some k) (some v) (some j) none r = tt
pair_onto_swap (some k) (some v) none w r = tt
pair_onto_swap (some k) none (some j) (some w) r = tt
pair_onto_swap (some k) none (some j) none r = tt
pair_onto_swap (some k) none none w r = tt
pair_onto_swap none v (some j) (some w) r = tt
pair_onto_swap none v (some j) none r = tt
pair_onto_swap none v none w r = tt

pair_onto-none : (k v : Option Text) → pair_onto k v none ≡ none
pair_onto-none (some k) (some v) = refl
pair_onto-none (some k) none = refl
pair_onto-none none v = refl

-- A part by its two tests, and what it decodes to.
abbrev decided : Bool → Bool → Option Text → Option Text → Option (List Pair) → Option (List Pair)
decided bad nothing k v rest = if bad then none else if nothing then rest else pair_onto k v rest

decided_swap :
    (b e : Bool) (k v : Option Text) (c d : Bool) (j w : Option Text) (r : Option (List Pair))
    → SamePairs (decided b e k v (decided c d j w r)) (decided c d j w (decided b e k v r))
decided_swap true e k v true d j w r = tt
decided_swap true e k v false true j w r = tt
decided_swap true e k v false false j w r = rw (pair_onto-none j w) tt
decided_swap false true k v c d j w r = SamePairs-refl (decided c d j w r)
decided_swap false false k v true d j w r = rw (pair_onto-none k v) tt
decided_swap false false k v false true j w r = SamePairs-refl (pair_onto k v r)
decided_swap false false k v false false j w r = pair_onto_swap k v j w r

part_onto_swap :
    (p q : Text) (r : Option (List Pair))
    → SamePairs (part_onto p (part_onto q r)) (part_onto q (part_onto p r))
part_onto_swap p q r =
    decided_swap (contains (codes ";") p) (is_empty p) (query_unescape (cut p).0)
      (query_unescape (cut p).1) (contains (codes ";") q) (is_empty q) (query_unescape (cut q).0)
      (query_unescape (cut q).1) r

parse_parts-Permᴰ : (ps qs : List Text) → Permᴰ ps qs → SamePairs (parse_parts ps) (parse_parts qs)
unfolding parse_parts
parse_parts-Permᴰ _ _ Permᴰ.nil = Permᴰ.nil
parse_parts-Permᴰ _ _ (Permᴰ.cons {a = a} {b = b} {l₁ = l} {l₂ = m} e p) =
    rw (sym e) (part_onto-SamePairs a (parse_parts l) (parse_parts m) (parse_parts-Permᴰ l m p))
parse_parts-Permᴰ _ _ (Permᴰ.swap {a = a} {b = b} {l = l} e f) =
    rw (sym e, sym f) (part_onto_swap a b (parse_parts l))
parse_parts-Permᴰ _ _ (Permᴰ.trans {l₁ = l} {l₂ = m} {l₃ = n} p q) =
    SamePairs-trans (parse_parts l) (parse_parts m) (parse_parts n) (parse_parts-Permᴰ l m p)
      (parse_parts-Permᴰ m n q)

-- The query of a key does not depend on the order of the parameters in the URL, those of one name
-- included, under every configuration.
pub build_sorted_query_string-Permᴰ :
    (cfg : CacheKey) (raw raw' : Text)
    → Permᴰ (split b'&' raw) (split b'&' raw')
    → build_sorted_query_string cfg raw ≡ build_sorted_query_string cfg raw'
unfolding build_sorted_query_string
build_sorted_query_string-Permᴰ cfg raw raw' p =
    sorted_query-SamePairs cfg (parse_parts (split b'&' raw)) (parse_parts (split b'&' raw'))
      (parse_parts-Permᴰ (split b'&' raw) (split b'&' raw') p)

-- ===== src/Http/Laws.antt =====
-- How reads of a header map see its writes.
use titip.Prelude.{◌≡◌, refl, List, [], ◌∷◌, ◌++◌, arith, if◌then◌else◌}
use titip.Text.{Text, ◌==ₜ◌, ==ₜ_iff}
use titip.Http.{Header, find_key, put_key, drop_key, canonical_header_key, values, set, add, del}

find_key-put_key :
    (j k : Text) (vs : List Text) (h : Header)
    → find_key j (put_key k vs h) ≡ (if k ==ₜ j then vs else find_key j h)
unfolding find_key put_key
find_key-put_key j k vs [] = refl
find_key-put_key j k vs ((i, ws) ∷ h) =
    ground (arith, ==ₜ_iff k j, ==ₜ_iff i k, ==ₜ_iff i j, find_key-put_key j k vs h)

find_key-drop_key :
    (j k : Text) (h : Header) → find_key j (drop_key k h) ≡ (if k ==ₜ j then [] else find_key j h)
unfolding find_key drop_key
find_key-drop_key j k [] = ground arith
find_key-drop_key j k ((i, ws) ∷ h) =
    ground (arith, ==ₜ_iff k j, ==ₜ_iff i k, ==ₜ_iff i j, find_key-drop_key j k h)

module _ (h : Header) (key other : Text) where
  pub values-set :
      (v : Text)
      → values (set h key v) other ≡ (
          if canonical_header_key key ==ₜ canonical_header_key other
          then v ∷ []
          else values h other)
  unfolding values set
  values-set v = find_key-put_key (canonical_header_key other) (canonical_header_key key) (v ∷ []) h

  pub values-add :
      (v : Text)
      → values (add h key v) other ≡ (
          if canonical_header_key key ==ₜ canonical_header_key other
          then values h key ++ (v ∷ [])
          else values h other)
  unfolding values add
  values-add v =
      find_key-put_key (canonical_header_key other) (canonical_header_key key)
        (values h key ++ (v ∷ [])) h

  pub values-del :
      values (del h key) other
      ≡ (if canonical_header_key key ==ₜ canonical_header_key other then [] else values h other)
  unfolding values del
  values-del = find_key-drop_key (canonical_header_key other) (canonical_header_key key) h

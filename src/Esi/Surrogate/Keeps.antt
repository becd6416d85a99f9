-- ===== src/Esi/Surrogate/Keeps.antt =====
-- esi/processor.go: CleanSurrogateControl leaves the other fields alone.
use titip.Prelude.{
  ◌≡◌, refl, subst, ◌∙◌, inl, inr, true, false, some, List, [], ◌∷◌, any, arith, Bool-cases,
  Option-cases,
}
use titip.Text.{Text, ◌==ₜ◌, ==ₜ_iff, equal_fold, to_lower}
use titip.Http.{Header, values, find_key, is_empty, canonical_header_key}
use titip.Http.Name
use titip.Esi.Surrogate.{
  surrogate_entry, lookup, lookup_fold, delete, remaining, contains_esi, clean_surrogate_control,
}

-- No key but one that is Surrogate-Control, whatever its case, is deleted.
find_key-delete :
    (j k : Text) (h : Header) → (j ==ₜ k) ≡ false → find_key k (delete j h) ≡ find_key k h
unfolding find_key delete
find_key-delete j k [] d = refl
find_key-delete j k ((i, vs) ∷ h) d =
    ground (arith, ==ₜ_iff i j, ==ₜ_iff i k, ==ₜ_iff j k, find_key-delete j k h d)

lookup_fold-folds :
    (k : Text) (h : Header) (e : Text × List Text)
    → lookup_fold k h ≡ some e
    → equal_fold e.0 k ≡ true
unfolding lookup_fold
lookup_fold-folds k [] e s = cc
lookup_fold-folds k ((j, vs) ∷ h) e s = elim (Bool-cases (equal_fold j k)) [
  | inl f ↦ ground (arith, f)
  | inr f ↦ lookup_fold-folds k h e (ground (arith, f))
]

values-delete :
    (j other : Text) (h : Header)
    → (j ==ₜ canonical_header_key other) ≡ false
    → values (delete j h) other ≡ values h other
unfolding values
values-delete j other h d = find_key-delete j (canonical_header_key other) h d

surrogate_entry-folds :
    (h : Header) (e : Text × List Text)
    → surrogate_entry h ≡ some e
    → equal_fold e.0 Name.surrogate_control ≡ true
unfolding surrogate_entry equal_fold to_lower ◌==ₜ◌
surrogate_entry-folds h e s = elim (Option-cases (lookup Name.surrogate_control h)) [
  | inl n ↦ lookup_fold-folds Name.surrogate_control h e (ground (arith, n))
  | inr (vs, n) ↦ ground (arith, n)
]

name_folds : equal_fold Name.surrogate_control Name.surrogate_control ≡ true
unfolding equal_fold to_lower ◌==ₜ◌
name_folds = refl

values-prepended :
    (j : Text) (vs : List Text) (h : Header) (other : Text)
    → (j ==ₜ canonical_header_key other) ≡ false
    → values ((j, vs) ∷ h) other ≡ values h other
unfolding values find_key
values-prepended j vs h other d = rw d refl

module _ (other : Text)
    (fold : equal_fold (canonical_header_key other) Name.surrogate_control ≡ false) where
  distinct :
      (j : Text)
      → equal_fold j Name.surrogate_control ≡ true
      → (j ==ₜ canonical_header_key other) ≡ false
  distinct j f = elim (Bool-cases (j ==ₜ canonical_header_key other)) [
    | inr e ↦ e
    | inl e ↦ cc (
        subst (λ u. equal_fold u Name.surrogate_control ≡ true)
          ((==ₜ_iff j (canonical_header_key other)).0 e) f)
  ]

  values-bare :
      (h : Header) (e : Text × List Text)
      → surrogate_entry h ≡ some e
      → values (delete Name.surrogate_control (delete e.0 h)) other ≡ values h other
  values-bare h e s =
      values-delete Name.surrogate_control other (delete e.0 h)
        (distinct Name.surrogate_control name_folds)
      ∙ values-delete e.0 other h (distinct e.0 (surrogate_entry-folds h e s))

  pub values-clean : (h : Header) → values (clean_surrogate_control h) other ≡ values h other
  unfolding clean_surrogate_control
  values-clean h = elim (Option-cases (surrogate_entry h)) [
    | inl n ↦ rw (n, clean_surrogate_control) refl
    | inr (e, n) ↦ elim (Bool-cases (any (λ v. contains_esi v) e.1)) [
      | inr c ↦ rw (n, clean_surrogate_control, c) refl
      | inl c ↦ elim (Bool-cases (is_empty (remaining e.1))) [
        | inl r ↦ rw (n, clean_surrogate_control, c, r) (values-bare h e n)
        | inr r ↦
            rw (n, clean_surrogate_control, c, r)
              (values-prepended Name.surrogate_control _ _ other
                  (distinct Name.surrogate_control name_folds)
                ∙ values-bare h e n)
      ]
    ]
  ]

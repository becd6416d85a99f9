-- ===== src/Precondition/Rules.antt =====
-- handler.go: the order of the conditional headers (RFC 9110 §13.2.2), as relations on the request.
use mathlib.Core.Bool.{false≢true}
use titip.Prelude.{
  ℕ, ◌+◌, ◌/◌, ◌<◌, ◌≤◌, ◌≡◌, ◌≢◌, ◌↔◌, ◌⊎◌, inl, inr, refl, Bool, true, false, not, some, List, [],
  ◌∷◌, arith, any, Option-cases, Bool-cases,
}
use titip.Prelude.Int.{ℤ, pos, pos_part, ◌≤ℤ◌}
use titip.Text.{Text, codes, ◌==ₜ◌, ==ₜ_iff, trim_space, split}
use titip.Http.{Header, get, is_empty}
use titip.Http.Name
use titip.Freshness.{Instant, Parsers, parse_date, second}
use titip.Precondition.{
  strong_etag_matches, weak_etag_matches, unix_epoch, modified_after, date_test, precondition_fails,
  not_modified, evaluate_preconditions,
}

-- Every, and some, of the tags in a list.
abbrev pub Every : (Text → Type 0) → List Text → Type 0
Every P [] = Unit
Every P (t ∷ ts) = P t × Every P ts

abbrev pub Some : (Text → Type 0) → List Text → Type 0
Some P [] = ⊥
Some P (t ∷ ts) = P t ⊎ Some P ts

any-true : (f : Text → Bool) (ts : List Text) → any f ts ≡ true → Some (λ t. f t ≡ true) ts
any-true f [] h = elim (false≢true h) [ ]
any-true f (t ∷ ts) h = elim (Bool-cases (f t)) [
  | inl e ↦ inl e
  | inr e ↦ inr (any-true f ts (ground (arith, e)))
]

any_of_Some : (f : Text → Bool) (ts : List Text) → Some (λ t. f t ≡ true) ts → any f ts ≡ true
any_of_Some f [] h = absurd h
any_of_Some f (t ∷ ts) (inl e) = ground (arith, e)
any_of_Some f (t ∷ ts) (inr r) = ground (arith, any_of_Some f ts r)

any-false : (f : Text → Bool) (ts : List Text) → any f ts ≡ false → Every (λ t. f t ≡ false) ts
any-false f [] h = tt
any-false f (t ∷ ts) h = (ground arith, any-false f ts (ground arith))

any_of_Every : (f : Text → Bool) (ts : List Text) → Every (λ t. f t ≡ false) ts → any f ts ≡ false
any_of_Every f [] h = refl
any_of_Every f (t ∷ ts) (e, r) = ground (arith, e, any_of_Every f ts r)

module _ (p : Parsers) (request : Header) (etag : Text) (last_modified : ℤ) where
  -- The header holds a date that counts: one that is read, and the modification time is known.
  abbrev pub HasDate : Text → Instant → Type 0
  HasDate header client =
      (header ≢ []) × (pos 1 ≤ℤ last_modified) × (parse_date p header ≡ some client) × (0 < client)

  abbrev pub stored_second : ℕ
  stored_second = (unix_epoch + pos_part last_modified) / second

  -- If-Match names neither `*` nor the stored tag; or it is absent, and the representation was
  -- modified after the second in If-Unmodified-Since.
  abbrev pub Fails : Type 0
  Fails =
      ((get request Name.if_match ≢ [])
        × (trim_space (get request Name.if_match) ≢ codes "*")
        × Every (λ tag. strong_etag_matches tag etag ≡ false)
            (split b',' (get request Name.if_match)))
      ⊎ ((get request Name.if_match ≡ [])
          × (client : Instant) × HasDate (get request Name.if_unmodified_since) client
          × (client / second < stored_second))

  -- If-None-Match names `*` or the stored tag; or it is absent, and the representation was not
  -- modified after the second in If-Modified-Since.
  abbrev pub IsCurrent : Type 0
  IsCurrent =
      ((get request Name.if_none_match ≢ [])
        × ((trim_space (get request Name.if_none_match) ≡ codes "*")
            ⊎ ((etag ≢ [])
                × Some (λ tag. weak_etag_matches tag etag ≡ true)
                    (split b',' (get request Name.if_none_match)))))
      ⊎ ((get request Name.if_none_match ≡ [])
          × (client : Instant) × HasDate (get request Name.if_modified_since) client
          × (stored_second ≤ client / second))

  date_test_sound :
      (header : Text) (test : Instant → Bool)
      → date_test p header last_modified test ≡ true
      → (client : Instant) × HasDate header client × (test client ≡ true)
  unfolding date_test is_empty
  date_test_sound header test e = elim (Option-cases (parse_date p header)) [
    | inl n ↦ ground (arith, n)
    | inr (client, n) ↦
        (client, (ground arith, ground arith, n, ground (arith, n)), ground (arith, n))
  ]

  date_test_complete :
      (header : Text) (test : Instant → Bool) (client : Instant)
      → HasDate header client
      → test client ≡ true
      → date_test p header last_modified test ≡ true
  unfolding date_test is_empty
  date_test_complete header test client (filled, known, n, real) t = ground (arith, n, t)

  fails_sound : precondition_fails p request etag last_modified ≡ true → Fails
  unfolding precondition_fails is_empty modified_after
  fails_sound h = elim (Bool-cases (is_empty (get request Name.if_match))) [
    | inl e ↦ inr (
        let (client, date, later) =
          date_test_sound (get request Name.if_unmodified_since)
            (λ client. modified_after last_modified client) (ground (arith, e, h)) in
        (ground (arith, e), client, date, ground arith))
    | inr e ↦ inl (
      ground (arith, e),
      ground (arith, e, ==ₜ_iff (trim_space (get request Name.if_match)) (codes "*")),
      any-false (λ tag. strong_etag_matches tag etag) (split b',' (get request Name.if_match))
          (ground (arith, e)),
    )
  ]

  fails_complete : Fails → precondition_fails p request etag last_modified ≡ true
  unfolding precondition_fails is_empty modified_after
  fails_complete (inl (some_tag, star, every)) = ground (
    arith,
    ==ₜ_iff (trim_space (get request Name.if_match)) (codes "*"),
    any_of_Every (λ tag. strong_etag_matches tag etag) (split b',' (get request Name.if_match))
        every,
  )
  fails_complete (inr (no_tag, client, date, before)) = ground (
    arith,
    date_test_complete (get request Name.if_unmodified_since)
        (λ client. modified_after last_modified client) client date (ground arith),
  )

  current_sound : not_modified p request etag last_modified ≡ true → IsCurrent
  unfolding not_modified is_empty modified_after
  current_sound h = elim (Bool-cases (is_empty (get request Name.if_none_match))) [
    | inl e ↦ inr (
        let (client, date, later) =
          date_test_sound (get request Name.if_modified_since)
            (λ client. not (modified_after last_modified client)) (ground (arith, e, h)) in
        (ground (arith, e), client, date, ground arith))
    | inr e ↦ inl (
      ground (arith, e),
      elim (Bool-cases (trim_space (get request Name.if_none_match) ==ₜ codes "*")) [
        | inl star ↦ inl (
            ground (arith, ==ₜ_iff (trim_space (get request Name.if_none_match)) (codes "*"), star))
        | inr tags ↦ inr (
          ground (arith, e, tags),
          any-true (λ tag. weak_etag_matches tag etag) (split b',' (get request Name.if_none_match))
              (ground (arith, e, tags)),
        )
      ],
    )
  ]

  current_complete : IsCurrent → not_modified p request etag last_modified ≡ true
  unfolding not_modified is_empty modified_after
  current_complete (inl (some_tag, inl star)) =
      ground (arith, ==ₜ_iff (trim_space (get request Name.if_none_match)) (codes "*"))
  current_complete (inl (some_tag, inr (known, hit))) = ground (
    arith,
    any_of_Some (λ tag. weak_etag_matches tag etag) (split b',' (get request Name.if_none_match))
        hit,
  )
  current_complete (inr (no_tag, client, date, before)) = ground (
    arith,
    date_test_complete (get request Name.if_modified_since)
        (λ client. not (modified_after last_modified client)) client date (ground arith),
  )

  -- The preconditions end in 412 exactly when If-Match (or, without it, If-Unmodified-Since) fails,
  -- and in 304 exactly when that does not fail and If-None-Match (or, without it, If-Modified-Since)
  -- finds that the client has the current representation.
  pub preconditions_exact :
      ((evaluate_preconditions p request etag last_modified ≡ some 412) ↔ Fails)
      × ((evaluate_preconditions p request etag last_modified ≡ some 304) ↔ ((¬ Fails) × IsCurrent))
  unfolding evaluate_preconditions
  preconditions_exact = (
    (λ e. fails_sound (ground arith), λ f. ground (arith, fails_complete f)),
    (
      λ e. (λ f. ground (arith, fails_complete f), current_sound (ground arith)),
      λ h.
          let (holds, current) = h in
          elim (Bool-cases (precondition_fails p request etag last_modified)) [
            | inl e ↦ absurd (holds (fails_sound e))
            | inr e ↦ ground (arith, e, current_complete current)
          ],
    ),
  )

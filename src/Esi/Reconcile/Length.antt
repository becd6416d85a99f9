-- ===== src/Esi/Reconcile/Length.antt =====
-- esi/processor.go: the Content-Length of an assembled document.
use titip.Prelude.{
  ◌≡◌, refl, ap, ◌∙◌, inl, inr, Bool, true, false, some, List, [], ◌∷◌, length, Bool-cases,
}
use titip.Text.{Text, ◌==ₜ◌, decimal, equal_fold, to_lower}
use titip.Text.Decimal.{itoa, decimal-itoa}
use titip.Http.{Header, get, add, del, values, is_empty, canonical_header_key}
use titip.Http.Name
use titip.Http.Laws.{values-set, values-add, values-del}
use titip.Esi.Surrogate.{clean_surrogate_control}
use titip.Esi.Surrogate.Keeps.{values-clean}
use titip.Esi.Execute.{Processed}
use titip.Esi.Reconcile.{
  weakened, reconcile_validators, reconcile_length, add_cookies, reconcile_headers,
}

-- A field that another write does not touch: the Content-Length, or a validator.
abbrev Differ : Text → Text → Type 0
Differ name other = (canonical_header_key name ==ₜ canonical_header_key other) ≡ false

get_of_values :
    (h k : Header) (name : Text) → values h name ≡ values k name → get h name ≡ get k name
unfolding get
get_of_values h k name e = rw (e, get) refl

values-add_cookies :
    (cs : List Text) (h : Header) (other : Text)
    → Differ Name.set_cookie other
    → values (add_cookies cs h) other ≡ values h other
unfolding add_cookies
values-add_cookies [] h other d = refl
values-add_cookies (c ∷ cs) h other d =
    values-add_cookies cs (add h Name.set_cookie c) other d
    ∙ values-add h Name.set_cookie other c
    ∙ rw d refl

values-validators :
    (preserve : Bool) (h : Header) (other : Text)
    → Differ Name.etag other
    → Differ Name.last_modified other
    → values (reconcile_validators preserve h) other ≡ values h other
unfolding reconcile_validators
values-validators true h other d l = elim (Bool-cases (is_empty (get h Name.etag))) [
  | inl e ↦ rw e refl
  | inr e ↦ rw e (values-set h Name.etag other (weakened (get h Name.etag)) ∙ rw d refl)
]
values-validators false h other d l =
    values-del (del h Name.etag) Name.last_modified other
    ∙ rw l (values-del h Name.etag other ∙ rw d refl)

values-length :
    (body : Text) (h : Header) (other : Text)
    → Differ Name.content_length other
    → values (reconcile_length body h) other ≡ values h other
unfolding reconcile_length
values-length body h other d = elim (Bool-cases (is_empty (get h Name.content_length))) [
  | inl e ↦ rw e refl
  | inr e ↦ rw e (values-set h Name.content_length other (itoa (length body)) ∙ rw d refl)
]

first_of : (h : Header) (name v : Text) → values h name ≡ v ∷ [] → get h name ≡ v
unfolding get
first_of h name v e = rw (e, get) refl

reconcile_length_set :
    (body : Text) (h : Header)
    → is_empty (get h Name.content_length) ≡ false
    → values (reconcile_length body h) Name.content_length ≡ itoa (length body) ∷ []
unfolding reconcile_length canonical_header_key ◌==ₜ◌
reconcile_length_set body h e =
    rw e (values-set h Name.content_length Name.content_length (itoa (length body)))

module _ (preserve : Bool) (h : Header) (p : Processed) where
  abbrev validated : Header
  validated = reconcile_validators preserve (clean_surrogate_control h)

  validated-keeps : get validated Name.content_length ≡ get h Name.content_length
  unfolding canonical_header_key ◌==ₜ◌ equal_fold to_lower
  validated-keeps = get_of_values validated h Name.content_length (
      values-validators preserve (clean_surrogate_control h) Name.content_length refl refl
      ∙ values-clean Name.content_length refl h)

  length_set :
      is_empty (get h Name.content_length) ≡ false
      → get (add_cookies p.set_cookies (reconcile_length p.body validated)) Name.content_length
        ≡ itoa (length p.body)
  unfolding canonical_header_key ◌==ₜ◌
  length_set n = first_of _ Name.content_length (itoa (length p.body)) (
      values-add_cookies p.set_cookies (reconcile_length p.body validated) Name.content_length refl
      ∙ reconcile_length_set p.body validated (rw validated-keeps n))

no_validator :
    (h : Header) (p : Processed) (name : Text)
    → Differ Name.set_cookie name
    → Differ Name.content_length name
    → values (reconcile_validators false (clean_surrogate_control h)) name ≡ []
    → values (reconcile_headers false h (some p)) name ≡ []
unfolding reconcile_headers
no_validator h p name c l e =
    values-add_cookies p.set_cookies _ name c ∙ values-length p.body _ name l ∙ e

-- A document with a Content-Length has the length of the assembled body there instead; and where the
-- validators are not preserved it has neither ETag nor Last-Modified.
pub reconcile_headers_lem :
    (preserve : Bool) (h : Header) (p : Processed)
    → is_empty (get h Name.content_length) ≡ false
    → (decimal (get (reconcile_headers preserve h (some p)) Name.content_length)
        ≡ some (length p.body))
      × (values (reconcile_headers false h (some p)) Name.etag ≡ [])
      × (values (reconcile_headers false h (some p)) Name.last_modified ≡ [])
unfolding reconcile_headers canonical_header_key ◌==ₜ◌ reconcile_validators
reconcile_headers_lem preserve h p n = (
  ap decimal (length_set preserve h p n) ∙ decimal-itoa (length p.body),
  no_validator h p Name.etag refl refl (
      values-del (del (clean_surrogate_control h) Name.etag) Name.last_modified Name.etag
      ∙ values-del (clean_surrogate_control h) Name.etag Name.etag),
  no_validator h p Name.last_modified refl refl (
      values-del (del (clean_surrogate_control h) Name.etag) Name.last_modified Name.last_modified),
)

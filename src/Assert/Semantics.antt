-- ===== src/Assert/Semantics.antt =====
-- Lemmas on the checks of assert.go on headers, on whole bodies and on contained texts.
use postgrest_conformance.Base.{
  Bool, true, false, List, [], ◌∷◌, Option, none, some, ◌≡◌, refl, ◌↔◌, ◌⊎◌, inl, inr, Bool-cases,
  ap, All, is_empty, if◌then◌else◌,
}
use postgrest_conformance.Base.Text.{Bytes, str_eq, str_eq_iff, contains}
use postgrest_conformance.Base.Assoc.{lookup}
use postgrest_conformance.Value.{Value, array, object, Items, Fields, entries, to_list, Golib}
use postgrest_conformance.Jsonval.{deep_equal}
use postgrest_conformance.Assert.{
  HttpResponse, Failure, header_differs, folded_header, literal_header, expected_scalar,
  to_string_list,
}
use postgrest_conformance.Assert.Headers.{
  header_equals, check_headers, must_be_there, check_headers_present, must_not_be_there,
  check_headers_absent,
}
use postgrest_conformance.Assert.Body.{
  wants_empty, equals_json, check_body_exact, check_body_contains,
}
use postgrest_conformance.Assert.Commands.{check_substrings}
use postgrest_conformance.Assert.Verdict.{for_each_iff, for_items_iff, for_texts_iff}

-- A test whose failure is the one failure.
pub if_iff {ℓ} : {A : Type ℓ} (b : Bool) (f : A) → ((if b then [] else f ∷ []) ≡ []) ↔ (b ≡ true)
if_iff true f = (λ _. refl, λ _. refl)
if_iff false f = (λ h. cc, λ h. cc)

pub All-iff {ℓ κ μ} :
    {A : Type ℓ} {P : A → Type κ} {Q : A → Type μ}
    → ((a : A) → P a ↔ Q a)
    → (l : List A) → All P l ↔ All Q l
All-iff e [] = (λ _. tt, λ _. tt)
All-iff e (a ∷ l) =
    (λ h. ((e a).0 h.0, (All-iff e l).0 h.1), λ h. ((e a).1 h.0, (All-iff e l).1 h.1))

pub ↔-trans {ℓ κ μ} : {A : Type ℓ} {B : Type κ} {C : Type μ} → A ↔ B → B ↔ C → A ↔ C
↔-trans f g = (λ a. g.0 (f.0 a), λ c. f.1 (g.1 c))

header_equals_iff :
    (name want : Bytes) (got : Option Bytes)
    → (header_equals name want got ≡ []) ↔ (got ≡ some want)
unfolding header_equals
header_equals_iff name want none = (λ h. cc, λ h. cc)
header_equals_iff name want (some got) = (
  λ h.
      ap some
        ((str_eq_iff got want).0 ((if_iff (str_eq got want) (header_differs name got want)).0 h)),
  λ h. (if_iff (str_eq got want) (header_differs name got want)).1 ((str_eq_iff got want).1 (cc h)),
)

-- `headers` passes just when each name of the mapping has, as its values joined into one text (or
-- as the length that stands in for a Content-Length), exactly the text that its value is written as.
pub check_headers_iff :
    (go : Golib) (r : HttpResponse) (m : Fields)
    → (check_headers go r (object m) ≡ []) ↔ (
        (name : Bytes) (v : Value)
        → lookup name (entries m) ≡ some v
        → folded_header r.header name r.content_length ≡ some (expected_scalar go v))
unfolding check_headers
check_headers_iff go r m =
    let each =
      for_each_iff
        (λ name v.
          header_equals name (expected_scalar go v) (folded_header r.header name r.content_length))
        m in
    (
      λ h name v e. (header_equals_iff _ _ _).0 (each.0 h name v e),
      λ h. each.1 (λ name v e. (header_equals_iff _ _ _).1 (h name v e)),
    )

must_be_there_iff :
    (name : Bytes) (got : Option Bytes)
    → (must_be_there name got ≡ []) ↔ ((s : Bytes) × (got ≡ some s))
unfolding must_be_there
must_be_there_iff name none = (λ h. cc, λ h. cc (h.1))
must_be_there_iff name (some got) = (λ _. (got, refl), λ _. refl)

must_not_be_there_iff :
    (name : Bytes) (got : Option Bytes) → (must_not_be_there name got ≡ []) ↔ (got ≡ none)
unfolding must_not_be_there
must_not_be_there_iff name none = (λ _. refl, λ _. refl)
must_not_be_there_iff name (some got) = (λ h. cc, λ h. cc)

-- `headers_present` passes just when each name of the list is a header that the response has, a
-- synthesized length not being one, and `headers_absent` just when none of them is.
pub check_headers_present_iff :
    (go : Golib) (r : HttpResponse) (names : Items)
    → ((check_headers_present go r (array names) ≡ [])
        ↔ All
            (λ v. (s : Bytes) × (literal_header r.header (expected_scalar go v) ≡ some s))
            (to_list names))
      × ((check_headers_absent go r (array names) ≡ [])
          ↔ All (λ v. literal_header r.header (expected_scalar go v) ≡ none) (to_list names))
unfolding check_headers_present check_headers_absent
check_headers_present_iff go r names = (
  ↔-trans (for_items_iff _ names) (All-iff (λ v. must_be_there_iff _ _) (to_list names)),
  ↔-trans (for_items_iff _ names) (All-iff (λ v. must_not_be_there_iff _ _) (to_list names)),
)

-- The body asked for: none at all, or JSON that is equal to the value.
abbrev pub IsBody : Golib → Bytes → Value → Type 0
IsBody go body v =
    ((wants_empty v ≡ true) × (body ≡ []))
    ⊎ ((wants_empty v ≡ false)
        × ((got : Value) × (go.decode_json body ≡ some got) × (deep_equal go got v ≡ true)))

equals_json_iff :
    (go : Golib) (key : Bytes) (v : Value) (doc : Option Value)
    → (equals_json go key v doc ≡ [])
      ↔ ((got : Value) × (doc ≡ some got) × (deep_equal go got v ≡ true))
unfolding equals_json
equals_json_iff go key v none = (λ h. cc, λ (got, e, same). cc)
equals_json_iff go key v (some doc) = (
  λ h. (doc, refl, (if_iff (deep_equal go doc v) _).0 h),
  λ (got, e, same). (if_iff (deep_equal go doc v) _).1 (cc (e, same)),
)

empty_iff :
    (body : Bytes) (f : Failure) → ((if is_empty body then [] else f ∷ []) ≡ []) ↔ (body ≡ [])
empty_iff [] f = (λ _. refl, λ _. refl)
empty_iff (c ∷ body) f = (λ h. cc, λ h. cc)

-- `body_exact` and `body_json` pass just when the body is what the value asks for: no byte where it
-- is null or the empty text, and otherwise a JSON document deeply equal to it.
pub check_body_exact_iff :
    (go : Golib) (key body : Bytes) (v : Value)
    → (check_body_exact go key body v ≡ []) ↔ IsBody go body v
unfolding check_body_exact
check_body_exact_iff go key body v = elim (Bool-cases (wants_empty v)) [
  | inl none_wanted ↦ rw none_wanted (
      (
        λ h. inl (refl, (empty_iff body _).0 h),
        λ h. elim h [ inl (_, e) ↦ (empty_iff body _).1 e | inr (e, _) ↦ cc ],
      ))
  | inr json_wanted ↦ rw json_wanted (
      (
        λ h. inr (refl, (equals_json_iff go key v (go.decode_json body)).0 h),
        λ h. elim h [
          | inl (e, _) ↦ cc
          | inr (_, got) ↦ (equals_json_iff go key v (go.decode_json body)).1 got
        ],
      ))
]

-- `body_contains` passes just when the body has every text of the list in it, and `dump_contains`
-- and `stderr_contains` just when the output they are given has.
pub check_substrings_iff :
    (go : Golib) (r : HttpResponse) (key output : Bytes) (v : Value)
    → ((check_body_contains go r v ≡ [])
        ↔ All (λ s. contains r.body s ≡ true) (to_string_list go v))
      × ((check_substrings go key output v ≡ [])
          ↔ All (λ s. contains output s ≡ true) (to_string_list go v))
unfolding check_body_contains check_substrings
check_substrings_iff go r key output v = (
  ↔-trans (for_texts_iff _ ss) (All-iff (λ s. if_iff (contains r.body s) _) ss),
  ↔-trans (for_texts_iff _ ss) (All-iff (λ s. if_iff (contains output s) _) ss),
)
  where
    ss : List Bytes
    ss = to_string_list go v

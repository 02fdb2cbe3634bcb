-- ===== src/Assert/Texts.antt =====
-- The texts and integers that the values of an expectation of assert.go stand for.
use postgrest_conformance.Base.{
  true, List, [], ◌∷◌, Option, none, some, ◌≡◌, refl, ◌↔◌, All, if◌then◌else◌,
}
use postgrest_conformance.Base.Text.{Bytes, str_eq, str_eq_iff, contains}
use postgrest_conformance.Base.Int.{ℤ, int_of_uint64}
use postgrest_conformance.Value.{
  Value, null, bool, int, int64, uint64, float64, string, number, array, object, any_map, other,
  Items, nil, cons, Golib,
}
use postgrest_conformance.Assert.{
  Failure, expected_scalar, expected_scalars, to_string_list, to_int,
}
use postgrest_conformance.Assert.Semantics.{if_iff, ↔-trans}

-- The text that a value of an expectation stands for: its own bytes, or the library's rendering.
abbrev pub text_form : Golib → Value → Bytes
text_form go (string s) = s
text_form go v = go.value_text v

pub expected_scalar-text : (go : Golib) (v : Value) → expected_scalar go v ≡ text_form go v
unfolding expected_scalar
expected_scalar-text go null = refl
expected_scalar-text go (bool b) = refl
expected_scalar-text go (int n) = refl
expected_scalar-text go (int64 n) = refl
expected_scalar-text go (uint64 n) = refl
expected_scalar-text go (float64 n) = refl
expected_scalar-text go (string s) = refl
expected_scalar-text go (number t) = refl
expected_scalar-text go (array vs) = refl
expected_scalar-text go (object m) = refl
expected_scalar-text go (any_map ps) = refl
expected_scalar-text go (other t) = refl

-- The texts of an expectation: a list's, or the one text.
abbrev pub text_forms : Golib → Items → List Bytes
text_forms go nil = []
text_forms go (cons v vs) = text_form go v ∷ text_forms go vs

abbrev pub texts_of : Golib → Value → List Bytes
texts_of go (array vs) = text_forms go vs
texts_of go v = text_form go v ∷ []

pub expected_scalars-texts : (go : Golib) (vs : Items) → expected_scalars go vs ≡ text_forms go vs
unfolding expected_scalars
expected_scalars-texts go nil = refl
expected_scalars-texts go (cons v vs) =
    rw (expected_scalar-text go v, expected_scalars-texts go vs) refl

pub to_string_list-texts : (go : Golib) (v : Value) → to_string_list go v ≡ texts_of go v
unfolding to_string_list expected_scalar
to_string_list-texts go (array vs) = expected_scalars-texts go vs
to_string_list-texts go null = refl
to_string_list-texts go (bool b) = refl
to_string_list-texts go (int n) = refl
to_string_list-texts go (int64 n) = refl
to_string_list-texts go (uint64 n) = refl
to_string_list-texts go (float64 n) = refl
to_string_list-texts go (string s) = refl
to_string_list-texts go (number t) = refl
to_string_list-texts go (object m) = refl
to_string_list-texts go (any_map ps) = refl
to_string_list-texts go (other t) = refl

-- The integer that a value of an expectation stands for.
abbrev pub whole : Golib → Value → Option ℤ
whole go (int n) = some n
whole go (int64 n) = some n
whole go (uint64 n) = some (int_of_uint64 n)
whole go (float64 n) = go.float_int n
whole go _ = none

pub to_int-whole : (go : Golib) (v : Value) → to_int go v ≡ whole go v
unfolding to_int
to_int-whole go null = refl
to_int-whole go (bool b) = refl
to_int-whole go (int n) = refl
to_int-whole go (int64 n) = refl
to_int-whole go (uint64 n) = refl
to_int-whole go (float64 n) = refl
to_int-whole go (string s) = refl
to_int-whole go (number t) = refl
to_int-whole go (array vs) = refl
to_int-whole go (object m) = refl
to_int-whole go (any_map ps) = refl
to_int-whole go (other t) = refl

pub refused : (f : Failure) → ((f ∷ []) ≡ []) ↔ ⊥
refused f = (λ h. cc, absurd)

pub same_text_iff :
    (a b : Bytes) (f : Failure) → ((if str_eq a b then [] else f ∷ []) ≡ []) ↔ (a ≡ b)
same_text_iff a b f = ↔-trans (if_iff (str_eq a b) f) (str_eq_iff a b)

abbrev pub ContainsAll : Bytes → List Bytes → Type 0
ContainsAll output ss = All (λ s. contains output s ≡ true) ss

-- ===== src/Assert/Responses.antt =====
-- The checks of assert.go on a response, and what each asks for.
use postgrest_conformance.Base.{
  true, false, List, [], ◌∷◌, Option, none, some, ◌≡◌, refl, ◌∙◌, sym, ap, ◌↔◌, inl, inr,
  Bool-cases, All, subst, if◌then◌else◌, is_empty,
}
use postgrest_conformance.Base.Text.{Bytes, codes, equal_fold, join}
use postgrest_conformance.Base.Assoc.{lookup}
use postgrest_conformance.Base.Decimal.{int_text}
use postgrest_conformance.Base.Int.{ℤ, pos, negsuc, int_eq, int_eq_iff}
use postgrest_conformance.Value.{
  Value, null, bool, int, int64, uint64, float64, string, number, array, object, any_map, other,
  entries, to_list, Golib,
}
use postgrest_conformance.Jsonval.{deep_equal}
use postgrest_conformance.Assert.{
  HttpResponse, values, fold_or, synthesized, separator, folded_header, literal_header,
  expected_scalar,
}
use postgrest_conformance.Assert.Headers.{
  compare_numbers, check_status, check_status_text, check_headers, check_headers_present,
  check_headers_absent,
}
use postgrest_conformance.Assert.Body.{check_body_exact, check_body_contains, check_body_raw}
use postgrest_conformance.Assert.Semantics.{
  if_iff, All-iff, ↔-trans, check_headers_iff, check_headers_present_iff, check_body_exact_iff,
  check_substrings_iff,
}
use postgrest_conformance.Assert.Texts.{
  text_form, expected_scalar-text, texts_of, to_string_list-texts, whole, to_int-whole, refused,
  same_text_iff, ContainsAll,
}

-- What a response shows of a header: its values joined, with line ends for Set-Cookie in any letter
-- case, or the length of the body for a Content-Length that it has no values of.
abbrev pub Shows : List Bytes → Bytes → ℤ → Bytes → Type 0
Shows (v ∷ vs) name len t =
    join (v ∷ vs) (if equal_fold name (codes "Set-Cookie") then codes "\n" else codes ", ") ≡ t
Shows [] name (pos n) t = (equal_fold name (codes "Content-Length") ≡ true) × (int_text (pos n) ≡ t)
Shows [] name (negsuc n) t = ⊥

pub fold_or-Shows :
    (vs : List Bytes) (name : Bytes) (len : ℤ) (t : Bytes)
    → (fold_or vs name (synthesized name len) ≡ some t) ↔ Shows vs name len t
unfolding fold_or synthesized separator
fold_or-Shows (v ∷ vs) name len t = (λ h. cc h, λ h. ap some h)
fold_or-Shows [] name (pos n) t = elim (Bool-cases (equal_fold name (codes "Content-Length"))) [
  | inl same ↦ rw same (λ h. (refl, cc h), λ h. ap some h.1)
  | inr differs ↦ rw differs (λ h. cc, λ h. cc (h.0))
]
fold_or-Shows [] name (negsuc n) t = (λ h. cc, absurd)

-- What `headers` asks of a response: each name of the mapping shows the text of its value.
abbrev pub HeadersAsk : Golib → HttpResponse → Value → Type 0
HeadersAsk go r (object m) =
    (name : Bytes) (v : Value)
    → lookup name (entries m) ≡ some v
    → Shows (values r.header name) name r.content_length (text_form go v)
HeadersAsk go r _ = ⊥

-- `headers` passes just when it is a mapping and each of its names shows the text of its value: the
-- header's values joined by commas, or by line ends for Set-Cookie, or the length of the body where
-- there is no Content-Length header.
pub headers_iff :
    (go : Golib) (r : HttpResponse) (v : Value) → (check_headers go r v ≡ []) ↔ HeadersAsk go r v
unfolding check_headers folded_header
headers_iff go r (object m) = (
  λ h name v e.
      (fold_or-Shows (values r.header name) name r.content_length (text_form go v)).0
        ((check_headers_iff go r m).0 h name v e ∙ ap some (expected_scalar-text go v)),
  λ h. (check_headers_iff go r m).1 (λ name v e.
      (fold_or-Shows (values r.header name) name r.content_length (text_form go v)).1 (h name v e)
      ∙ ap some (sym (expected_scalar-text go v))),
)
headers_iff go r null = refused _
headers_iff go r (bool b) = refused _
headers_iff go r (int n) = refused _
headers_iff go r (int64 n) = refused _
headers_iff go r (uint64 n) = refused _
headers_iff go r (float64 n) = refused _
headers_iff go r (string s) = refused _
headers_iff go r (number t) = refused _
headers_iff go r (array vs) = refused _
headers_iff go r (any_map ps) = refused _
headers_iff go r (other t) = refused _

pub literal-present :
    (vs : List Bytes) (name : Bytes)
    → ((s : Bytes) × (fold_or vs name none ≡ some s)) ↔ (is_empty vs ≡ false)
unfolding fold_or
literal-present [] name = (λ h. cc (h.1), λ h. cc)
literal-present (v ∷ vs) name = (λ h. refl, λ h. (_, refl))

pub literal-absent :
    (vs : List Bytes) (name : Bytes) → (fold_or vs name none ≡ none) ↔ (is_empty vs ≡ true)
unfolding fold_or
literal-absent [] name = (λ h. refl, λ h. refl)
literal-absent (v ∷ vs) name = (λ h. cc, λ h. cc)

abbrev pub PresentAsk : Golib → HttpResponse → Value → Type 0
PresentAsk go r (array names) =
    All (λ v. is_empty (values r.header (text_form go v)) ≡ false) (to_list names)
PresentAsk go r _ = ⊥

abbrev pub AbsentAsk : Golib → HttpResponse → Value → Type 0
AbsentAsk go r (array names) =
    All (λ v. is_empty (values r.header (text_form go v)) ≡ true) (to_list names)
AbsentAsk go r _ = ⊥

pub each_present :
    (go : Golib) (r : HttpResponse) (v : Value)
    → ((s : Bytes) × (literal_header r.header (expected_scalar go v) ≡ some s))
      ↔ (is_empty (values r.header (text_form go v)) ≡ false)
unfolding literal_header
each_present go r v =
    rw (expected_scalar-text go v)
      (literal-present (values r.header (text_form go v)) (text_form go v))

pub each_absent :
    (go : Golib) (r : HttpResponse) (v : Value)
    → (literal_header r.header (expected_scalar go v) ≡ none)
      ↔ (is_empty (values r.header (text_form go v)) ≡ true)
unfolding literal_header
each_absent go r v =
    rw (expected_scalar-text go v)
      (literal-absent (values r.header (text_form go v)) (text_form go v))

pub present_iff :
    (go : Golib) (r : HttpResponse) (v : Value)
    → (check_headers_present go r v ≡ []) ↔ PresentAsk go r v
unfolding check_headers_present literal_header
present_iff go r (array names) =
    ↔-trans (check_headers_present_iff go r names).0 (All-iff (each_present go r) (to_list names))
present_iff go r null = refused _
present_iff go r (bool b) = refused _
present_iff go r (int n) = refused _
present_iff go r (int64 n) = refused _
present_iff go r (uint64 n) = refused _
present_iff go r (float64 n) = refused _
present_iff go r (string s) = refused _
present_iff go r (number t) = refused _
present_iff go r (object m) = refused _
present_iff go r (any_map ps) = refused _
present_iff go r (other t) = refused _

pub absent_iff :
    (go : Golib) (r : HttpResponse) (v : Value)
    → (check_headers_absent go r v ≡ []) ↔ AbsentAsk go r v
unfolding check_headers_absent literal_header
absent_iff go r (array names) =
    ↔-trans (check_headers_present_iff go r names).1 (All-iff (each_absent go r) (to_list names))
absent_iff go r null = refused _
absent_iff go r (bool b) = refused _
absent_iff go r (int n) = refused _
absent_iff go r (int64 n) = refused _
absent_iff go r (uint64 n) = refused _
absent_iff go r (float64 n) = refused _
absent_iff go r (string s) = refused _
absent_iff go r (number t) = refused _
absent_iff go r (object m) = refused _
absent_iff go r (any_map ps) = refused _
absent_iff go r (other t) = refused _

pub compare_numbers_iff :
    (key : Bytes) (got : ℤ) (o : Option ℤ) → (compare_numbers key got o ≡ []) ↔ (o ≡ some got)
unfolding compare_numbers
compare_numbers_iff key got none = (λ h. cc, λ h. cc)
compare_numbers_iff key got (some want) = (
  λ h. ap some (sym ((int_eq_iff got want).0 ((if_iff (int_eq got want) _).0 h))),
  λ h. (if_iff (int_eq got want) _).1 ((int_eq_iff got want).1 (cc h)),
)

pub status_iff :
    (go : Golib) (r : HttpResponse) (v : Value)
    → (check_status go r v ≡ []) ↔ (whole go v ≡ some r.status_code)
unfolding check_status
status_iff go r v = rw (to_int-whole go v) (compare_numbers_iff _ r.status_code (whole go v))

pub status_text_iff :
    (go : Golib) (r : HttpResponse) (v : Value)
    → (check_status_text go r v ≡ []) ↔ (r.reason ≡ text_form go v)
unfolding check_status_text
status_text_iff go r v = rw (expected_scalar-text go v) (same_text_iff r.reason (text_form go v) _)

-- What `body_exact` and `body_json` ask of a body: nothing in it for null and for the empty text, and
-- otherwise a document deeply equal to the value.
abbrev pub IsEqualTo : Golib → Bytes → Value → Type 0
IsEqualTo go body v =
    (got : Value) × (go.decode_json body ≡ some got) × (deep_equal go got v ≡ true)

abbrev pub BodyAsk : Golib → Bytes → Value → Type 0
BodyAsk go body null = body ≡ []
BodyAsk go body (string []) = body ≡ []
BodyAsk go body v = IsEqualTo go body v

-- `body_exact` and `body_json` pass just when the body has no byte, where the value is null or the empty
-- text, and just when it is JSON that is deeply equal to the value, where it is another.
pub body_exact_iff :
    (go : Golib) (key body : Bytes) (v : Value)
    → (check_body_exact go key body v ≡ []) ↔ BodyAsk go body v
body_exact_iff go key body (string []) =
    ↔-trans (check_body_exact_iff go key body (string []))
      (λ h. elim h [ inl (_, e) ↦ e | inr (e, _) ↦ cc ], λ h. inl (refl, h))
body_exact_iff go key body null =
    ↔-trans (check_body_exact_iff go key body null)
      (λ h. elim h [ inl (_, e) ↦ e | inr (e, _) ↦ cc ], λ h. inl (refl, h))
body_exact_iff go key body (string (c ∷ s)) =
    ↔-trans (check_body_exact_iff go key body (string (c ∷ s)))
      (λ h. elim h [ inl (e, _) ↦ cc | inr (_, got) ↦ got ], λ h. inr (refl, h))
body_exact_iff go key body (bool b) =
    ↔-trans (check_body_exact_iff go key body (bool b))
      (λ h. elim h [ inl (e, _) ↦ cc | inr (_, got) ↦ got ], λ h. inr (refl, h))
body_exact_iff go key body (int n) =
    ↔-trans (check_body_exact_iff go key body (int n))
      (λ h. elim h [ inl (e, _) ↦ cc | inr (_, got) ↦ got ], λ h. inr (refl, h))
body_exact_iff go key body (int64 n) =
    ↔-trans (check_body_exact_iff go key body (int64 n))
      (λ h. elim h [ inl (e, _) ↦ cc | inr (_, got) ↦ got ], λ h. inr (refl, h))
body_exact_iff go key body (uint64 n) =
    ↔-trans (check_body_exact_iff go key body (uint64 n))
      (λ h. elim h [ inl (e, _) ↦ cc | inr (_, got) ↦ got ], λ h. inr (refl, h))
body_exact_iff go key body (float64 n) =
    ↔-trans (check_body_exact_iff go key body (float64 n))
      (λ h. elim h [ inl (e, _) ↦ cc | inr (_, got) ↦ got ], λ h. inr (refl, h))
body_exact_iff go key body (number t) =
    ↔-trans (check_body_exact_iff go key body (number t))
      (λ h. elim h [ inl (e, _) ↦ cc | inr (_, got) ↦ got ], λ h. inr (refl, h))
body_exact_iff go key body (array vs) =
    ↔-trans (check_body_exact_iff go key body (array vs))
      (λ h. elim h [ inl (e, _) ↦ cc | inr (_, got) ↦ got ], λ h. inr (refl, h))
body_exact_iff go key body (object m) =
    ↔-trans (check_body_exact_iff go key body (object m))
      (λ h. elim h [ inl (e, _) ↦ cc | inr (_, got) ↦ got ], λ h. inr (refl, h))
body_exact_iff go key body (any_map ps) =
    ↔-trans (check_body_exact_iff go key body (any_map ps))
      (λ h. elim h [ inl (e, _) ↦ cc | inr (_, got) ↦ got ], λ h. inr (refl, h))
body_exact_iff go key body (other t) =
    ↔-trans (check_body_exact_iff go key body (other t))
      (λ h. elim h [ inl (e, _) ↦ cc | inr (_, got) ↦ got ], λ h. inr (refl, h))

pub body_contains_iff :
    (go : Golib) (r : HttpResponse) (v : Value)
    → (check_body_contains go r v ≡ []) ↔ ContainsAll r.body (texts_of go v)
body_contains_iff go r v =
    subst (λ ss. (check_body_contains go r v ≡ []) ↔ ContainsAll r.body ss)
      (to_string_list-texts go v) (check_substrings_iff go r [] [] v).0

abbrev pub RawAsk : HttpResponse → Value → Type 0
RawAsk r (string want) = r.body ≡ want
RawAsk r _ = ⊥

pub body_raw_iff : (r : HttpResponse) (v : Value) → (check_body_raw r v ≡ []) ↔ RawAsk r v
unfolding check_body_raw
body_raw_iff r (string want) = same_text_iff r.body want _
body_raw_iff r null = refused _
body_raw_iff r (bool b) = refused _
body_raw_iff r (int n) = refused _
body_raw_iff r (int64 n) = refused _
body_raw_iff r (uint64 n) = refused _
body_raw_iff r (float64 n) = refused _
body_raw_iff r (number t) = refused _
body_raw_iff r (array vs) = refused _
body_raw_iff r (object m) = refused _
body_raw_iff r (any_map ps) = refused _
body_raw_iff r (other t) = refused _

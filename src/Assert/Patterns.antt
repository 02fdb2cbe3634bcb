-- ===== src/Assert/Patterns.antt =====
-- The checks of assert.go on forbidden texts, blank values and JSON paths, and what each asks for.
use postgrest_conformance.Base.{
  Bool, true, false, List, [], ◌∷◌, some, ◌≡◌, refl, ◌↔◌, inl, inr, Bool-cases, All, if◌then◌else◌,
  is_empty,
}
use postgrest_conformance.Base.Text.{Bytes, codes, equal_fold, contains, join, trim_space}
use postgrest_conformance.Base.Assoc.{lookup}
use postgrest_conformance.Base.Sort.{sort, insert_sorted}
use postgrest_conformance.Base.Decimal.{int_text}
use postgrest_conformance.Base.Int.{ℤ, pos, negsuc}
use postgrest_conformance.Value.{
  Value, null, bool, int, int64, uint64, float64, string, number, array, object, any_map, other,
  entries, to_list, Golib,
}
use postgrest_conformance.Assert.{
  Header, HttpResponse, Failure, values, fold_or, synthesized, separator, folded_header,
  to_string_list,
}
use postgrest_conformance.Assert.Headers.{
  or_empty, lacks_all, check_headers_absent_in_value, blank_values, all_blank_values, blank_le,
  check_headers_no_blank,
}
use postgrest_conformance.Assert.Body.{check_entry, check_body_jsonpath}
use postgrest_conformance.Assert.Verdict.{for_each_iff, for_texts_iff, append-nil, nil-append}
use postgrest_conformance.Assert.Semantics.{All-iff, ↔-trans}
use postgrest_conformance.Assert.Predicates.{check_body_jsonpath_iff}
use postgrest_conformance.Assert.Texts.{texts_of, to_string_list-texts, refused}

-- The text of a header, and the empty text where it has none.
abbrev pub shown : List Bytes → Bytes → ℤ → Bytes
shown (v ∷ vs) name len =
    join (v ∷ vs) (if equal_fold name (codes "Set-Cookie") then codes "\n" else codes ", ")
shown [] name (pos n) = if equal_fold name (codes "Content-Length") then int_text (pos n) else []
shown [] name (negsuc n) = []

fold_or-shown :
    (vs : List Bytes) (name : Bytes) (len : ℤ)
    → or_empty (fold_or vs name (synthesized name len)) ≡ shown vs name len
unfolding fold_or synthesized separator
fold_or-shown (v ∷ vs) name len = refl
fold_or-shown [] name (negsuc n) = refl
fold_or-shown [] name (pos n) = elim (Bool-cases (equal_fold name (codes "Content-Length"))) [
  | inl same ↦ rw same refl
  | inr differs ↦ rw differs refl
]

abbrev pub LacksAsk : Golib → HttpResponse → Value → Type 0
LacksAsk go r (object m) =
    (name : Bytes) (v : Value)
    → lookup name (entries m) ≡ some v
    → All (λ s. contains (shown (values r.header name) name r.content_length) s ≡ false)
        (texts_of go v)
LacksAsk go r _ = ⊥

unless_iff : (b : Bool) (f : Failure) → ((if b then f ∷ [] else []) ≡ []) ↔ (b ≡ false)
unless_iff true f = (λ h. cc, λ h. cc)
unless_iff false f = (λ h. refl, λ h. refl)

lacks_all_iff :
    (name got : Bytes) (ss : List Bytes)
    → (lacks_all name got ss ≡ []) ↔ All (λ s. contains got s ≡ false) ss
unfolding lacks_all
lacks_all_iff name got ss =
    ↔-trans (for_texts_iff _ ss) (All-iff (λ s. unless_iff (contains got s) _) ss)

lacks_iff :
    (go : Golib) (r : HttpResponse) (name : Bytes) (v : Value)
    → (lacks_all name
          (or_empty (folded_header r.header name r.content_length))
          (to_string_list go v)
        ≡ [])
      ↔ All
          (λ s. contains (shown (values r.header name) name r.content_length) s ≡ false)
          (texts_of go v)
unfolding folded_header
lacks_iff go r name v =
    rw (to_string_list-texts go v, fold_or-shown (values r.header name) name r.content_length)
      (lacks_all_iff name (shown (values r.header name) name r.content_length) (texts_of go v))

pub absent_in_value_iff :
    (go : Golib) (r : HttpResponse) (v : Value)
    → (check_headers_absent_in_value go r v ≡ []) ↔ LacksAsk go r v
unfolding check_headers_absent_in_value
absent_in_value_iff go r (object m) =
    let each =
      for_each_iff
        (λ name v.
          lacks_all name (or_empty (folded_header r.header name r.content_length))
            (to_string_list go v))
        m in
    (
      λ h name v e. (lacks_iff go r name v).0 (each.0 h name v e),
      λ h. each.1 (λ name v e. (lacks_iff go r name v).1 (h name v e)),
    )
absent_in_value_iff go r null = refused _
absent_in_value_iff go r (bool b) = refused _
absent_in_value_iff go r (int n) = refused _
absent_in_value_iff go r (int64 n) = refused _
absent_in_value_iff go r (uint64 n) = refused _
absent_in_value_iff go r (float64 n) = refused _
absent_in_value_iff go r (string s) = refused _
absent_in_value_iff go r (number t) = refused _
absent_in_value_iff go r (array vs) = refused _
absent_in_value_iff go r (any_map ps) = refused _
absent_in_value_iff go r (other t) = refused _

-- No value of any header is white space only.
abbrev pub NoBlank : Header → Type 0
NoBlank h = All (λ e. All (λ v. is_empty (trim_space v) ≡ false) e.1) h

blank_values_iff :
    (name : Bytes) (vs : List Bytes)
    → (blank_values name vs ≡ []) ↔ All (λ v. is_empty (trim_space v) ≡ false) vs
unfolding blank_values
blank_values_iff name [] = (λ _. tt, λ _. refl)
blank_values_iff name (v ∷ vs) = (
  λ h.
      let (here, rest) = append-nil _ (blank_values name vs) h in
      ((unless_iff (is_empty (trim_space v)) _).0 here, (blank_values_iff name vs).0 rest),
  λ h.
      nil-append _ (blank_values name vs) ((unless_iff (is_empty (trim_space v)) _).1 h.0)
        ((blank_values_iff name vs).1 h.1),
)

all_blank_values_iff : (h : Header) → (all_blank_values h ≡ []) ↔ NoBlank h
unfolding all_blank_values
all_blank_values_iff [] = (λ _. tt, λ _. refl)
all_blank_values_iff ((name, vs) ∷ h) = (
  λ e.
      let (here, rest) = append-nil (blank_values name vs) (all_blank_values h) e in
      ((blank_values_iff name vs).0 here, (all_blank_values_iff h).0 rest),
  λ e.
      nil-append (blank_values name vs) (all_blank_values h) ((blank_values_iff name vs).1 e.0)
        ((all_blank_values_iff h).1 e.1),
)

sort-nil : (le : Failure → Failure → Bool) (fs : List Failure) → (sort le fs ≡ []) ↔ (fs ≡ [])
unfolding sort insert_sorted
sort-nil le [] = (λ h. refl, λ h. refl)
sort-nil le (f ∷ fs) = (λ h. absurd (inserted (sort le fs) h), λ h. cc)
  where
    inserted : (l : List Failure) → insert_sorted le f l ≡ [] → ⊥
    inserted [] h = cc
    inserted (g ∷ l) h = elim (Bool-cases (le f g)) [
      | inl low ↦ let e = rw low at h in cc
      | inr high ↦ let e = rw high at h in cc
    ]

abbrev pub NoBlankAsk : HttpResponse → Value → Type 0
NoBlankAsk r (bool true) = NoBlank r.header
NoBlankAsk r (bool false) = Unit
NoBlankAsk r _ = ⊥

pub no_blank_iff :
    (go : Golib) (r : HttpResponse) (v : Value)
    → (check_headers_no_blank go r v ≡ []) ↔ NoBlankAsk r v
unfolding check_headers_no_blank
no_blank_iff go r (bool true) =
    ↔-trans (sort-nil (blank_le go.quote_text) (all_blank_values r.header))
      (all_blank_values_iff r.header)
no_blank_iff go r (bool false) = (λ _. tt, λ _. refl)
no_blank_iff go r null = refused _
no_blank_iff go r (int n) = refused _
no_blank_iff go r (int64 n) = refused _
no_blank_iff go r (uint64 n) = refused _
no_blank_iff go r (float64 n) = refused _
no_blank_iff go r (string s) = refused _
no_blank_iff go r (number t) = refused _
no_blank_iff go r (array vs) = refused _
no_blank_iff go r (object m) = refused _
no_blank_iff go r (any_map ps) = refused _
no_blank_iff go r (other t) = refused _

-- The body is a JSON document, and each entry of the list passes on it.
abbrev pub PathsAsk : Golib → HttpResponse → Value → Type 0
PathsAsk go r (array es) =
    (doc : Value) × (go.decode_json r.body ≡ some doc)
    × All (λ e. check_entry go doc e ≡ []) (to_list es)
PathsAsk go r _ = ⊥

pub paths_iff :
    (go : Golib) (r : HttpResponse) (v : Value)
    → (check_body_jsonpath go r v ≡ []) ↔ PathsAsk go r v
unfolding check_body_jsonpath
paths_iff go r (array es) = check_body_jsonpath_iff go r es
paths_iff go r null = refused _
paths_iff go r (bool b) = refused _
paths_iff go r (int n) = refused _
paths_iff go r (int64 n) = refused _
paths_iff go r (uint64 n) = refused _
paths_iff go r (float64 n) = refused _
paths_iff go r (string s) = refused _
paths_iff go r (number t) = refused _
paths_iff go r (object m) = refused _
paths_iff go r (any_map ps) = refused _
paths_iff go r (other t) = refused _

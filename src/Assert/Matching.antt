-- ===== src/Assert/Matching.antt =====
-- The checks of assert.go on patterns, and what each asks for.
use postgrest_conformance.Base.{
  Bool, true, false, [], Option, none, some, ◌≡◌, refl, ap, ◌↔◌, inl, inr, Bool-cases,
}
use postgrest_conformance.Base.Text.{Bytes}
use postgrest_conformance.Base.Assoc.{lookup}
use postgrest_conformance.Value.{
  Value, null, bool, int, int64, uint64, float64, string, number, array, object, any_map, other,
  entries, Golib,
}
use postgrest_conformance.Assert.{
  HttpResponse, values, fold_or, synthesized, folded_header, expected_scalar,
}
use postgrest_conformance.Assert.Headers.{header_matches, pattern_matches, check_headers_match}
use postgrest_conformance.Assert.Verdict.{for_each_iff}
use postgrest_conformance.Assert.Semantics.{↔-trans}
use postgrest_conformance.Assert.Texts.{text_form, expected_scalar-text, refused}
use postgrest_conformance.Assert.Responses.{Shows, fold_or-Shows}

-- The pattern is one that can be compiled, and the header shows a text that it matches.
abbrev pub Matches : Golib → HttpResponse → Bytes → Value → Type 0
Matches go r name v =
    (t : Bytes) × Shows (values r.header name) name r.content_length t
    × ((re : Bytes → Bool) × (go.compile (text_form go v) ≡ some re) × (re t ≡ true))

pattern_matches_iff :
    (name want got : Bytes) (o : Option (Bytes → Bool))
    → (pattern_matches name want got o ≡ [])
      ↔ ((re : Bytes → Bool) × (o ≡ some re) × (re got ≡ true))
unfolding pattern_matches
pattern_matches_iff name want got none = (λ h. cc, λ h. cc (h.1))
pattern_matches_iff name want got (some re) = elim (Bool-cases (re got)) [
  | inl yes' ↦ rw yes' (λ h. (re, refl, yes'), λ h. refl)
  | inr no' ↦
      rw no' (λ h. cc, λ (re', e, yes'). let same : re got ≡ re' got = ap (λ o. read o) e in cc)
]
  where
    read : Option (Bytes → Bool) → Bool
    read none = false
    read (some f) = f got

header_matches_iff :
    (go : Golib) (name want : Bytes) (o : Option Bytes)
    → (header_matches go name want o ≡ []) ↔ (
        (t : Bytes) × (o ≡ some t)
        × ((re : Bytes → Bool) × (go.compile want ≡ some re) × (re t ≡ true)))
unfolding header_matches
header_matches_iff go name want none = (λ h. cc, λ h. cc (h.1))
header_matches_iff go name want (some got) =
    let inner = pattern_matches_iff name want got (go.compile want) in
    (
      λ h. (got, refl, inner.0 h),
      λ (t, e, (re, c, m)). let same : got ≡ t = cc e in inner.1 (re, c, rw same m),
    )

abbrev pub MatchAsk : Golib → HttpResponse → Value → Type 0
MatchAsk go r (object m) =
    (name : Bytes) (v : Value) → lookup name (entries m) ≡ some v → Matches go r name v
MatchAsk go r _ = ⊥

Matches-iff :
    (go : Golib) (r : HttpResponse) (name : Bytes) (v : Value)
    → (header_matches go name (expected_scalar go v) (folded_header r.header name r.content_length)
        ≡ [])
      ↔ Matches go r name v
unfolding folded_header
Matches-iff go r name v =
    let shows = fold_or-Shows (values r.header name) name r.content_length in
    rw (expected_scalar-text go v) (
      ↔-trans
        (header_matches_iff go name (text_form go v)
          (fold_or (values r.header name) name (synthesized name r.content_length)))
        (λ (t, e, rest). (t, (shows t).0 e, rest), λ (t, e, rest). (t, (shows t).1 e, rest)))

pub match_iff :
    (go : Golib) (r : HttpResponse) (v : Value)
    → (check_headers_match go r v ≡ []) ↔ MatchAsk go r v
unfolding check_headers_match
match_iff go r (object m) =
    let each =
      for_each_iff
        (λ name v.
          header_matches go name (expected_scalar go v)
            (folded_header r.header name r.content_length))
        m in
    (
      λ h name v e. (Matches-iff go r name v).0 (each.0 h name v e),
      λ h. each.1 (λ name v e. (Matches-iff go r name v).1 (h name v e)),
    )
match_iff go r null = refused _
match_iff go r (bool b) = refused _
match_iff go r (int n) = refused _
match_iff go r (int64 n) = refused _
match_iff go r (uint64 n) = refused _
match_iff go r (float64 n) = refused _
match_iff go r (string s) = refused _
match_iff go r (number t) = refused _
match_iff go r (array vs) = refused _
match_iff go r (any_map ps) = refused _
match_iff go r (other t) = refused _

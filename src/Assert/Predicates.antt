-- ===== src/Assert/Predicates.antt =====
-- Lemmas on `body_jsonpath` of assert.go.
use postgrest_conformance.Base.{
  arith, subst, true, List, [], ◌∷◌, Option, none, some, ◌≡◌, refl, ◌∙◌, ◌↔◌, Option-cases, inl,
  inr, All,
}
use postgrest_conformance.Base.Text.{Bytes, codes}
use postgrest_conformance.Base.Assoc.{lookup}
use postgrest_conformance.Value.{
  Value, string, array, object, Items, Fields, entries, to_list, Golib,
}
use postgrest_conformance.Jsonval.{deep_equal}
use postgrest_conformance.Jsonval.Path.{PathStep, select_all}
use postgrest_conformance.Jsonval.Path.Grammar.{Spells}
use postgrest_conformance.Jsonval.Path.Select.{Reaches, eval_path_iff}
use postgrest_conformance.Assert.{HttpResponse}
use postgrest_conformance.Assert.Body.{
  found_equals, predicate, evaluated, check_entry, check_body_jsonpath,
}
use postgrest_conformance.Assert.Semantics.{if_iff}
use postgrest_conformance.Assert.Verdict.{for_items_iff}

-- `body_jsonpath` passes just when the body is a JSON document and each entry of the list passes on it.
pub check_body_jsonpath_iff :
    (go : Golib) (r : HttpResponse) (es : Items)
    → (check_body_jsonpath go r (array es) ≡ []) ↔ (
        (doc : Value) × (go.decode_json r.body ≡ some doc)
        × All (λ e. check_entry go doc e ≡ []) (to_list es))
unfolding check_body_jsonpath
check_body_jsonpath_iff go r es = elim (Option-cases (go.decode_json r.body)) [
  | inl e ↦ rw e (λ h. cc, λ (doc, is, _). cc)
  | inr (doc, e) ↦ rw e (
    λ h. (doc, refl, (for_items_iff (check_entry go doc) es).0 h),
    λ (d, is, h).
        let same : d ≡ doc = ground (arith, is) in
        (for_items_iff (check_entry go doc) es).1
          (subst (λ x. All (λ e. check_entry go x e ≡ []) (to_list es)) same h),
  )
]

found_equals_iff :
    (go : Golib) (path : Bytes) (want : Value) (found : Option Value)
    → (found_equals go path want found ≡ [])
      ↔ ((got : Value) × (found ≡ some got) × (deep_equal go got want ≡ true))
unfolding found_equals
found_equals_iff go path want none = (λ h. cc, λ (got, e, same). cc)
found_equals_iff go path want (some got) = (
  λ h. (got, refl, (if_iff (deep_equal go got want) _).0 h),
  λ (g, e, same). (if_iff (deep_equal go got want) _).1 (cc (e, same)),
)

-- An entry whose path spells its steps and that asks for `equals` passes just when the steps reach a
-- value of the document and that value is deeply equal to the one asked for.
pub check_entry_iff :
    (go : Golib) (doc : Value) (entry : Fields) (s : Bytes) (ss : List PathStep) (want : Value)
    → lookup (codes "path") (entries entry) ≡ some (string (b'$' ∷ s))
    → Spells ss s
    → lookup (codes "equals") (entries entry) ≡ some want
    → (check_entry go doc (object entry) ≡ [])
      ↔ ((got : Value) × Reaches doc ss got × (deep_equal go got want ≡ true))
unfolding check_entry evaluated predicate
check_entry_iff go doc entry s ss want p spelled q =
    let (runs, reach) = eval_path_iff doc s ss spelled in
    let found = found_equals_iff go (b'$' ∷ s) want (select_all ss doc) in
    rw (p, runs, q)
      (
        λ h. let (got, e, same) = found.0 h in (got, (reach got).0 (runs ∙ rw e), same),
        λ (got, r, same). found.1 (got, cc (runs, (reach got).1 r), same),
      )

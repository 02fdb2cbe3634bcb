-- ===== src/Jsonval/Path/Select.antt =====
-- `EvalPath` of jsonpath.go and the relation of a value and the values inside it.
use postgrest_conformance.Base.{
  ℕ, List, [], ◌∷◌, some, ◌≡◌, ◌↔◌, refl, subst, arith, get_elem?, Option-cases, inl, inr,
}
use postgrest_conformance.Base.Text.{Bytes}
use postgrest_conformance.Base.Assoc.{lookup}
use postgrest_conformance.Base.Result.{ok}
use postgrest_conformance.Value.{Value, Items, Fields, array, object, to_list, entries}
use postgrest_conformance.Jsonval.Path.{PathStep, key, idx, select_all, parse_path, eval_path}
use postgrest_conformance.Jsonval.Path.Grammar.{Spells}
use postgrest_conformance.Jsonval.Path.Decides.{parse_path_iff}

-- The value `w` stands inside `v` at the end of the steps.
pub data Reaches : Value → List PathStep → Value → Type 0 where
  here : {v : Value} → Reaches v [] v
  member :
      {fs : Fields} {k : Bytes} {u w : Value} {ss : List PathStep}
      → lookup k (entries fs) ≡ some u
      → Reaches u ss w
      → Reaches (object fs) (key k ∷ ss) w
  element :
      {xs : Items} {n : ℕ} {u w : Value} {ss : List PathStep}
      → get_elem? (to_list xs) n ≡ some u
      → Reaches u ss w
      → Reaches (array xs) (idx n ∷ ss) w

Reaches-select_all : {v w : Value} {ss : List PathStep} → Reaches v ss w → select_all ss v ≡ some w
unfolding select_all
Reaches-select_all here = refl
Reaches-select_all (member e r) = rw (e, select_all) (Reaches-select_all r)
Reaches-select_all (element e r) = rw (e, select_all) (Reaches-select_all r)

Reaches-here : {v w : Value} → some v ≡ some w → Reaches v [] w
Reaches-here {v} e = subst (λ x. Reaches v [] x) (ground arith) here

select_all-Reaches : (ss : List PathStep) (v w : Value) → select_all ss v ≡ some w → Reaches v ss w
unfolding select_all
select_all-Reaches [] v w e = Reaches-here e
select_all-Reaches (key k ∷ ss) (object fs) w e = elim (Option-cases (lookup k (entries fs))) [
  | inl n ↦ cc (rw (n, select_all) at e)
  | inr (u, n) ↦ member n (select_all-Reaches ss u w (rw (n, select_all) at e))
]
select_all-Reaches (idx n ∷ ss) (array xs) w e = elim (Option-cases (get_elem? (to_list xs) n)) [
  | inl m ↦ cc (rw (m, select_all) at e)
  | inr (u, m) ↦ element m (select_all-Reaches ss u w (rw (m, select_all) at e))
]
select_all-Reaches (_ ∷ ss) _ w e = cc

-- On a path that spells its steps, the evaluation finds exactly the value that these steps reach
-- from the document, and reports nothing found where they reach none.
pub eval_path_iff :
    (doc : Value) (s : Bytes) (ss : List PathStep)
    → Spells ss s
    → (eval_path doc (b'$' ∷ s) ≡ ok (select_all ss doc))
      × ((w : Value) → (eval_path doc (b'$' ∷ s) ≡ ok (some w)) ↔ Reaches doc ss w)
unfolding eval_path
eval_path_iff doc s ss h =
    let parsed : parse_path (b'$' ∷ s) ≡ ok ss =
      ((parse_path_iff (b'$' ∷ s) ss).0).1 (s, refl, h) in
    (
      rw parsed,
      λ w. (
        λ e. select_all-Reaches ss doc w (ground (arith, rw parsed at e)),
        λ r. rw (parsed, Reaches-select_all r),
      ),
    )

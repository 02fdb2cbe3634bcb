-- ===== src/Run/Selection.antt =====
-- Lemmas on the selection of run.go, and on the failures that a run reports.
use postgrest_conformance.Base.{
  Bool, true, not, ◌&&◌, List, [], ◌∷◌, Option, ◌≡◌, refl, ◌∙◌, ◌↔◌, keep, any, is_empty, arith,
  All,
}
use postgrest_conformance.Base.Text.{Bytes}
use postgrest_conformance.Base.Int.{ℤ}
use postgrest_conformance.Base.Result.{is_ok}
use postgrest_conformance.Cases.{Case}
use postgrest_conformance.Report.{CaseResult, all_pass}
use postgrest_conformance.Report.Totals.{all_pass_iff}
use postgrest_conformance.Run.{
  wanted_id, wanted_area, runs, filter_cases, effective_selection, check_selection, to_result,
}

-- A case that the filters want and the skips leave.
abbrev pub is_wanted : Option (List ℤ) → Option (List Bytes) → Bool → Bool → Case → Bool
is_wanted ids areas skip_cli skip_http c =
    (wanted_id ids c.id && wanted_area areas c.area) && runs skip_cli skip_http c.request.kind

is_ok-check_selection : (cs : List Case) → is_ok (check_selection cs) ≡ not (is_empty cs)
unfolding check_selection
is_ok-check_selection [] = refl
is_ok-check_selection (c ∷ cs) = refl

not-is_empty-keep {ℓ} :
    {A : Type ℓ} (p q : A → Bool) (l : List A)
    → not (is_empty (keep q (keep p l))) ≡ any (λ x. p x && q x) l
not-is_empty-keep p q [] = refl
not-is_empty-keep p q (a ∷ l) = ground (arith, not-is_empty-keep p q l)

-- The selection is accepted just when some case of the suite passes both filters and is of a kind
-- that is not skipped.
pub check_selection_lem :
    (all : List Case) (ids : Option (List ℤ)) (areas : Option (List Bytes))
    (skip_cli skip_http : Bool)
    → is_ok (check_selection (effective_selection (filter_cases all ids areas) skip_cli skip_http))
      ≡ any (is_wanted ids areas skip_cli skip_http) all
unfolding effective_selection filter_cases
check_selection_lem all ids areas skip_cli skip_http =
    is_ok-check_selection _
    ∙ not-is_empty-keep (λ c. wanted_id ids c.id && wanted_area areas c.area)
        (λ c. runs skip_cli skip_http c.request.kind) all

module _ {ℓ} {F : Type ℓ} where
  -- The results of cases that ran in one placement, from their failures.
  abbrev pub results_of : Bytes → List (Case × List F) → List (CaseResult F)
  results_of placement [] = []
  results_of placement ((c, fs) ∷ ran) = to_result c placement fs ∷ results_of placement ran

  is_empty_iff : (fs : List F) → (is_empty fs ≡ true) ↔ (fs ≡ [])
  is_empty_iff [] = (λ _. refl, λ _. refl)
  is_empty_iff (f ∷ fs) = (λ h. cc, λ h. cc)

  All-results_of :
      (placement : Bytes) (ran : List (Case × List F))
      → All (λ r. r.pass ≡ true) (results_of placement ran) ↔ All (λ e. e.1 ≡ []) ran
  unfolding to_result
  All-results_of placement [] = (λ _. tt, λ _. tt)
  All-results_of placement ((c, fs) ∷ ran) = (
    λ h. ((is_empty_iff fs).0 h.0, (All-results_of placement ran).0 h.1),
    λ h. ((is_empty_iff fs).1 h.0, (All-results_of placement ran).1 h.1),
  )

  -- A run of cases in one placement is reported as passed just when none of them has a failure.
  pub all_pass-results_of :
      (placement : Bytes) (ran : List (Case × List F))
      → (all_pass (results_of placement ran) ≡ true) ↔ All (λ e. e.1 ≡ []) ran
  all_pass-results_of placement ran = (
    λ h. (All-results_of placement ran).0 ((all_pass_iff _).0 h),
    λ h. (all_pass_iff _).1 ((All-results_of placement ran).1 h),
  )

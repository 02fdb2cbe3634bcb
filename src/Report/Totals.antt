-- ===== src/Report/Totals.antt =====
-- Lemmas on the totals of the areas.
use postgrest_conformance.Base.{
  suc, ◌+◌, ◌≤◌, Bool, true, false, List, [], ◌∷◌, Option, none, some, ◌≡◌, refl, ap, ◌∙◌, ◌↔◌, inl,
  inr, Bool-cases, All, if◌then◌else◌, ==_iff, length, keep,
}
use postgrest_conformance.Base.Text.{Bytes, str_eq, str_eq_iff}
use postgrest_conformance.Base.Assoc.{Assoc, lookup, insert, lookup-insert}
use postgrest_conformance.Report.{
  CaseResult, AreaTotals, tally, area_totals, count, zero_totals, all_pass,
}
use native.Mathlib.Omega.{arith}

-- What the areas' totals say of one area, none counting as no result.
abbrev pub totals_of : Option AreaTotals → AreaTotals
totals_of none = zero_totals
totals_of (some t) = t

tally_lem :
    (p : Bool) (o : Option AreaTotals)
    → ((tally p o).total ≡ suc (totals_of o).total)
      × ((tally p o).passed ≡ (totals_of o).passed + (if p then 1 else 0))
unfolding tally
tally_lem p none = (refl, omega arith)
tally_lem true (some t) = (omega arith, refl)
tally_lem false (some t) = (omega arith, omega arith)

module _ {ℓ} {F : Type ℓ} where
  -- The results of one area, and the passing ones among them.
  abbrev pub in_area : Bytes → List (CaseResult F) → List (CaseResult F)
  in_area a rs = keep (λ r. str_eq r.area a) rs

  abbrev pub passing : List (CaseResult F) → List (CaseResult F)
  passing rs = keep (λ r. r.pass) rs

  count-total :
      (t : AreaTotals) (rs : List (CaseResult F)) → (count t rs).total ≡ t.total + length rs
  unfolding count tally
  count-total t [] = omega arith
  count-total t (r ∷ rs) = count-total (tally r.pass (some t)) rs ∙ omega arith

  count-passed :
      (t : AreaTotals) (rs : List (CaseResult F))
      → (count t rs).passed ≡ t.passed + length (passing rs)
  unfolding count tally
  count-passed t [] = omega arith
  count-passed t (r ∷ rs) = elim (Bool-cases r.pass) [
    | inl p ↦ count-passed (tally r.pass (some t)) rs ∙ rw p (omega arith)
    | inr p ↦ count-passed (tally r.pass (some t)) rs ∙ rw p (omega arith)
  ]

  passing_le : (rs : List (CaseResult F)) → length (passing rs) ≤ length rs
  passing_le [] = omega arith
  passing_le (r ∷ rs) = ground (arith, passing_le rs)

  All-passing :
      (rs : List (CaseResult F)) → (length (passing rs) ≡ length rs) ↔ All (λ r. r.pass ≡ true) rs
  All-passing [] = (λ _. tt, λ _. refl)
  All-passing (r ∷ rs) = elim (Bool-cases r.pass) [
    | inl p ↦
        rw p (
          λ h. (refl, (All-passing rs).0 (omega arith)),
          λ h. omega (arith, (All-passing rs).1 h.1),
        )
    | inr p ↦ rw p (λ h. let no : ⊥ = omega (arith, h, passing_le rs) in elim no [ ], λ h. cc (h.0))
  ]

  -- The summary reports that all is well just when each result passes.
  pub all_pass_iff : (rs : List (CaseResult F)) → (all_pass rs ≡ true) ↔ All (λ r. r.pass ≡ true) rs
  unfolding all_pass
  all_pass_iff rs =
      let t = count-total zero_totals rs in
      let p = count-passed zero_totals rs in
      (
        λ h. (All-passing rs).0 (let e = (==_iff _ _).0 h in omega (arith, e, t, p)),
        λ h. (==_iff _ _).1 (let e = (All-passing rs).1 h in omega (arith, e, t, p)),
      )

  -- After the loop, the totals of each area are what they were and the results of that area, all of
  -- them and the passing ones.
  pub area_totals-lookup :
      (a : Bytes) (areas : Assoc AreaTotals) (rs : List (CaseResult F))
      → ((totals_of (lookup a (area_totals areas rs))).total
          ≡ (totals_of (lookup a areas)).total + length (in_area a rs))
        × ((totals_of (lookup a (area_totals areas rs))).passed
            ≡ (totals_of (lookup a areas)).passed + length (passing (in_area a rs)))
  unfolding area_totals
  area_totals-lookup a areas [] = (omega arith, omega arith)
  area_totals-lookup a areas (r ∷ rs) =
      let rest =
        area_totals-lookup a (insert r.area (tally r.pass (lookup r.area areas)) areas) rs in
      let at = lookup-insert r.area a (tally r.pass (lookup r.area areas)) areas in
      let now = tally_lem r.pass (lookup r.area areas) in
      elim (Bool-cases (str_eq r.area a)) [
        | inl same ↦
            let e : r.area ≡ a = (str_eq_iff r.area a).0 same in
            let at' = rw same at at in
            let rest' = rw at' at rest in
            let was : lookup r.area areas ≡ lookup a areas = cc e in
            let was_total = ap (λ o. (totals_of o).total) was in
            let was_passed = ap (λ o. (totals_of o).passed) was in
            rw same (ground (arith, rest', now, was_total, was_passed))
        | inr differs ↦ let rest' = rw (at, differs) at rest in rw differs rest'
      ]

-- ===== src/Report.antt =====
-- tools/oracle/internal/report/report.go: the outcome of each case and the summary of a run. The
-- JSON text and the printing are encoding/json's and fmt's; the summary is the list of its lines.
pub mod Totals
use postgrest_conformance.Base.{
  ℕ, suc, ◌+◌, Bool, true, false, List, [], ◌∷◌, ◌++◌, map, Option, none, some, if◌then◌else◌, ◌==◌,
  length,
}
use postgrest_conformance.Base.Text.{Bytes}
use postgrest_conformance.Base.Assoc.{Assoc, lookup, insert, keys}
use postgrest_conformance.Base.Int.{ℤ}
use postgrest_conformance.Base.Sort.{sort_strings}

-- `CaseResult`, over the type of a failure's message
pub record CaseResult {ℓ} (F : Type ℓ) : Type ℓ where
  pub id : ℤ
  pub feature : Bytes
  pub area : Bytes
  pub placement : Bytes
  pub pass : Bool
  pub failures : List F
  pub source : Bytes

-- `areaTotals`
pub record AreaTotals : Type 0 where
  pub passed : ℕ
  pub total : ℕ

-- one result more in an area
unfoldable pub tally : Bool → Option AreaTotals → AreaTotals
tally pass none = record { passed = if pass then 1 else 0; total = 1 }
tally pass (some a) = record {
  passed = if pass then a.passed + 1 else a.passed;
  total = a.total + 1;
}

abbrev pub zero_totals : AreaTotals
zero_totals = record { passed = 0; total = 0 }

module _ {ℓ} {F : Type ℓ} where
  -- the totals of the areas, by the first loop of `Summary`
  unfoldable pub area_totals : Assoc AreaTotals → List (CaseResult F) → Assoc AreaTotals
  unfolding insert lookup tally
  area_totals areas [] = areas
  area_totals areas (r ∷ rs) =
      area_totals (insert r.area (tally r.pass (lookup r.area areas)) areas) rs

  -- the counters that the same loop keeps of the whole run
  unfoldable pub count : AreaTotals → List (CaseResult F) → AreaTotals
  unfolding tally
  count t [] = t
  count t (r ∷ rs) = count (tally r.pass (some t)) rs

-- a line of the summary, or the lines of one failing case
pub data Line {ℓ} (F : Type ℓ) : Type ℓ where
  area_line : Bytes → AreaTotals → Line F
  case_lines : CaseResult F → Line F
  harness_line : Bytes → Line F
  total_line : AreaTotals → Line F
  routing_epilogue : Line F

module _ {ℓ} {F : Type ℓ} where
  -- each name is a key of the totals
  area_lines : Assoc AreaTotals → List Bytes → List (Line F)
  unfolding lookup
  area_lines areas [] = []
  area_lines areas (a ∷ rest) = elim (lookup a areas) [
    | none ↦ area_lines areas rest
    | some t ↦ area_line a t ∷ area_lines areas rest
  ]

  failing_lines : List (CaseResult F) → List (Line F)
  failing_lines [] = []
  failing_lines (r ∷ rs) = if r.pass then failing_lines rs else case_lines r ∷ failing_lines rs

  unfoldable pub all_pass : List (CaseResult F) → Bool
  unfolding count
  all_pass results = let t = count zero_totals results in t.passed == t.total

  -- `Summary`: the lines that it writes, and what it reports
  unfoldable pub summary : List (CaseResult F) → List Bytes → List (Line F) × Bool
  unfolding area_totals area_lines failing_lines count all_pass
  summary results findings =
      let areas = area_totals [] results in
      (
        area_lines areas (sort_strings (keys areas))
            ++ (failing_lines results
                ++ (map harness_line findings
                    ++ (total_line (count zero_totals results)
                        ∷ (if all_pass results then [] else routing_epilogue ∷ [])))),
        all_pass results,
      )

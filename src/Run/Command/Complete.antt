-- ===== src/Run/Command/Complete.antt =====
-- Lemmas on the whole command when nothing interrupts it.
use mathlib.Core.List.{Permᴰ, Perm}
use mathlib.Core.Logic.{∥∥₁_elim}
use postgrest_conformance.Base.{
  Bool, true, false, List, [], ◌∷◌, ◌≡◌, refl, sym, ◌∙◌, ap, subst, map, Option, if◌then◌else◌,
  is_empty, All,
}
use postgrest_conformance.Base.Text.{Bytes}
use postgrest_conformance.Base.Result.{Result, ok, err, >>=-eq-ok}
use postgrest_conformance.Value.{Value, Golib}
use postgrest_conformance.System.{Os, History, pure}
use postgrest_conformance.Cases.{Case}
use postgrest_conformance.Cases.Load.{load_all}
use postgrest_conformance.Cases.Load.Order.{distinct_ids-load_all}
use postgrest_conformance.Httpexec.Spec.{Wire}
use postgrest_conformance.Report.{CaseResult, all_pass}
use postgrest_conformance.Db.Server.{from_env}
use postgrest_conformance.Run.{RunError, cases_failed, filter_cases, check_selection}
use postgrest_conformance.Run.Flags.{parse_id_set, parse_string_set}
use postgrest_conformance.Run.Schedule.{All-keep}
use postgrest_conformance.Run.Loop.{
  CaseFailure, Table, place_each, placement_of, run_cases, clean_up, conclude, failed_count,
  when_written,
}
use postgrest_conformance.Run.Loop.Kinds.{case_ids, has_kind}
use postgrest_conformance.Run.Loop.Coverage.{ids_of, ids_of-run_cases}
use postgrest_conformance.Run.Loop.Once.{place_each-All}
use postgrest_conformance.Run.Command.{
  Options, Surroundings, selected_cases, plan, reset_sequences, execute_plan, cmd_run,
}

is_empty-permᴰ {ℓ} : {A : Type ℓ} (l m : List A) → Permᴰ l m → is_empty l ≡ is_empty m
is_empty-permᴰ l m Permᴰ.nil = refl
is_empty-permᴰ l m (Permᴰ.cons e p) = refl
is_empty-permᴰ l m (Permᴰ.swap e f) = refl
is_empty-permᴰ l m (Permᴰ.trans p q) = is_empty-permᴰ _ _ p ∙ is_empty-permᴰ _ _ q

Bool-set : IsSet Bool
Bool-set = hlevel

is_empty-perm {ℓ} : {A : Type ℓ} (l m : List A) → Perm l m → is_empty l ≡ is_empty m
is_empty-perm l m p = ∥∥₁_elim p (Bool-set _ _) (is_empty-permᴰ l m)

is_empty-map {ℓ κ} :
    {A : Type ℓ} {B : Type κ} (f : A → B) (l : List A) → is_empty (map f l) ≡ is_empty l
is_empty-map f [] = refl
is_empty-map f (x ∷ l) = refl

check_selection-ok :
    (cs : List Case) (u : Unit {0}) → check_selection cs ≡ ok u → is_empty cs ≡ false
unfolding check_selection
check_selection-ok [] u e = cc
check_selection-ok (c ∷ cs) u e = refl

abbrev planned_in : List Case × Table → Result RunError (List Case × Table) → List Case × Table
planned_in d (ok p) = p
planned_in d (err e) = d

-- What a plan that was made says of the cases: they are placed, and there is one to run.
plan-ok :
    (go : Golib) (o : Options) (docs : List (Bytes × Value)) (all selected : List Case)
    (table : Table)
    → load_all go docs ≡ ok all
    → plan go o all ≡ ok (selected, table)
    → All (λ c. has_kind c.request.kind (placement_of table c.id) ≡ true) selected
      × (is_empty (selected_cases go o selected) ≡ false)
unfolding plan
plan-ok go o docs all selected table loaded planned =
    let (ids, parsed, later) = >>=-eq-ok (parse_id_set o.cases) _ planned in
    let mine = filter_cases all ids (parse_string_set o.areas) in
    let (u, checked, rest) = >>=-eq-ok (check_selection (selected_cases go o mine)) _ later in
    let (t, placed, last) = >>=-eq-ok (place_each go [] all) _ rest in
    let same : (mine, t) ≡ (selected, table) = ap (planned_in (mine, t)) last in
    let all_placed = place_each-All go [] all t (distinct_ids-load_all go docs all loaded) placed in
    let filtered : All (λ c. has_kind c.request.kind (placement_of t c.id) ≡ true) mine =
      unfold filter_cases in
      All-keep (λ c. has_kind c.request.kind (placement_of t c.id) ≡ true) _ all all_placed in
    subst
      (λ (x : List Case × Table).
        All (λ c. has_kind c.request.kind (placement_of x.1 c.id) ≡ true) x.0
        × (is_empty (selected_cases go o x.0) ≡ false))
      same (filtered, check_selection-ok (selected_cases go o mine) u checked)

conclude_lem :
    (os : Os) (go : Golib) (wire : Wire) (results : List (CaseResult CaseFailure))
    (report : Option Bytes)
    → is_empty results ≡ false
    → conclude os go wire results report false
      ≡ when_written os go wire report
          (if all_pass results then ok tt else err (cases_failed (failed_count os go wire results)))
unfolding conclude
conclude_lem os go wire [] report h = cc
conclude_lem os go wire (r ∷ rs) report h = refl

-- A run of loaded cases whose plan is made, whose sequences are reset where that is asked for, and that is
-- not cancelled, reports each case of the effective selection once and no other, at least one, whatever
-- the servers, the requests and the commands come to. It ends with the error of writing the report if there is
-- one, and else without an error if all results pass, and with the number of the failed ones if not.
pub cmd_run_lem :
    (os : Os) (go : Golib) (wire : Wire) (around : Surroundings) (o : Options)
    (docs : List (Bytes × Value)) (all selected : List Case) (table : Table) (h g : History)
    → load_all go docs ≡ ok all
    → plan go o all ≡ ok (selected, table)
    → (if o.no_reset then pure tt else reset_sequences os go wire around o (from_env os)) h
      ≡ (ok tt, g)
    → ((f : History) → os.cancelled f ≡ false)
    → let report = (cmd_run os go wire around o all h).0 in
      Perm (ids_of report.0) (case_ids (selected_cases go o selected))
      × (is_empty report.0 ≡ false)
      × (report.1
          ≡ when_written os go wire (around.write_report report.0) (
              if all_pass report.0
              then ok tt
              else err (cases_failed (failed_count os go wire report.0))))
unfolding cmd_run execute_plan
cmd_run_lem os go wire around o docs all selected table h g loaded planned was_reset calm =
    let (placed, some_left) = plan-ok go o docs all selected table loaded planned in
    let pg = from_env os in
    let ran =
      run_cases os go wire o.bin pg o.dbname (around.uri pg o.dbname) o.skip_cli o.skip_http table
        selected g in
    let all_run : Perm (ids_of ran.0) (case_ids (selected_cases go o selected)) =
      ids_of-run_cases os go wire calm o.bin pg o.dbname (around.uri pg o.dbname) o.skip_cli
        o.skip_http table selected g placed in
    let left : is_empty ran.0 ≡ false =
      sym (is_empty-map (λ r. r.id) ran.0)
      ∙ is_empty-perm _ _ all_run
      ∙ is_empty-map (λ c. c.id) (selected_cases go o selected)
      ∙ some_left in
    rw (planned, was_reset)
      (
        all_run,
        left,
        rw (calm (clean_up os go wire pg ran.1)) (conclude_lem os go wire ran.0 _ left),
      )

-- ===== src/Run/Loop/Coverage.antt =====
-- Lemmas on the cases that the loops report.
use mathlib.Core.List.{Perm}
use mathlib.Core.List.Perm
use postgrest_conformance.Base.{
  Bool, true, false, List, [], ◌∷◌, ◌≡◌, refl, sym, ◌∙◌, ap, Option, none, some, if◌then◌else◌, map,
  keep, All,
}
use postgrest_conformance.Base.Text.{Bytes, codes}
use postgrest_conformance.Base.Assoc.{Assoc, lookup}
use postgrest_conformance.Base.Int.{ℤ}
use postgrest_conformance.Base.Result.{Result, ok, err}
use postgrest_conformance.Value.{Golib}
use postgrest_conformance.System.{Os, History, Failure}
use postgrest_conformance.Cases.{Case, Kind, http, cli}
use postgrest_conformance.Route.Bases.{base_configs}
use postgrest_conformance.Httpexec.Spec.{Wire}
use postgrest_conformance.Report.{CaseResult}
use postgrest_conformance.Db.Server.{PgEnv}
use postgrest_conformance.Instance.Process.{Instance}
use postgrest_conformance.Run.{HttpGroup, cases_of, groups_in_order, effective_selection, to_result}
use postgrest_conformance.Run.Loop.{
  CaseFailure, Table, State, placement_of, profile_of, result_all, run_cli_case, run_cli_cases,
  run_http_case, run_http_cases, serve_group, run_on, run_group, run_groups, run_http, run_cases,
  if_cli, put_result,
}
use postgrest_conformance.Run.Loop.Kinds.{
  case_ids, is_cli, is_http, has_kind, flat, unless, map-append, flat-groups_in_order,
  split-selection,
}

abbrev pub ids_of : List (CaseResult CaseFailure) → List ℤ
ids_of = map (λ r. r.id)

ids_of-result_all :
    (cs : List Case) (key : Bytes) (fs : List CaseFailure)
    → ids_of (result_all cs key fs) ≡ case_ids cs
unfolding result_all to_result
ids_of-result_all [] key fs = refl
ids_of-result_all (c ∷ cs) key fs = ap (λ l. c.id ∷ l) (ids_of-result_all cs key fs)

module _ (os : Os) (go : Golib) (wire : Wire) (calm : (h : History) → os.cancelled h ≡ false) where
  reported :
      (k : Kind) (c : Case) (fs : List CaseFailure)
      (rest skipped : List (CaseResult CaseFailure) × History) (cs : List Case)
      → ids_of rest.0 ≡ case_ids cs
      → ids_of skipped.0 ≡ case_ids cs
      → ids_of (if_cli k (put_result os go wire c (codes "cli") fs rest) skipped).0
        ≡ case_ids (if if_cli k true false then c ∷ cs else cs)
  unfolding to_result
  reported cli c fs rest skipped cs e e' = ap (λ l. c.id ∷ l) e
  reported http c fs rest skipped cs e e' = e'

  ids_of-run_cli_cases :
      (bin : Bytes) (pg : PgEnv) (dbname : Bytes) (cs : List Case) (h : History)
      → ids_of (run_cli_cases os go wire bin pg dbname cs h).0 ≡ case_ids (keep is_cli cs)
  unfolding run_cli_cases to_result
  ids_of-run_cli_cases bin pg dbname [] h = refl
  ids_of-run_cli_cases bin pg dbname (c ∷ cs) h =
      let ran = run_cli_case os go wire c bin (some pg) dbname h in
      rw (calm h) (
        reported c.request.kind c ran.0 (run_cli_cases os go wire bin pg dbname cs ran.1)
          (run_cli_cases os go wire bin pg dbname cs h) (keep is_cli cs)
          (ids_of-run_cli_cases bin pg dbname cs ran.1) (ids_of-run_cli_cases bin pg dbname cs h))

  ids_of-run_http_cases :
      (table : Table) (inst : Instance) (key : Bytes) (cs : List Case) (h : History)
      → ids_of (run_http_cases os go wire table inst key cs h).0 ≡ case_ids cs
  unfolding run_http_cases to_result
  ids_of-run_http_cases table inst key [] h = refl
  ids_of-run_http_cases table inst key (c ∷ cs) h =
      let ran = run_http_case os go wire c inst.port (profile_of (placement_of table c.id)) h in
      rw (calm h) (ap (λ l. c.id ∷ l) (ids_of-run_http_cases table inst key cs ran.1))

  ids_of-serve_group :
      (table : Table) (g : HttpGroup) (reg : List Instance)
      (came : Result Failure Instance × History)
      → ids_of (serve_group os go wire table g reg came).0 ≡ case_ids (cases_of g)
  ids_of-serve_group table g reg (err e, h) = ids_of-result_all (cases_of g) g.key _
  ids_of-serve_group table g reg (ok inst, h) =
      ids_of-run_http_cases table inst g.key (cases_of g) h

  ids_of-run_on :
      (bin : Bytes) (pg : PgEnv) (uri : Bytes) (table : Table) (g : HttpGroup)
      (base : Option (Assoc Bytes)) (s : State)
      → ids_of (run_on os go wire bin pg uri table g base s).0 ≡ case_ids (cases_of g)
  ids_of-run_on bin pg uri table g none (reg, h) = ids_of-result_all (cases_of g) g.key _
  ids_of-run_on bin pg uri table g (some base) (reg, h) = ids_of-serve_group table g reg _

  ids_of-run_groups :
      (bin : Bytes) (pg : PgEnv) (uri : Bytes) (table : Table) (gs : List HttpGroup) (s : State)
      → ids_of (run_groups os go wire bin pg uri table gs s).0 ≡ case_ids (flat gs)
  unfolding run_groups run_group
  ids_of-run_groups bin pg uri table [] s = refl
  ids_of-run_groups bin pg uri table (g ∷ gs) s =
      let ran = run_on os go wire bin pg uri table g (lookup g.base base_configs) s in
      rw (calm s.1) (
        map-append (λ r. r.id) ran.0 _
        ∙ rw
            (
              ids_of-run_on bin pg uri table g (lookup g.base base_configs) s,
              ids_of-run_groups bin pg uri table gs ran.1,
            )
            (sym (map-append (λ c. c.id) (cases_of g) (flat gs))))

  Perm-run_http :
      (bin : Bytes) (pg : PgEnv) (uri : Bytes) (table : Table) (selected : List Case) (h : History)
      → All (λ c. has_kind c.request.kind (placement_of table c.id) ≡ true) selected
      → Perm
          (ids_of (run_http os go wire bin pg uri table selected h).0)
          (case_ids (keep is_http selected))
  unfolding run_http
  Perm-run_http bin pg uri table selected h placed =
      rw
        (ids_of-run_groups bin pg uri table (groups_in_order (placement_of table) selected) ([], h))
        (Perm.map (λ c. c.id) (flat-groups_in_order (placement_of table) selected placed))

  Perm-by_cli :
      (bin : Bytes) (pg : PgEnv) (dbname : Bytes) (skip : Bool) (selected : List Case) (h : History)
      → Perm
          (ids_of (if skip then ([], h) else run_cli_cases os go wire bin pg dbname selected h).0)
          (case_ids (unless skip (keep is_cli selected)))
  Perm-by_cli bin pg dbname true selected h = Perm.refl []
  Perm-by_cli bin pg dbname false selected h =
      rw (ids_of-run_cli_cases bin pg dbname selected h) (Perm.refl _)

  Perm-by_http :
      (bin : Bytes) (pg : PgEnv) (uri : Bytes) (skip : Bool) (table : Table) (selected : List Case)
      (h : History)
      → All (λ c. has_kind c.request.kind (placement_of table c.id) ≡ true) selected
      → Perm
          (ids_of
            (if skip then ([], ([], h)) else run_http os go wire bin pg uri table selected h).0)
          (case_ids (unless skip (keep is_http selected)))
  Perm-by_http bin pg uri true table selected h placed = Perm.refl []
  Perm-by_http bin pg uri false table selected h placed =
      Perm-run_http bin pg uri table selected h placed

  -- A run that is not cancelled, of cases that are all placed, reports each case of the effective
  -- selection once and no other, whatever the servers, the requests and the commands come to: the ids of
  -- its results are those of the selection, rearranged.
  pub ids_of-run_cases :
      (bin : Bytes) (pg : PgEnv) (dbname uri : Bytes) (skip_cli skip_http : Bool) (table : Table)
      (selected : List Case) (h : History)
      → All (λ c. has_kind c.request.kind (placement_of table c.id) ≡ true) selected
      → Perm
          (ids_of (run_cases os go wire bin pg dbname uri skip_cli skip_http table selected h).0)
          (case_ids (effective_selection selected skip_cli skip_http))
  unfolding run_cases
  ids_of-run_cases bin pg dbname uri skip_cli skip_http table selected h placed =
      let by_cli =
        if skip_cli then ([], h) else run_cli_cases os go wire bin pg dbname selected h in
      let split = Perm.map (λ c. c.id) (split-selection skip_cli skip_http selected) in
      rw
        (map-append (λ r. r.id) by_cli.0
          (if skip_http
            then ([], ([], by_cli.1))
            else run_http os go wire bin pg uri table selected by_cli.1).0)
        (Perm.trans
          (Perm.append (Perm-by_cli bin pg dbname skip_cli selected h)
            (Perm-by_http bin pg uri skip_http table selected by_cli.1 placed))
          (rw
            (map-append (λ c. c.id) (unless skip_cli (keep is_cli selected))
              (unless skip_http (keep is_http selected)))
            at split))

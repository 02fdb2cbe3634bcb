-- ===== src/Run/Loop.antt =====
-- tools/oracle/cmd/oracle/run.go: the run itself, the cases of the command line first, then the groups of the
-- cases over HTTP, one PostgREST process for each group. What the system answers is the `Os` of System; the
-- signal's own goroutine, which stops the registered processes, stands in Run/Interrupt.
pub mod Once
pub mod Kinds
pub mod Coverage
pub mod Servers
use postgrest_conformance.Base.{
  ℕ, suc, zero, Bool, true, false, not, ◌&&◌, List, [], ◌∷◌, ◌++◌, Option, none, some,
  if◌then◌else◌, ◌==◌, is_empty, keep,
}
use postgrest_conformance.Base.Text.{Bytes, codes}
use postgrest_conformance.Base.Assoc.{Assoc, lookup}
use postgrest_conformance.Base.Int.{ℤ, int_eq}
use postgrest_conformance.Base.Result.{Result, ok, err, ◌>>=◌}
use postgrest_conformance.Value.{Golib}
use postgrest_conformance.System.{Os, Act, History, Failure, send_request}
use postgrest_conformance.Cases.{Case, Kind, http, cli}
use postgrest_conformance.Route.{Placement, RouteError, route}
use postgrest_conformance.Route.Bases.{base_configs}
use postgrest_conformance.Httpexec.Spec.{Wire, Spec, SpecError, build_spec}
use postgrest_conformance.Assert.{CliResult, HttpResponse}
use postgrest_conformance.Assert
use postgrest_conformance.Assert.Check.{check_http, check_cli}
use postgrest_conformance.Report.{CaseResult, all_pass}
use postgrest_conformance.Db.Server.{PgEnv, psql, drop_config_role}
use postgrest_conformance.Instance.Process.{Instance, start, stop}
use postgrest_conformance.Cliexec
use postgrest_conformance.Run.{
  HttpGroup, cases_of, groups_in_order, to_result, with_conn_user_anon, RunError, no_results_error,
  cases_failed, interrupted, not_written, unroutable,
}

-- What a case failed by: an assertion, the execution of its command or the starting of its instance, the
-- building of its request, the sending of it, or a base that there is not.
pub data CaseFailure : Type 0 where
  assertion : Assert.Failure → CaseFailure
  execution : Failure → CaseFailure
  bad_spec : SpecError → CaseFailure
  transport : Bytes → CaseFailure
  no_base : Bytes → CaseFailure

abbrev pub assertions : List Assert.Failure → List CaseFailure
assertions [] = []
assertions (f ∷ fs) = assertion f ∷ assertions fs

-- The placements of the cases by their ids, the last in front
abbrev pub Table : Type 0
Table = List (ℤ × Placement)

unfoldable pub placement_of : Table → ℤ → Option Placement
unfolding int_eq
placement_of [] id = none
placement_of ((n, p) ∷ table) id = if int_eq n id then some p else placement_of table id

abbrev pub routed : Result RouteError Placement → Result RunError Placement
routed (ok p) = ok p
routed (err e) = err (unroutable e)

-- the loop that fills `placements`
unfoldable pub place_each : Golib → Table → List Case → Result RunError Table
unfolding route
place_each go table [] = ok table
place_each go table (c ∷ cs) = routed (route go c) >>= λ p. place_each go ((c.id, p) ∷ table) cs

-- the injected profile of `placements[c.ID]`
abbrev pub profile_of : Option Placement → Bytes
profile_of none = []
profile_of (some p) = p.inject_profile

-- the registry's set of instances, and what was done
abbrev pub State : Type 0
State = List Instance × History

-- `remove` of `instanceRegistry`; instances are told apart by their processes
unfoldable pub remove : Instance → List Instance → List Instance
remove i reg = keep (λ j. not (j.process == i.process)) reg

unfoldable pub result_all : List Case → Bytes → List CaseFailure → List (CaseResult CaseFailure)
unfolding to_result
result_all [] key failures = []
result_all (c ∷ cs) key failures = to_result c key failures ∷ result_all cs key failures

abbrev pub answered : Result Bytes HttpResponse → Result CaseFailure HttpResponse
answered (ok r) = ok r
answered (err e) = err (transport e)

abbrev pub if_cli {ℓ} : {A : Type ℓ} → Kind → A → A → A
if_cli cli x y = x
if_cli http x y = y

module _ (os : Os) (go : Golib) (wire : Wire) where
  abbrev pub judge_cli : Case → Result Failure CliResult × History → List CaseFailure × History
  judge_cli c (err e, h) = (execution e ∷ [], h)
  judge_cli c (ok r, h) = (assertions (check_cli go c r), h)

  -- `runCLICase`
  unfoldable pub run_cli_case :
      Case → Bytes → Option PgEnv → Bytes → History → List CaseFailure × History
  unfolding Cliexec.run_case check_cli
  run_cli_case c bin pg dbname h = judge_cli c (Cliexec.run_case os go c bin pg dbname h)

  abbrev pub judge_http : Case → Result Bytes HttpResponse → List CaseFailure
  judge_http c (err e) = transport e ∷ []
  judge_http c (ok r) = assertions (check_http go c r)

  abbrev pub send : Case → ℕ → Result SpecError Spec → History → List CaseFailure × History
  send c port (err e) h = (bad_spec e ∷ [], h)
  send c port (ok spec) h = (judge_http c (os.response h port spec), send_request port spec ∷ h)

  -- `runHTTPCase`
  unfoldable pub run_http_case : Case → ℕ → Bytes → History → List CaseFailure × History
  unfolding build_spec check_http
  run_http_case c port profile h = send c port (build_spec wire c profile) h

  abbrev pub put_result :
      Case
      → Bytes
      → List CaseFailure
      → List (CaseResult CaseFailure) × History
      → List (CaseResult CaseFailure) × History
  put_result c key failures (rs, h) = (to_result c key failures ∷ rs, h)

  -- the loop over the cases of the command line
  unfoldable pub run_cli_cases :
      Bytes → PgEnv → Bytes → List Case → History → List (CaseResult CaseFailure) × History
  unfolding run_cli_case
  run_cli_cases bin pg dbname [] h = ([], h)
  run_cli_cases bin pg dbname (c ∷ cs) h =
      let ran = run_cli_case c bin (some pg) dbname h in
      let skipped = run_cli_cases bin pg dbname cs h in
      let rest = run_cli_cases bin pg dbname cs ran.1 in
      if os.cancelled h
      then ([], h)
      else if_cli c.request.kind (put_result c (codes "cli") ran.0 rest) skipped

  -- the loop over the cases of one group
  unfoldable pub run_http_cases :
      Table → Instance → Bytes → List Case → History → List (CaseResult CaseFailure) × History
  unfolding run_http_case placement_of
  run_http_cases table inst key [] h = ([], h)
  run_http_cases table inst key (c ∷ cs) h =
      let ran = run_http_case c inst.port (profile_of (placement_of table c.id)) h in
      let rest = run_http_cases table inst key cs ran.1 in
      if os.cancelled h then ([], h) else put_result c key ran.0 rest

  -- the instance stopped and taken out of the registry
  abbrev pub end_group :
      Instance
      → List Instance
      → List (CaseResult CaseFailure) × History
      → List (CaseResult CaseFailure) × State
  end_group inst reg (rs, h) = (rs, (remove inst reg, stop os inst h))

  abbrev pub serve_group :
      Table
      → HttpGroup
      → List Instance
      → Result Failure Instance × History
      → List (CaseResult CaseFailure) × State
  serve_group table g reg (err e, h) = (result_all (cases_of g) g.key (execution e ∷ []), (reg, h))
  serve_group table g reg (ok inst, h) =
      end_group inst (inst ∷ reg) (run_http_cases table inst g.key (cases_of g) h)

  abbrev pub run_on :
      Bytes
      → PgEnv
      → Bytes
      → Table
      → HttpGroup
      → Option (Assoc Bytes)
      → State
      → List (CaseResult CaseFailure) × State
  run_on bin pg uri table g none (reg, h) =
      (result_all (cases_of g) g.key (no_base g.base ∷ []), (reg, h))
  run_on bin pg uri table g (some base) (reg, h) =
      serve_group table g reg
        (start os bin (with_conn_user_anon base g.base pg.user) g.overlay uri g.safe_update h)

  -- one turn of the loop over the groups
  unfoldable pub run_group :
      Bytes → PgEnv → Bytes → Table → HttpGroup → State → List (CaseResult CaseFailure) × State
  unfolding run_http_cases result_all remove start stop with_conn_user_anon lookup
  run_group bin pg uri table g s = run_on bin pg uri table g (lookup g.base base_configs) s

  abbrev pub put_results :
      List (CaseResult CaseFailure)
      → List (CaseResult CaseFailure) × State
      → List (CaseResult CaseFailure) × State
  put_results rs (later, s) = (rs ++ later, s)

  -- the loop over the groups
  unfoldable pub run_groups :
      Bytes → PgEnv → Bytes → Table → List HttpGroup → State → List (CaseResult CaseFailure) × State
  unfolding run_group
  run_groups bin pg uri table [] s = ([], s)
  run_groups bin pg uri table (g ∷ gs) s =
      let ran = run_group bin pg uri table g s in
      let rest = run_groups bin pg uri table gs ran.1 in
      if os.cancelled s.1 then ([], s) else put_results ran.0 rest

  -- `stopAll`
  unfoldable pub stop_all : List Instance → History → History
  unfolding stop
  stop_all [] h = h
  stop_all (i ∷ reg) h = stop_all reg (stop os i h)

  unfoldable pub run_http :
      Bytes → PgEnv → Bytes → Table → List Case → History → List (CaseResult CaseFailure) × State
  unfolding run_groups groups_in_order
  run_http bin pg uri table selected h =
      run_groups bin pg uri table (groups_in_order (placement_of table) selected) ([], h)

  -- the part of `cmdRun` that runs the cases: the results, the registry and what was done
  unfoldable pub run_cases :
      Bytes
      → PgEnv
      → Bytes
      → Bytes
      → Bool
      → Bool
      → Table
      → List Case
      → History
      → List (CaseResult CaseFailure) × State
  unfolding run_cli_cases run_http
  run_cases bin pg dbname uri skip_cli skip_http table selected h =
      let by_cli = if skip_cli then ([], h) else run_cli_cases bin pg dbname selected h in
      let by_http =
        if skip_http then ([], ([], by_cli.1)) else run_http bin pg uri table selected by_cli.1 in
      put_results by_cli.0 by_http

  -- the cleanup behind the loops: what is still registered, and the role
  unfoldable pub clean_up : PgEnv → State → History
  unfolding stop_all psql
  clean_up pg (reg, h) =
      (psql os pg (codes "postgres") [] (codes "-c" ∷ drop_config_role ∷ []) (stop_all reg h)).1

  -- `nFailed`
  unfoldable pub failed_count : List (CaseResult CaseFailure) → ℕ
  failed_count [] = 0
  failed_count (r ∷ rs) = let rest = failed_count rs in if r.pass then rest else suc rest

  abbrev pub outcome_of : List (CaseResult CaseFailure) → Bool → Result RunError (Unit {0})
  outcome_of results cancelled =
      if cancelled
      then err interrupted
      else if all_pass results
      then ok tt
      else err (cases_failed (failed_count results))

  abbrev pub when_written : Option Bytes → Result RunError (Unit {0}) → Result RunError (Unit {0})
  when_written none outcome = outcome
  when_written (some e) outcome = err (not_written e)

  -- the end of `cmdRun`, of whether the report could be written
  unfoldable pub conclude :
      List (CaseResult CaseFailure) → Option Bytes → Bool → Result RunError (Unit {0})
  unfolding all_pass failed_count no_results_error
  conclude [] report cancelled = err (no_results_error cancelled)
  conclude (r ∷ rs) report cancelled = when_written report (outcome_of (r ∷ rs) cancelled)

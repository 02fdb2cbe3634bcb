-- ===== src/Run/Command.antt =====
-- tools/oracle/cmd/oracle/run.go and db.go: the command `oracle run` as a whole, from the loaded cases to its
-- error. Its flags are parsed, and the binary is there.
pub mod Complete
use postgrest_conformance.Base.{
  ℕ, Bool, true, false, List, [], ◌∷◌, Option, none, some, if◌then◌else◌,
}
use postgrest_conformance.Base.Text.{Bytes, codes}
use postgrest_conformance.Base.Result.{Result, ok, err, ◌>>=◌}
use postgrest_conformance.Value.{Golib}
use postgrest_conformance.System.{Os, Act, History, Failure, pure, fail, query_failed, ◌>>>=◌}
use postgrest_conformance.Cases.{Case}
use postgrest_conformance.Httpexec.Spec.{Wire}
use postgrest_conformance.Report.{CaseResult}
use postgrest_conformance.Db.Server.{PgEnv, from_env}
use postgrest_conformance.Db.Baselines.{SequenceBaseline, Codec, baseline_path, restore_sequences}
use postgrest_conformance.Run.{
  RunError, not_reset, filter_cases, effective_selection, check_selection,
}
use postgrest_conformance.Run.Flags.{parse_id_set, parse_string_set}
use postgrest_conformance.Run.Loop.{
  CaseFailure, Table, State, place_each, run_cases, clean_up, conclude,
}

-- The flags of `run`, with the path of the binary.
pub record Options : Type 0 where
  pub cases : Bytes
  pub areas : Bytes
  pub bin : Bytes
  pub dbname : Bytes
  pub skip_cli : Bool
  pub skip_http : Bool
  pub no_reset : Bool

-- What the command takes from outside its own logic: the text of the connection URI (net/url), the baseline
-- that is read from a path, and the error of writing the report.
pub record Surroundings : Type 0 where
  pub codec : Codec
  pub uri : PgEnv → Bytes → Bytes
  pub baselines : Bytes
  pub read_baseline : Bytes → Result Bytes SequenceBaseline
  pub write_report : List (CaseResult CaseFailure) → Option Bytes

module _ (go : Golib) (o : Options) where
  abbrev pub selected_cases : List Case → List Case
  selected_cases selected = effective_selection selected o.skip_cli o.skip_http

  -- the part of `cmdRun` that chooses and places the cases, in front of every effect
  unfoldable pub plan : List Case → Result RunError (List Case × Table)
  unfolding parse_id_set parse_string_set filter_cases check_selection effective_selection
      place_each
  plan all = parse_id_set o.cases >>= λ ids.
      (let selected = filter_cases all ids (parse_string_set o.areas) in
        check_selection (selected_cases selected) >>= λ _.
        (place_each go [] all >>= λ table. ok (selected, table)))

module _ (os : Os) (go : Golib) (wire : Wire) (around : Surroundings) (o : Options) where
  abbrev pub baseline_read : Result Bytes SequenceBaseline → Act SequenceBaseline
  baseline_read (ok b) = pure b
  baseline_read (err e) = fail (query_failed e)

  -- `resetSequences`
  unfoldable pub reset_sequences : PgEnv → Act (Unit {0})
  unfolding baseline_path restore_sequences
  reset_sequences p =
      baseline_read (around.read_baseline (baseline_path os around.baselines p o.dbname))
      >>>= restore_sequences os around.codec p

  -- the results of the cases, and the error that the command ends with
  abbrev pub Report : Type 0
  Report = List (CaseResult CaseFailure) × Result RunError (Unit {0})

  abbrev pub closing : PgEnv → List (CaseResult CaseFailure) × State → Report × History
  closing pg (results, s) = (
    (
      results,
      conclude os go wire results (around.write_report results)
          (os.cancelled (clean_up os go wire pg s)),
    ),
    clean_up os go wire pg s,
  )

  -- the loops and what follows them
  unfoldable pub execute_plan : PgEnv → List Case × Table → History → Report × History
  unfolding run_cases clean_up conclude
  execute_plan pg (selected, table) h = closing pg (
      run_cases os go wire o.bin pg o.dbname (around.uri pg o.dbname) o.skip_cli o.skip_http table
        selected h)

  abbrev pub when_reset :
      PgEnv → List Case × Table → Result Failure (Unit {0}) × History → Report × History
  when_reset pg planned (ok _, h) = execute_plan pg planned h
  when_reset pg planned (err e, h) = (([], err (not_reset e)), h)

  abbrev pub when_planned : Result RunError (List Case × Table) → History → Report × History
  when_planned (err e) h = (([], err e), h)
  when_planned (ok planned) h =
      when_reset (from_env os) planned
        ((if o.no_reset then pure tt else reset_sequences (from_env os)) h)

  -- `cmdRun`
  unfoldable pub cmd_run : List Case → History → Report × History
  unfolding plan reset_sequences execute_plan from_env
  cmd_run all h = when_planned (plan go o all) h

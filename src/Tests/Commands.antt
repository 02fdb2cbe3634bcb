-- ===== src/Tests/Commands.antt =====
-- Examples of commands: databases, cases of the command line, instances and a whole run.
use mathlib.Core.List.{Perm}
use postgrest_conformance.Base.{
  true, false, not, ◌&&◌, ◌||◌, List, [], ◌∷◌, none, some, ◌≡◌, refl, if◌then◌else◌, is_empty,
  length, all, any,
}
use postgrest_conformance.Base.Text.{Bytes, codes, split_on, str_eq}
use postgrest_conformance.Base.Assoc.{keys}
use postgrest_conformance.Base.Sort.{sort, sort_strings}
use postgrest_conformance.Base.Int.{pos}
use postgrest_conformance.Base.Result.{ok, err, is_ok}
use postgrest_conformance.Value.{Value}
use postgrest_conformance.System.{History, call_psql, invalid_dbname, create_file}
use postgrest_conformance.System.Files.{temp_files}
use postgrest_conformance.System.Scripts.{Ran}
use postgrest_conformance.Cases.Load.{load_all}
use postgrest_conformance.Report.{all_pass}
use postgrest_conformance.Db.Server.{setup, teardown, validate_dbname}
use postgrest_conformance.Db.Building.{setup_script, setup-Ran}
use postgrest_conformance.Db.Baselines.{capture_sequences, restore_sequences}
use postgrest_conformance.Db.Restoring.{
  is_oid, are_set, oid_call, set_call, restore_sequences_lem, invalid_dbname_lem,
}
use postgrest_conformance.Db.Naming.{baseline_name-inj}
use postgrest_conformance.Cliexec.{render_config_file, run_case}
use postgrest_conformance.Cliexec.Rendering.{
  strings, entries_at, read_lines, read_lines-render_config_file,
}
use postgrest_conformance.Cliexec.Cleanup.{has_good_file, run_case-temp_files}
use postgrest_conformance.Cliexec.Preconditions.{processes, run_case-no_database}
use postgrest_conformance.Instance.Process.{start}
use postgrest_conformance.Instance.Running.{running, Started, start-Started}
use postgrest_conformance.Route.{
  route_http, id_in, choose_base, routes_to_auth, area_base, overlay_of, own_overlay, place,
  unsatisfied, group_key_of, add_extras,
}
use postgrest_conformance.Run.{wanted_area, cases_failed}
use postgrest_conformance.Run.Flags.{
  is_blank, is_id_piece, is_piece_of, names, lists_id, parse_id_set, parse_string_set,
  parse_filters_lem,
}
use postgrest_conformance.Run.Loop.{Table, run_http, when_written, failed_count}
use postgrest_conformance.Run.Loop.Coverage.{ids_of}
use postgrest_conformance.Run.Loop.Kinds.{case_ids}
use postgrest_conformance.Run.Loop.Servers.{Tidy, run_http-Tidy}
use postgrest_conformance.Run.Command.{Options, Surroundings, selected_cases, plan, cmd_run}
use postgrest_conformance.Run.Command.Complete.{cmd_run_lem}
use postgrest_conformance.Tests.Samples.{library, wire, loaded_case, case_file, placement}
use postgrest_conformance.Tests.Machine.{
  machine, chain, server, taken, misnamed, json, settings, cli_case, db_case,
}

abbrev earlier : History
earlier = create_file (codes "/tmp/a") ∷ []

setup-Ran_example :
    Ran machine
      (setup_script machine server (codes "conf") (codes "fixtures") chain)
      earlier
      (setup machine server (codes "conf") (codes "fixtures") earlier)
setup-Ran_example =
    setup-Ran machine server (codes "conf") (codes "fixtures") chain earlier
      (unfold validate_dbname in refl) (λ g. refl)

restore_sequences_lem_example :
    let live = is_oid (pos 5) (machine.query_answer earlier (oid_call machine server taken)) in
    let asked = call_psql (oid_call machine server taken) ∷ earlier in
    (is_ok (restore_sequences machine json server taken earlier).0
      ≡ (live && are_set machine json server taken asked))
    × ((restore_sequences machine json server taken earlier).1 ≡ (
        if live && not (is_empty taken.sequences)
        then call_psql (set_call machine json server taken) ∷ asked
        else asked))
restore_sequences_lem_example =
    restore_sequences_lem machine json server taken earlier (unfold validate_dbname in refl)

invalid_dbname_lem_example :
    (setup machine server misnamed.database (codes "f") earlier ≡ (err invalid_dbname, earlier))
    × (teardown machine server misnamed.database earlier ≡ (err invalid_dbname, earlier))
    × (capture_sequences machine json server misnamed.database earlier
        ≡ (err invalid_dbname, earlier))
    × (restore_sequences machine json server misnamed earlier ≡ (err invalid_dbname, earlier))
invalid_dbname_lem_example =
    invalid_dbname_lem machine json server misnamed (codes "f") earlier refl

baseline_name-inj_example :
    (server.host ≡ server.host) × (server.port ≡ server.port) × (codes "conf" ≡ codes "conf")
baseline_name-inj_example =
    baseline_name-inj server server (codes "conf") (codes "conf") refl refl refl refl refl

read_lines-render_config_file_example :
    (text : Bytes) × (render_config_file library (strings settings) ≡ ok text)
    × (read_lines (length (sort_strings (keys settings))) text
        ≡ some (entries_at settings (sort_strings (keys settings))))
read_lines-render_config_file_example = read_lines-render_config_file library settings refl

renders : has_good_file library cli_case ≡ true
unfolding has_good_file render_config_file sort str_eq
renders = refl

run_case-temp_files_example :
    temp_files (run_case machine library cli_case (codes "postgrest") none [] earlier).1
    ≡ temp_files earlier
run_case-temp_files_example =
    run_case-temp_files machine library cli_case (codes "postgrest") none [] earlier renders

run_case-no_database_example :
    (is_ok (run_case machine library db_case (codes "postgrest") none (codes "conf") earlier).0
      ≡ false)
    × (processes
          (run_case machine library db_case (codes "postgrest") none (codes "conf") earlier).1
        ≡ processes earlier)
run_case-no_database_example =
    run_case-no_database machine library db_case (codes "postgrest") (codes "conf") earlier refl

start-Started_example :
    Started machine
      (start machine (codes "postgrest") [] [] (codes "uri") true earlier)
      (running earlier)
start-Started_example = start-Started machine (codes "postgrest") [] [] (codes "uri") true earlier

parse_filters_lem_example :
    (is_ok (parse_id_set (codes "7, 9"))
      ≡ (is_blank (codes "7, 9") || all is_id_piece (split_on b',' (codes "7, 9"))))
    × (lists_id (parse_id_set (codes "7, 9")) (pos 9) ≡ (
        is_blank (codes "7, 9")
        || (all is_id_piece (split_on b',' (codes "7, 9"))
            && any (is_piece_of (pos 9)) (split_on b',' (codes "7, 9")))))
    × (wanted_area (parse_string_set (codes "7, 9")) (codes "rpc")
        ≡ (is_blank (codes "7, 9") || any (names (codes "rpc")) (split_on b',' (codes "7, 9"))))
parse_filters_lem_example = parse_filters_lem (codes "7, 9") (pos 9) (codes "rpc")

reads_ids : parse_id_set (codes "7, 9,") ≡ ok (some (pos 9 ∷ pos 7 ∷ []))
unfolding parse_id_set
reads_ids = refl

refuses_ids : is_ok (parse_id_set (codes "7,x")) ≡ false
unfolding parse_id_set
refuses_ids = refl

abbrev table : Table
table = (pos 7, placement) ∷ []

run_http-Tidy_example :
    Tidy machine library wire
      (running earlier)
      (run_http machine library wire
        (codes "postgrest")
        server
        (codes "uri")
        table
        (loaded_case ∷ [])
        earlier).1
run_http-Tidy_example =
    run_http-Tidy machine library wire (codes "postgrest") server (codes "uri") table
      (loaded_case ∷ []) earlier (λ later. refl)

abbrev options : Options
options = record {
  cases = codes "7";
  areas = [];
  bin = codes "postgrest";
  dbname = codes "conf";
  skip_cli = false;
  skip_http = false;
  no_reset = true;
}

abbrev around : Surroundings
around = record {
  codec = json;
  uri = λ p name. codes "postgresql://";
  baselines = codes ".cache";
  read_baseline = λ path. ok taken;
  write_report = λ results. none;
}

abbrev files : List (Bytes × Value)
files = (codes "0007.yaml", case_file) ∷ []

loads_all : load_all library files ≡ ok (loaded_case ∷ [])
unfolding load_all
loads_all = refl

plans : plan library options (loaded_case ∷ []) ≡ ok (loaded_case ∷ [], table)
unfolding plan route_http id_in choose_base str_eq routes_to_auth area_base overlay_of own_overlay
    place unsatisfied group_key_of add_extras
plans = refl

cmd_run_lem_example :
    let report = (cmd_run machine library wire around options (loaded_case ∷ []) earlier).0 in
    Perm (ids_of report.0) (case_ids (selected_cases library options (loaded_case ∷ [])))
    × (is_empty report.0 ≡ false)
    × (report.1
        ≡ when_written machine library wire (around.write_report report.0) (
            if all_pass report.0
            then ok tt
            else err (cases_failed (failed_count machine library wire report.0))))
cmd_run_lem_example =
    cmd_run_lem machine library wire around options files (loaded_case ∷ []) (loaded_case ∷ [])
      table earlier earlier loads_all plans refl (λ f. refl)

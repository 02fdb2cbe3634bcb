-- ===== src/Cliexec/Preconditions.antt =====
-- Lemmas on the database of a case of the command line.
use postgrest_conformance.Base.{
  false, List, [], ◌∷◌, ◌≡◌, refl, ◌∙◌, inl, inr, none, Bool-cases, is_empty,
}
use postgrest_conformance.Base.Text.{Bytes, codes}
use postgrest_conformance.Base.Assoc.{Assoc}
use postgrest_conformance.Base.Result.{Result, ok, err, is_ok, Result-cases}
use postgrest_conformance.Value.{Value, Golib}
use postgrest_conformance.System.{
  Os, Failure, History, PsqlCall, create_file, remove_file, close_file, write_file, call_psql,
  execute, start_server, poll_server, mark_stopped, terminate_server, kill_server, reap_server,
  send_request, bind_port, ◌>>>=◌, ◌>>>◌, deferring, or_else, create_temp_file, write_to, close,
  remove_temp, resume, pure, no_database,
}
use postgrest_conformance.System.Scripts.{Option-cases, Ran, Ran-run_psql, Ran-last}
use postgrest_conformance.Cases.{Case}
use postgrest_conformance.Db.Server.{PgEnv, psql, drop_config_role}
use postgrest_conformance.Db.Building.{statement}
use postgrest_conformance.Cliexec.{
  render_config_file, fill_config_file, write_config_file, build_argv, apply_preconditions,
  setup_db_config, database_env, run_env, run_with, run_case,
}

-- The statements that prepare the role, in the order of the case's preconditions.
abbrev pub config_script : Os → PgEnv → Bytes → List Bytes → List PsqlCall
config_script os pg dbname [] =
    statement os pg dbname (codes "ALTER ROLE db_config_authenticator PASSWORD 'oracle_cli'") ∷ []
config_script os pg dbname (stmt ∷ stmts) =
    statement os pg dbname stmt ∷ config_script os pg dbname stmts

-- The processes and the calls of psql in a history.
unfoldable pub processes : History → History
processes [] = []
processes (create_file p ∷ h) = processes h
processes (close_file p ∷ h) = processes h
processes (remove_file p ∷ h) = processes h
processes (write_file p t ∷ h) = processes h
processes (call_psql c ∷ h) = call_psql c ∷ processes h
processes (execute bin argv env ∷ h) = execute bin argv env ∷ processes h
processes (start_server n bin env ∷ h) = start_server n bin env ∷ processes h
processes (poll_server n ∷ h) = processes h
processes (mark_stopped n ∷ h) = processes h
processes (terminate_server n ∷ h) = processes h
processes (kill_server n ∷ h) = processes h
processes (reap_server n ∷ h) = processes h
processes (send_request n r ∷ h) = processes h
processes (bind_port ∷ h) = processes h

module _ (os : Os) (go : Golib) where
  Ran-apply_preconditions :
      (pg : PgEnv) (dbname : Bytes) (stmts : List Bytes) (h : History)
      → Ran os (config_script os pg dbname stmts) h (apply_preconditions os go pg dbname stmts h)
  unfolding apply_preconditions psql
  Ran-apply_preconditions pg dbname [] h = Ran-last os _ h
  Ran-apply_preconditions pg dbname (stmt ∷ stmts) h =
      Ran-run_psql os (statement os pg dbname stmt) (config_script os pg dbname stmts)
        (apply_preconditions os go pg dbname stmts) (Ran-apply_preconditions pg dbname stmts) h

  -- The role of a case is prepared by dropping it, running the case's preconditions in their order, and
  -- setting its password, up to the first call that fails.
  pub setup_db_config-Ran :
      (pg : PgEnv) (dbname : Bytes) (stmts : List Bytes) (h : History)
      → Ran os
          (statement os pg dbname drop_config_role ∷ config_script os pg dbname stmts)
          h
          (setup_db_config os go pg dbname stmts h)
  unfolding setup_db_config psql
  setup_db_config-Ran pg dbname stmts h =
      Ran-run_psql os (statement os pg dbname drop_config_role) (config_script os pg dbname stmts)
        (apply_preconditions os go pg dbname stmts) (Ran-apply_preconditions pg dbname stmts) h

  fill_config_file-processes :
      (m : Assoc Value) (path : Bytes) (h : History)
      → processes (fill_config_file os go m path (create_file path ∷ h)).1 ≡ processes h
  unfolding fill_config_file processes ◌>>>=◌ ◌>>>◌ or_else write_to close
  fill_config_file-processes m path h = elim (Result-cases (render_config_file go m)) [
    | inr (key, panics) ↦ rw panics refl
    | inl (text, made) ↦ elim (Option-cases (os.write_text (create_file path ∷ h) path text)) [
      | inl (e, failed) ↦ rw (made, failed) refl
      | inr passed ↦
          elim (Option-cases (os.close_text (write_file path text ∷ create_file path ∷ h) path)) [
            | inl (e, failed) ↦ rw (made, passed, failed) refl
            | inr closed ↦ rw (made, passed, closed) refl
          ]
    ]
  ]

  write_config_file-processes :
      (m : Assoc Value) (h : History) → processes (write_config_file os go m h).1 ≡ processes h
  unfolding write_config_file ◌>>>=◌ create_temp_file
  write_config_file-processes m h =
      elim (Result-cases (os.create_temp h (codes "oracle-cliexec-*.conf"))) [
        | inl (path, made) ↦ rw made (fill_config_file-processes m path h)
        | inr (e, failed) ↦ rw failed refl
      ]

  refused :
      (c : Case) (bin dbname : Bytes) (argv : List Bytes) (cleanup : History → History)
      (h : History)
      → is_empty c.config.preconditions_sql ≡ false
      → deferring cleanup (run_with os go c bin none dbname argv) h ≡ (err no_database, cleanup h)
  unfolding deferring run_with run_env database_env ◌>>>=◌
  refused c bin dbname argv cleanup h asks = rw asks refl

  with_file :
      (c : Case) (bin dbname : Bytes) (came : Result Failure Bytes × History)
      → is_empty c.config.preconditions_sql ≡ false
      → let end =
          resume {A = List Bytes × (History → History)}
            (resume came (λ path. pure (path ∷ c.request.flag ∷ [], remove_temp path)))
            (λ built. deferring built.1 (run_with os go c bin none dbname built.0)) in
        (is_ok end.0 ≡ false) × (processes end.1 ≡ processes came.1)
  with_file c bin dbname (ok path, h) asks =
      rw (refused c bin dbname (path ∷ c.request.flag ∷ []) (remove_temp path) h asks)
        (unfold processes in (refl, refl))
  with_file c bin dbname (err e, h) asks = (refl, refl)

  -- A case that has preconditions, run where no database was given, ends with an error and without a
  -- process or a call of psql.
  pub run_case-no_database :
      (c : Case) (bin dbname : Bytes) (h : History)
      → is_empty c.config.preconditions_sql ≡ false
      → (is_ok (run_case os go c bin none dbname h).0 ≡ false)
        × (processes (run_case os go c bin none dbname h).1 ≡ processes h)
  unfolding run_case build_argv ◌>>>=◌
  run_case-no_database c bin dbname h asks = elim (Bool-cases (is_empty c.config.file)) [
    | inl none_given ↦
        rw (none_given, refused c bin dbname (c.request.flag ∷ []) (λ g. g) h asks) (refl, refl)
    | inr given ↦
        let end = with_file c bin dbname (write_config_file os go c.config.file h) asks in
        rw given (end.0, end.1 ∙ write_config_file-processes c.config.file h)
  ]

-- ===== src/Cliexec.antt =====
-- tools/oracle/internal/cliexec/cliexec.go: running a case of the command line, with its configuration file,
-- its environment and its database role. The operating system is the `Os` of System.
pub mod Rendering
pub mod Cleanup
pub mod Preconditions
use postgrest_conformance.Base.{
  Bool, true, false, List, [], ◌∷◌, ◌++◌, Option, none, some, if◌then◌else◌, is_empty, map,
}
use postgrest_conformance.Base.Text.{Bytes, codes, replace_all}
use postgrest_conformance.Base.Assoc.{Assoc, lookup, keys}
use postgrest_conformance.Base.Sort.{sort_strings}
use postgrest_conformance.Base.Decimal.{int_text, itoa}
use postgrest_conformance.Base.Int.{ℤ}
use postgrest_conformance.Base.Result.{Result, ok, err, ◌>>=◌}
use postgrest_conformance.Value.{Value, bool, int, int64, uint64, float64, string, entries, Golib}
use postgrest_conformance.System.{
  Os, Act, Failure, History, Outcome, execute, timed_out, not_started, no_database, panic, pure,
  fail, ◌>>>=◌, ◌>>>◌, deferring, or_else, remove_temp, close_quietly, create_temp_file, write_to,
  close,
}
use postgrest_conformance.Cases.{Case}
use postgrest_conformance.Assert.{CliResult}
use postgrest_conformance.Db.Server.{PgEnv, psql, drop_config_role}

-- the escapes of a quoted value, the backslashes first
unfoldable pub escape : Bytes → Bytes
unfolding replace_all
escape s = replace_all (replace_all s b'\\' (b'\\' ∷ b'\\' ∷ [])) b'"' (b'\\' ∷ b'"' ∷ [])

-- `renderConfigValue`; the error is the panic, with the key it names
unfoldable pub render_config_value : Golib → Bytes → Value → Result Bytes Bytes
unfolding escape int_text itoa
render_config_value go key (string s) = ok (b'"' ∷ (escape s ++ b'"' ∷ []))
render_config_value go key (bool b) = ok (if b then codes "true" else codes "false")
render_config_value go key (int n) = ok (int_text n)
render_config_value go key (int64 n) = ok (int_text n)
render_config_value go key (uint64 n) = ok (itoa n)
render_config_value go key (float64 n) = ok (go.float_text n)
render_config_value go key _ = err key

-- `m[k]`, which is nil where the key is missing
abbrev pub render_entry : Golib → Bytes → Option Value → Result Bytes Bytes
render_entry go key none = err key
render_entry go key (some v) = render_config_value go key v

unfoldable pub render_lines : Golib → Assoc Value → List Bytes → Result Bytes Bytes
unfolding render_config_value lookup
render_lines go m [] = ok []
render_lines go m (k ∷ ks) = render_entry go k (lookup k m) >>= λ text.
    (render_lines go m ks >>= λ rest. ok (k ++ (codes " = " ++ (text ++ (b'\n' ∷ rest)))))

-- `RenderConfigFile`
unfoldable pub render_config_file : Golib → Assoc Value → Result Bytes Bytes
unfolding render_lines
render_config_file go m = render_lines go m (sort_strings (keys m))

-- `dbConfigPassword`
abbrev pub db_config_password : Bytes
db_config_password = codes "oracle_cli"

abbrev pub env_entry : Bytes × Bytes → Bytes
env_entry (k, v) = k ++ (b'=' ∷ v)

-- `c.Expect["dump_reparse_stable"].(bool)` holds
abbrev pub is_true : Option Value → Bool
is_true (some (bool b)) = b
is_true _ = false

module _ (os : Os) (go : Golib) where
  -- the argument of `f.WriteString`, which may panic
  abbrev pub rendered : Result Bytes Bytes → Act Bytes
  rendered (ok text) = pure text
  rendered (err key) = fail (panic key)

  -- the file filled and closed; a panic of the rendering leaves the function at once
  unfoldable pub fill_config_file : Assoc Value → Bytes → Act Bytes
  fill_config_file m path = rendered (render_config_file go m) >>>= λ text.
      (or_else (write_to os path text) (λ h. remove_temp path (close_quietly path h))
        >>> (or_else (close os path) (remove_temp path) >>> pure path))

  -- `writeConfigFile`
  unfoldable pub write_config_file : Assoc Value → Act Bytes
  write_config_file m = create_temp_file os (codes "oracle-cliexec-*.conf") >>>= fill_config_file m

  -- `buildArgv`: the arguments and the cleanup
  unfoldable pub build_argv : Case → Act (List Bytes × (History → History))
  build_argv c =
      if is_empty c.config.file
      then pure (c.request.flag ∷ [], λ h. h)
      else (write_config_file c.config.file >>>= λ path.
          pure (path ∷ c.request.flag ∷ [], remove_temp path))

  abbrev pub path_env : Bytes
  path_env = codes "PATH=" ++ os.getenv (codes "PATH")

  -- `buildEnv`
  unfoldable pub build_env : Case → List Bytes
  build_env c = path_env ∷ map env_entry c.config.env

  -- the loop over the preconditions, and what follows it
  unfoldable pub apply_preconditions : PgEnv → Bytes → List Bytes → Act (Unit {0})
  apply_preconditions pg dbname [] =
      psql os pg dbname []
        (codes "-c" ∷ codes "ALTER ROLE db_config_authenticator PASSWORD 'oracle_cli'" ∷ [])
  apply_preconditions pg dbname (stmt ∷ stmts) =
      psql os pg dbname [] (codes "-c" ∷ stmt ∷ []) >>> apply_preconditions pg dbname stmts

  -- `setupDBConfig`
  unfoldable pub setup_db_config : PgEnv → Bytes → List Bytes → Act (Unit {0})
  setup_db_config pg dbname preconditions =
      psql os pg dbname [] (codes "-c" ∷ drop_config_role ∷ [])
      >>> apply_preconditions pg dbname preconditions

  -- the environment of a case that has preconditions
  unfoldable pub database_env : Option PgEnv → Bytes → List Bytes → List Bytes → Act (List Bytes)
  database_env none dbname preconditions env = fail no_database
  database_env (some pg) dbname preconditions env =
      setup_db_config pg dbname preconditions
      >>> pure (
          env
          ++ (codes "PGHOST=" ++ pg.host)
            ∷ (codes "PGPORT=" ++ pg.port)
            ∷ (codes "PGDATABASE=" ++ dbname)
            ∷ (codes "PGPASSWORD=" ++ db_config_password)
            ∷ [])

  unfoldable pub run_env : Case → Option PgEnv → Bytes → Act (List Bytes)
  run_env c pg dbname =
      if is_empty c.config.preconditions_sql
      then pure (build_env c)
      else database_env pg dbname c.config.preconditions_sql (build_env c)

  abbrev pub exit_state : Bytes → Outcome → Result Bytes ℤ → Result Failure (Bytes × Bytes × ℤ)
  exit_state bin o (err e) = err (not_started e)
  exit_state bin o (ok code) = ok (o.stdout, o.stderr, code)

  abbrev pub exit_of : Bytes → Outcome → Result Failure (Bytes × Bytes × ℤ)
  exit_of bin o = if o.deadline then err (timed_out bin) else exit_state bin o o.state

  -- `run`: the standard output, the standard error and the exit code
  unfoldable pub run : Bytes → List Bytes → List Bytes → Act (Bytes × Bytes × ℤ)
  run bin argv env h = (exit_of bin (os.outcome h bin argv env), execute bin argv env ∷ h)

  -- `redump` with its file
  unfoldable pub redump_with : Bytes → Bytes → Bytes → Act Bytes
  redump_with bin dump path =
      or_else (write_to os path dump) (close_quietly path)
      >>> (close os path
          >>> (run bin (path ∷ codes "--dump-config" ∷ []) (path_env ∷ []) >>>= λ out. pure out.0))

  -- `redump`
  unfoldable pub redump : Bytes → Bytes → Act Bytes
  redump bin dump = create_temp_file os (codes "oracle-cliexec-redump-*.conf") >>>= λ path.
      deferring (remove_temp path) (redump_with bin dump path)

  abbrev pub cli_result : Bytes × Bytes × ℤ → Option Bytes → CliResult
  cli_result (stdout, stderr, code) redumped = record {
    exit_code = code;
    stdout = stdout;
    stderr = stderr;
    redump = redumped;
  }

  -- the result, with the second dump where the case asks for one
  unfoldable pub finish : Case → Bytes → Bytes × Bytes × ℤ → Act CliResult
  finish c bin out =
      if is_true (lookup (codes "dump_reparse_stable") (entries c.expect))
      then (redump bin out.0 >>>= λ redumped. pure (cli_result out (some redumped)))
      else pure (cli_result out none)

  -- `Run` behind `buildArgv`
  unfoldable pub run_with : Case → Bytes → Option PgEnv → Bytes → List Bytes → Act CliResult
  run_with c bin pg dbname argv =
      run_env c pg dbname >>>= λ env. (run bin argv env >>>= λ out. finish c bin out)

  -- `Run`
  unfoldable pub run_case : Case → Bytes → Option PgEnv → Bytes → Act CliResult
  run_case c bin pg dbname =
      build_argv c >>>= λ built. deferring built.1 (run_with c bin pg dbname built.0)

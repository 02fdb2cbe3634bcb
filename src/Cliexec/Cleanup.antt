-- ===== src/Cliexec/Cleanup.antt =====
-- Lemmas on the temporary files of cliexec.go.
use postgrest_conformance.Base.{
  Bool, true, ◌||◌, List, [], ◌∷◌, ◌≡◌, refl, ◌∙◌, inl, inr, Option, none, some, Bool-cases,
  is_empty,
}
use postgrest_conformance.Base.Text.{Bytes, codes}
use postgrest_conformance.Base.Assoc.{Assoc, lookup}
use postgrest_conformance.Base.Int.{ℤ}
use postgrest_conformance.Base.Result.{Result, ok, err, is_ok, Result-cases}
use postgrest_conformance.Value.{Value, Golib, entries}
use postgrest_conformance.System.{
  Os, Act, Failure, History, create_file, write_file, pure, ◌>>>=◌, ◌>>>◌, deferring, or_else,
  create_temp_file, write_to, close, remove_temp, close_quietly, resume, rescue, no_database,
}
use postgrest_conformance.System.Files.{
  LeavesNone, temp_files, remove_one-first, >>>=-LeavesNone, >>>-LeavesNone, pure-LeavesNone,
  fail-LeavesNone, close-LeavesNone, write_to-LeavesNone, run_psql-LeavesNone,
  create_temp_file-deferring,
}
use postgrest_conformance.System.Scripts.{Option-cases}
use postgrest_conformance.Cases.{Case}
use postgrest_conformance.Db.Server.{PgEnv, psql}
use postgrest_conformance.Cliexec.{
  render_config_file, fill_config_file, write_config_file, build_argv, apply_preconditions,
  setup_db_config, database_env, run_env, run, redump_with, redump, finish, run_with, run_case,
  is_true, build_env,
}

-- A case without a configuration file, or with one that can be rendered.
unfoldable pub has_good_file : Golib → Case → Bool
has_good_file go c = is_empty c.config.file || is_ok (render_config_file go c.config.file)

module _ (os : Os) (go : Golib) where
  run-LeavesNone : (bin : Bytes) (argv env : List Bytes) → LeavesNone (run os go bin argv env)
  unfolding run LeavesNone temp_files
  run-LeavesNone bin argv env h = refl

  rescue-close :
      {A : Type 0} (path : Bytes) (came : Result Failure A × History)
      → temp_files (rescue (close_quietly path) came).1 ≡ temp_files came.1
  unfolding temp_files
  rescue-close path (ok a, h) = refl
  rescue-close path (err e, h) = refl

  or_else-close :
      {A : Type 0} (act : Act A) (path : Bytes)
      → LeavesNone act
      → LeavesNone (or_else act (close_quietly path))
  unfolding or_else LeavesNone
  or_else-close act path keeps h = rescue-close path (act h) ∙ keeps h

  redump_with-LeavesNone : (bin dump path : Bytes) → LeavesNone (redump_with os go bin dump path)
  unfolding redump_with
  redump_with-LeavesNone bin dump path =
      >>>-LeavesNone _ _ (or_else-close _ path (write_to-LeavesNone os path dump)) (
        >>>-LeavesNone _ _ (close-LeavesNone os path)
          (>>>=-LeavesNone _ _ (run-LeavesNone bin _ _) (λ out. pure-LeavesNone out.0)))

  redump-LeavesNone : (bin dump : Bytes) → LeavesNone (redump os go bin dump)
  unfolding redump
  redump-LeavesNone bin dump =
      create_temp_file-deferring os _ (redump_with os go bin dump) (redump_with-LeavesNone bin dump)

  apply_preconditions-LeavesNone :
      (pg : PgEnv) (dbname : Bytes) (stmts : List Bytes)
      → LeavesNone (apply_preconditions os go pg dbname stmts)
  unfolding apply_preconditions psql
  apply_preconditions-LeavesNone pg dbname [] = run_psql-LeavesNone os _
  apply_preconditions-LeavesNone pg dbname (stmt ∷ stmts) =
      >>>-LeavesNone _ _ (run_psql-LeavesNone os _) (apply_preconditions-LeavesNone pg dbname stmts)

  database_env-LeavesNone :
      (pg : Option PgEnv) (dbname : Bytes) (stmts env : List Bytes)
      → LeavesNone (database_env os go pg dbname stmts env)
  unfolding database_env setup_db_config psql
  database_env-LeavesNone none dbname stmts env = fail-LeavesNone (List Bytes) no_database
  database_env-LeavesNone (some pg) dbname stmts env =
      >>>-LeavesNone _ _
        (>>>-LeavesNone _ _ (run_psql-LeavesNone os _)
          (apply_preconditions-LeavesNone pg dbname stmts))
        (pure-LeavesNone _)

  run_env-LeavesNone :
      (c : Case) (pg : Option PgEnv) (dbname : Bytes) → LeavesNone (run_env os go c pg dbname)
  unfolding run_env
  run_env-LeavesNone c pg dbname = elim (Bool-cases (is_empty c.config.preconditions_sql)) [
    | inl plain ↦ rw plain (pure-LeavesNone (build_env os go c))
    | inr sets ↦ rw sets (database_env-LeavesNone pg dbname _ _)
  ]

  finish-LeavesNone :
      (c : Case) (bin : Bytes) (out : Bytes × Bytes × ℤ) → LeavesNone (finish os go c bin out)
  unfolding finish
  finish-LeavesNone c bin out =
      elim (Bool-cases (is_true (lookup (codes "dump_reparse_stable") (entries c.expect)))) [
        | inl again ↦
            rw again (>>>=-LeavesNone _ _ (redump-LeavesNone bin out.0) (λ text. pure-LeavesNone _))
        | inr once ↦ rw once (pure-LeavesNone _)
      ]

  run_with-LeavesNone :
      (c : Case) (bin : Bytes) (pg : Option PgEnv) (dbname : Bytes) (argv : List Bytes)
      → LeavesNone (run_with os go c bin pg dbname argv)
  unfolding run_with
  run_with-LeavesNone c bin pg dbname argv =
      >>>=-LeavesNone _ _ (run_env-LeavesNone c pg dbname)
        (λ env. >>>=-LeavesNone _ _ (run-LeavesNone bin argv env) (finish-LeavesNone c bin))

  -- The files after the writing of the configuration file: it is there, or what was there before.
  abbrev written : Result Failure Bytes → List Bytes → List Bytes
  written (ok path) files = path ∷ files
  written (err e) files = files

  fill-written :
      (m : Assoc Value) (path : Bytes) (h : History)
      → is_ok (render_config_file go m) ≡ true
      → temp_files (fill_config_file os go m path (create_file path ∷ h)).1
        ≡ written (fill_config_file os go m path (create_file path ∷ h)).0 (temp_files h)
  unfolding fill_config_file temp_files ◌>>>=◌ ◌>>>◌ or_else write_to close
  fill-written m path h good = elim (Result-cases (render_config_file go m)) [
    | inr (key, panics) ↦ cc
    | inl (text, made) ↦ elim (Option-cases (os.write_text (create_file path ∷ h) path text)) [
      | inl (e, failed) ↦ rw (made, failed) (remove_one-first path (temp_files h))
      | inr passed ↦
          elim (Option-cases (os.close_text (write_file path text ∷ create_file path ∷ h) path)) [
            | inl (e, failed) ↦ rw (made, passed, failed) (remove_one-first path (temp_files h))
            | inr closed ↦ rw (made, passed, closed) refl
          ]
    ]
  ]

  -- Removing the file that was written, when the rest of the run left the files as they were.
  leave-remove :
      {A : Type 0} (path : Bytes) (act : Act A) (h : History) (files : List Bytes)
      → LeavesNone act
      → temp_files h ≡ path ∷ files
      → temp_files (deferring (remove_temp path) act h).1 ≡ files
  unfolding deferring temp_files LeavesNone
  leave-remove path act h files keeps there = rw (keeps h, there) (remove_one-first path files)

  with_file :
      (c : Case) (bin : Bytes) (pg : Option PgEnv) (dbname : Bytes)
      (came : Result Failure Bytes × History) (files : List Bytes)
      → temp_files came.1 ≡ written came.0 files
      → temp_files
          (resume {A = List Bytes × (History → History)}
            (resume came (λ path. pure (path ∷ c.request.flag ∷ [], remove_temp path)))
            (λ built. deferring built.1 (run_with os go c bin pg dbname built.0))).1
        ≡ files
  with_file c bin pg dbname (ok path, h) files there =
      leave-remove path (run_with os go c bin pg dbname (path ∷ c.request.flag ∷ [])) h files
        (run_with-LeavesNone c bin pg dbname _) there
  with_file c bin pg dbname (err e, h) files there = there

  write_config_file-written :
      (m : Assoc Value) (h : History)
      → is_ok (render_config_file go m) ≡ true
      → temp_files (write_config_file os go m h).1
        ≡ written (write_config_file os go m h).0 (temp_files h)
  unfolding write_config_file ◌>>>=◌ create_temp_file
  write_config_file-written m h good =
      elim (Result-cases (os.create_temp h (codes "oracle-cliexec-*.conf"))) [
        | inl (path, made) ↦ rw made (fill-written m path h good)
        | inr (e, failed) ↦ rw failed refl
      ]

  -- A case of the command line leaves the temporary files as they were, whichever of its steps fails,
  -- the creation, writing and closing of files, psql and the processes included, unless its configuration
  -- file has a value that cannot be rendered.
  pub run_case-temp_files :
      (c : Case) (bin : Bytes) (pg : Option PgEnv) (dbname : Bytes) (h : History)
      → has_good_file go c ≡ true
      → temp_files (run_case os go c bin pg dbname h).1 ≡ temp_files h
  unfolding run_case build_argv has_good_file ◌>>>=◌
  run_case-temp_files c bin pg dbname h good = elim (Bool-cases (is_empty c.config.file)) [
    | inl none_given ↦
        unfold deferring LeavesNone in
        rw none_given (run_with-LeavesNone c bin pg dbname (c.request.flag ∷ []) h)
    | inr given ↦ rw given (
        with_file c bin pg dbname (write_config_file os go c.config.file h) (temp_files h)
          (write_config_file-written c.config.file h (rw given at good)))
  ]

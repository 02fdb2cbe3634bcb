-- ===== src/Db/Building.antt =====
-- `setup` of db.go and a script of the calls of psql.
use postgrest_conformance.Base.{true, List, [], ◌∷◌, ◌≡◌}
use postgrest_conformance.Base.Text.{Bytes, codes}
use postgrest_conformance.Base.Sort.{sort_strings}
use postgrest_conformance.Base.Result.{ok}
use postgrest_conformance.System.{PsqlCall, Os, History, ◌>>>=◌}
use postgrest_conformance.System.Scripts.{Ran, Ran-run_psql, Ran-none}
use postgrest_conformance.Db.Server.{
  PgEnv, psql, psql_call, load_chain, find_chain, build_database, setup, validate_dbname,
  drop_database, create_database,
}

-- The call for a statement, and the call for a file.
abbrev pub statement : Os → PgEnv → Bytes → Bytes → PsqlCall
statement os p name sql = psql_call os p name [] (codes "-c" ∷ sql ∷ [])

abbrev pub script_file : Os → PgEnv → Bytes → List Bytes → Bytes → PsqlCall
script_file os p name extra file = psql_call os p name extra (codes "-f" ∷ file ∷ [])

-- The files of the chain against the new database, in UTC.
abbrev pub chain_calls : Os → PgEnv → Bytes → List Bytes → List PsqlCall
chain_calls os p name [] = []
chain_calls os p name (f ∷ files) =
    script_file os p name (codes "PGTZ=UTC" ∷ []) f ∷ chain_calls os p name files

-- The steps that fixtures/README.md gives, for the files of the chain in any order.
abbrev pub setup_script : Os → PgEnv → Bytes → Bytes → List Bytes → List PsqlCall
setup_script os p name dir files =
    script_file os p (codes "postgres") [] (os.join_path dir (codes "01_roles.sql"))
    ∷ statement os p (codes "postgres") (drop_database name)
    ∷ statement os p (codes "postgres") (create_database name)
    ∷ chain_calls os p name (sort_strings files)

module _ (os : Os) (p : PgEnv) (name : Bytes) where
  Ran-load_chain :
      (files : List Bytes) (h : History)
      → Ran os (chain_calls os p name files) h (load_chain os p name files h)
  unfolding load_chain psql
  Ran-load_chain [] h = Ran-none os h
  Ran-load_chain (f ∷ files) h =
      Ran-run_psql os (script_file os p name (codes "PGTZ=UTC" ∷ []) f)
        (chain_calls os p name files) (load_chain os p name files) (Ran-load_chain files) h

Ran-find_chain :
    (os : Os) (p : PgEnv) (name dir : Bytes) (files : List Bytes)
    → ((g : History) → os.glob g (os.join_path dir (codes "0[2-7]_*.sql")) ≡ ok files)
    → (h : History)
    → Ran os
        (chain_calls os p name (sort_strings files))
        h
        ((find_chain os dir >>>= λ found. load_chain os p name (sort_strings found)) h)
unfolding find_chain ◌>>>=◌
Ran-find_chain os p name dir files steady h =
    rw (steady h) (Ran-load_chain os p name (sort_strings files) h)

-- With a valid name and a directory whose chain files stay the same, `Setup` makes the calls of
-- fixtures/README.md in their order, the chain sorted, and ends with the first that fails or after
-- the last.
pub setup-Ran :
    (os : Os) (p : PgEnv) (name dir : Bytes) (files : List Bytes) (h : History)
    → validate_dbname name ≡ true
    → ((g : History) → os.glob g (os.join_path dir (codes "0[2-7]_*.sql")) ≡ ok files)
    → Ran os (setup_script os p name dir files) h (setup os p name dir h)
unfolding setup build_database psql
setup-Ran os p name dir files h valid steady = rw valid (
    Ran-run_psql os _ _ _
      (Ran-run_psql os _ _ _ (Ran-run_psql os _ _ _ (Ran-find_chain os p name dir files steady))) h)

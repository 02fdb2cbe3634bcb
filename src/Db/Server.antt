-- ===== src/Db/Server.antt =====
-- tools/oracle/internal/db/db.go: the connection to the server, and the building and dropping of the
-- fixture database.
use postgrest_conformance.Base.{
  ℕ, Bool, not, ◌&&◌, ◌||◌, List, [], ◌∷◌, ◌++◌, if◌then◌else◌, all, is_empty, leb, ◌==◌,
}
use postgrest_conformance.Base.Text.{Bytes, codes}
use postgrest_conformance.Base.Sort.{sort_strings}
use postgrest_conformance.Base.Result.{Result, ok, err}
use postgrest_conformance.System.{
  PsqlCall, Os, Act, glob_failed, invalid_dbname, pure, fail, ◌>>>=◌, ◌>>>◌, run_psql,
}

-- `PGEnv`
pub record PgEnv : Type 0 where
  pub host : Bytes
  pub port : Bytes
  pub user : Bytes
  pub password : Bytes

-- letters, digits and underscores: `[A-Za-z0-9_]`
abbrev pub is_name_byte : ℕ → Bool
is_name_byte c =
    (leb b'A' c && leb c b'Z')
    || (leb b'a' c && leb c b'z')
    || (leb b'0' c && leb c b'9')
    || c == b'_'

-- `validateDBName`, of which `true` is no error
unfoldable pub validate_dbname : Bytes → Bool
validate_dbname name = not (is_empty name) && all is_name_byte name

-- `db_config_authenticator`
abbrev pub drop_config_role : Bytes
drop_config_role = codes "DROP ROLE IF EXISTS db_config_authenticator"

unfoldable pub drop_database : Bytes → Bytes
drop_database name = codes "DROP DATABASE IF EXISTS " ++ name

unfoldable pub create_database : Bytes → Bytes
create_database name =
    codes "CREATE DATABASE "
    ++ (name ++ codes " TEMPLATE template0 ENCODING 'UTF8' LC_COLLATE 'C' LC_CTYPE 'C'")

module _ (os : Os) where
  -- `envOrDefault`
  unfoldable pub env_or_default : Bytes → Bytes → Bytes
  env_or_default key default = if is_empty (os.getenv key) then default else os.getenv key

  -- `FromEnv`
  unfoldable pub from_env : PgEnv
  unfolding env_or_default
  from_env = record {
    host = env_or_default (codes "PGHOST") (codes "localhost");
    port = env_or_default (codes "PGPORT") (codes "6432");
    user = env_or_default (codes "PGUSER") (codes "postgres");
    password = env_or_default (codes "PGPASSWORD") (codes "postgres");
  }

  -- `childEnv`
  unfoldable pub child_env : PgEnv → Bytes → List Bytes → List Bytes
  child_env p name extra =
      (codes "PATH=" ++ os.getenv (codes "PATH"))
      ∷ (codes "PGHOST=" ++ p.host)
      ∷ (codes "PGPORT=" ++ p.port)
      ∷ (codes "PGUSER=" ++ p.user)
      ∷ (codes "PGPASSWORD=" ++ p.password)
      ∷ (codes "PGDATABASE=" ++ name)
      ∷ extra

  -- the command line that `Psql` builds
  unfoldable pub psql_call : PgEnv → Bytes → List Bytes → List Bytes → PsqlCall
  psql_call p name extra args = record {
    database = name;
    env = child_env p name extra;
    args = codes "-v" ∷ codes "ON_ERROR_STOP=1" ∷ codes "-q" ∷ args;
  }

  -- `Psql`
  unfoldable pub psql : PgEnv → Bytes → List Bytes → List Bytes → Act (Unit {0})
  psql p name extra args = run_psql os (psql_call p name extra args)

  -- the loop over the fixture chain
  unfoldable pub load_chain : PgEnv → Bytes → List Bytes → Act (Unit {0})
  load_chain p name [] = pure tt
  load_chain p name (f ∷ files) =
      psql p name (codes "PGTZ=UTC" ∷ []) (codes "-f" ∷ f ∷ []) >>> load_chain p name files

  abbrev pub globbed : Result Bytes (List Bytes) → Act (List Bytes)
  globbed (ok files) = pure files
  globbed (err e) = fail (glob_failed e)

  -- `filepath.Glob` of the chain's files
  unfoldable pub find_chain : Bytes → Act (List Bytes)
  find_chain dir h = globbed (os.glob h (os.join_path dir (codes "0[2-7]_*.sql"))) h

  -- `Setup` behind the check of the name
  unfoldable pub build_database : PgEnv → Bytes → Bytes → Act (Unit {0})
  build_database p name dir =
      psql p (codes "postgres") [] (codes "-f" ∷ os.join_path dir (codes "01_roles.sql") ∷ [])
      >>> (psql p (codes "postgres") [] (codes "-c" ∷ drop_database name ∷ [])
          >>> (psql p (codes "postgres") [] (codes "-c" ∷ create_database name ∷ [])
              >>> (find_chain dir >>>= λ files. load_chain p name (sort_strings files))))

  -- `Setup`
  unfoldable pub setup : PgEnv → Bytes → Bytes → Act (Unit {0})
  setup p name dir = if validate_dbname name then build_database p name dir else fail invalid_dbname

  -- `Teardown`
  unfoldable pub teardown : PgEnv → Bytes → Act (Unit {0})
  teardown p name =
      if validate_dbname name
      then (psql p (codes "postgres") [] (codes "-c" ∷ drop_database name ∷ [])
          >>> psql p (codes "postgres") [] (codes "-c" ∷ drop_config_role ∷ []))
      else fail invalid_dbname

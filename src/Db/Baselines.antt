-- ===== src/Db/Baselines.antt =====
-- tools/oracle/internal/db/sequences.go: capturing the state of the sequences and putting it back, and the
-- name of the file that keeps it. What encoding/json makes of psql's output is a parameter.
use postgrest_conformance.Base.{
  ℕ, Bool, ◌&&◌, ◌||◌, List, [], ◌∷◌, ◌++◌, Option, none, some, if◌then◌else◌, map, leb, ◌==◌,
  length, is_empty,
}
use postgrest_conformance.Base.Text.{Bytes, codes, str_eq, str_le}
use postgrest_conformance.Base.Sort.{sort}
use postgrest_conformance.Base.Int.{ℤ, pos, int_eq}
use postgrest_conformance.Base.Decimal.{atoi}
use postgrest_conformance.Base.Result.{Result, ok, err}
use postgrest_conformance.System.{
  PsqlCall, Os, Act, parse_failed, wrong_count, stale_baseline, invalid_dbname, pure, fail, ◌>>>=◌,
  ◌>>>◌, query_psql,
}
use postgrest_conformance.Db.{SequenceState, sequence_state_sql, restore_sql}
use postgrest_conformance.Db.Server.{PgEnv, child_env, validate_dbname}

-- `SequenceBaseline`
pub record SequenceBaseline : Type 0 where
  pub database : Bytes
  pub database_oid : ℤ
  pub sequences : List SequenceState

-- The work of encoding/json: reading the list of sequences with the database's OID, reading their states, and
-- writing states.
pub record Codec : Type 0 where
  pub read_listed : Bytes → Result Bytes (ℤ × List SequenceState)
  pub read_states : Bytes → Result Bytes (List SequenceState)
  pub write_states : List SequenceState → Bytes

-- `strings.TrimRight(s, "\n")`
unfoldable pub trim_newlines : Bytes → Bytes
trim_newlines [] = []
trim_newlines (c ∷ s) =
    let rest = trim_newlines s in if c == b'\n' && is_empty rest then [] else c ∷ rest

-- `listSequencesSQL`
abbrev pub list_sequences_sql : Bytes
list_sequences_sql =
    codes "SELECT json_build_object(\n"
    ++ codes
        "  'oid', (SELECT oid::bigint FROM pg_catalog.pg_database WHERE datname = current_database()),\n"
    ++ codes "  'sequences', coalesce((\n"
    ++ codes "    SELECT json_agg(json_build_object('schema', n.nspname, 'name', c.relname)\n"
    ++ codes "                    ORDER BY n.nspname, c.relname)\n"
    ++ codes "    FROM pg_catalog.pg_class c\n"
    ++ codes "    JOIN pg_catalog.pg_namespace n ON n.oid = c.relnamespace\n"
    ++ codes "    WHERE c.relkind = 'S'\n"
    ++ codes "      AND n.nspname NOT LIKE 'pg\\_%'\n"
    ++ codes "      AND n.nspname <> 'information_schema'\n"
    ++ codes "  ), '[]'::json))"

-- the query of `RestoreSequences`
abbrev pub oid_sql : Bytes
oid_sql = codes "SELECT oid FROM pg_catalog.pg_database WHERE datname = current_database()"

-- the order of `sort.Slice`; a schema has no two sequences of one name
unfoldable pub state_le : SequenceState → SequenceState → Bool
unfolding str_eq str_le
state_le a b = if str_eq a.schema b.schema then str_le a.name b.name else str_le a.schema b.schema

-- `unsafePathChars` replaced
abbrev pub safe_byte : ℕ → Bool
safe_byte c =
    (leb b'A' c && leb c b'Z')
    || (leb b'a' c && leb c b'z')
    || (leb b'0' c && leb c b'9')
    || c == b'.'
    || c == b'_'
    || c == b'-'

abbrev pub flat_byte : ℕ → ℕ
flat_byte c = if safe_byte c then c else b'_'

-- the file's name in `BaselinePath`
unfoldable pub baseline_name : PgEnv → Bytes → Bytes
baseline_name p name = map flat_byte (p.host ++ (b'_' ∷ (p.port ++ (b'_' ∷ name)))) ++ codes ".json"

module _ (os : Os) where
  -- `BaselinePath`
  unfoldable pub baseline_path : Bytes → PgEnv → Bytes → Bytes
  unfolding baseline_name
  baseline_path dir p name = os.join_path dir (baseline_name p name)

  -- the command line that `PsqlQuery` builds
  unfoldable pub query_call : PgEnv → Bytes → Bytes → PsqlCall
  query_call p name sql = record {
    database = name;
    env = child_env os p name [];
    args =
        codes "-X"
        ∷ codes "-v"
        ∷ codes "ON_ERROR_STOP=1"
        ∷ codes "-q"
        ∷ codes "-t"
        ∷ codes "-A"
        ∷ codes "-c"
        ∷ sql
        ∷ [];
  }

  -- `PsqlQuery`
  unfoldable pub psql_query : PgEnv → Bytes → Bytes → Act Bytes
  psql_query p name sql = query_psql os (query_call p name sql) >>>= λ out. pure (trim_newlines out)

  module _ (codec : Codec) where
    abbrev pub parsed {ℓ} : {A : Type ℓ} → Result Bytes A → Act A
    parsed (ok a) = pure a
    parsed (err e) = fail (parse_failed e)

    abbrev pub baseline : Bytes → ℤ → List SequenceState → SequenceBaseline
    baseline name oid seqs = record { database = name; database_oid = oid; sequences = seqs }

    -- what follows the listing
    unfoldable pub capture_states : PgEnv → Bytes → ℤ × List SequenceState → Act SequenceBaseline
    capture_states p name (oid, []) = pure (baseline name oid [])
    capture_states p name (oid, s ∷ ss) =
        psql_query p name (sequence_state_sql (s ∷ ss)) >>>= λ out.
        (parsed (codec.read_states out) >>>= λ seqs. pure (baseline name oid (sort state_le seqs)))

    -- `CaptureSequences`
    unfoldable pub capture_sequences : PgEnv → Bytes → Act SequenceBaseline
    capture_sequences p name =
        if validate_dbname name
        then (psql_query p name list_sequences_sql >>>= λ out.
            (parsed (codec.read_listed out) >>>= capture_states p name))
        else fail invalid_dbname

    -- `strconv.ParseInt(out, 10, 64)` and the comparison of the OIDs
    unfoldable pub check_oid : SequenceBaseline → Bytes → Option ℤ → Act (Unit {0})
    check_oid b out none = fail (parse_failed out)
    check_oid b out (some oid) = if int_eq oid b.database_oid then pure tt else fail stale_baseline

    -- `strconv.Atoi(out)` and the comparison of the counts
    unfoldable pub check_count : SequenceBaseline → Bytes → Option ℤ → Act (Unit {0})
    check_count b out none = fail (wrong_count out)
    check_count b out (some n) =
        if int_eq n (pos (length b.sequences)) then pure tt else fail (wrong_count out)

    -- the statement that sets the sequences, when there are any
    unfoldable pub put_back : PgEnv → SequenceBaseline → Act (Unit {0})
    put_back p b =
        if is_empty b.sequences
        then pure tt
        else (psql_query p b.database (restore_sql (codec.write_states b.sequences)) >>>= λ out.
            check_count b out (atoi out))

    -- `RestoreSequences`
    unfoldable pub restore_sequences : PgEnv → SequenceBaseline → Act (Unit {0})
    restore_sequences p b =
        if validate_dbname b.database
        then (psql_query p b.database oid_sql >>>= λ out.
            (check_oid b out (atoi out) >>> put_back p b))
        else fail invalid_dbname

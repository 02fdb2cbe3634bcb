-- ===== src/Tests/Machine.antt =====
-- An operating system on which every call goes well, for the examples.
use postgrest_conformance.Base.{true, false, List, [], ◌∷◌, ◌++◌, none}
use postgrest_conformance.Base.Text.{Bytes, codes}
use postgrest_conformance.Base.Int.{pos}
use postgrest_conformance.Base.Result.{ok}
use postgrest_conformance.Value.{string}
use postgrest_conformance.Cases.{Case, cli}
use postgrest_conformance.System.{Os, Outcome}
use postgrest_conformance.Db.Server.{PgEnv}
use postgrest_conformance.Db.Baselines.{SequenceBaseline, Codec}
use postgrest_conformance.Db.{SequenceState}
use postgrest_conformance.Tests.Samples.{sample_case, get_request, max_rows, ok_response}

abbrev dumped : Outcome
dumped = record { stdout = codes "db-uri"; stderr = []; deadline = false; state = ok (pos 0) }

abbrev pub chain : List Bytes
chain = codes "fixtures/03_data.sql" ∷ codes "fixtures/02_schema.sql" ∷ []

abbrev pub machine : Os
machine = record {
  getenv = λ name. [];
  create_temp = λ h pattern. ok (codes "/tmp/oracle.conf");
  write_text = λ h path text. none;
  close_text = λ h path. none;
  psql_error = λ h call. none;
  outcome = λ h bin argv env. dumped;
  query_answer = λ h call. ok (codes "5\n");
  glob = λ h pattern. ok chain;
  lookup_env = λ name. none;
  free_port = λ h. ok 4000;
  start_process = λ h bin env. ok 77;
  ready_status = λ h port. ok (pos 200);
  polls_left = λ h. 3;
  exits_in_time = λ h n. true;
  response = λ h port spec. ok ok_response;
  cancelled = λ h. false;
  join_path = λ dir name. dir ++ (codes "/" ++ name);
}

abbrev pub server : PgEnv
server = record {
  host = codes "localhost";
  port = codes "6432";
  user = codes "postgres";
  password = codes "postgres";
}

abbrev sequence : SequenceState
sequence = record {
  schema = codes "test";
  name = codes "items_id_seq";
  last_value = pos 3;
  is_called = true;
}

abbrev pub taken : SequenceBaseline
taken = record { database = codes "conf"; database_oid = pos 5; sequences = sequence ∷ [] }

abbrev pub misnamed : SequenceBaseline
misnamed = record taken { database = codes "conf; DROP" }

abbrev pub json : Codec
json = record {
  read_listed = λ s. ok (pos 5, []);
  read_states = λ s. ok (sequence ∷ []);
  write_states = λ ss. codes "[]";
}

abbrev pub settings : List (Bytes × Bytes)
settings = (codes "jwt-secret", codes "a\"b\\c") ∷ (codes "db-uri", codes "postgres://") ∷ []

abbrev pub cli_case : Case
cli_case = record sample_case {
  request = record get_request { kind = cli; flag = codes "--dump-config" };
  config = record max_rows { file = (codes "db-uri", string (codes "x")) ∷ [] };
}

abbrev pub db_case : Case
db_case = record sample_case {
  request = record get_request { kind = cli; flag = codes "--dump-config" };
  config = record max_rows { preconditions_sql = codes "SELECT 1" ∷ [] };
}

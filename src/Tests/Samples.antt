-- ===== src/Tests/Samples.antt =====
-- A library, a case and the responses that the examples are about.
use postgrest_conformance.Base.{Bool, true, false, List, [], ◌∷◌, Option, none, some}
use postgrest_conformance.Base.Text.{Bytes, codes}
use postgrest_conformance.Base.Int.{pos}
use postgrest_conformance.Value.{Value, int, Fields, end, field, Golib, object, string}
use postgrest_conformance.Cases.{Case, Request, Config, http}
use postgrest_conformance.Assert.{HttpResponse, CliResult, Failure, exit_zero}
use postgrest_conformance.Httpexec.Spec.{Wire}
use postgrest_conformance.Route.{Placement}
use postgrest_conformance.Report.{CaseResult}

abbrev pub no_value : Bytes → Option Value
no_value s = none

abbrev pub any_pattern : Bytes → Option (Bytes → Bool)
any_pattern p = some (λ s. true)

-- A library whose floats are all 0, which decodes no JSON and whose patterns match every text.
abbrev pub library : Golib
library = record {
  float_text = λ n. codes "0";
  value_text = λ v. codes "0";
  quote_text = λ s. s;
  float_int = λ n. some (pos 0);
  decode_json = no_value;
  compile = any_pattern;
}

abbrev pub get_request : Request
get_request = record {
  kind = http;
  method = codes "GET";
  path = codes "/items";
  headers = [];
  jwt = none;
  body = none;
  body_json = none;
  body_raw = none;
  flag = [];
}

abbrev pub max_rows : Config
max_rows = record {
  present = true;
  keys = (codes "db-max-rows", int (pos 5)) ∷ [];
  env = [];
  file = [];
  preconditions_sql = [];
}

abbrev pub expected : Fields
expected = field (codes "status") (int (pos 200)) end

abbrev pub sample_case : Case
sample_case = record {
  id = pos 7;
  feature = codes "limits";
  area = codes "pagination";
  schema = codes "pagination";
  request = get_request;
  config = max_rows;
  expect = expected;
  notes = [];
  source = codes "Limit.hs";
  path = codes "cases/0007.yaml";
}

abbrev pub ok_response : HttpResponse
ok_response = record {
  status_code = pos 200;
  reason = codes "OK";
  header = (codes "Content-Type", codes "text/plain" ∷ []) ∷ [];
  body = codes "abc";
  content_length = pos 3;
}

abbrev pub dump : CliResult
dump = record { exit_code = pos 0; stdout = codes "db-uri"; stderr = []; redump = none }

abbrev result : Bytes → Bool → CaseResult Failure
result area pass = record {
  id = pos 1;
  feature = codes "f";
  area = area;
  placement = codes "test";
  pass = pass;
  failures = if_failed pass;
  source = [];
}
  where
    if_failed : Bool → List Failure
    if_failed true = []
    if_failed false = exit_zero ∷ []

abbrev pub results : List (CaseResult Failure)
results =
    result (codes "rpc") true ∷ result (codes "headers") true ∷ result (codes "rpc") false ∷ []

abbrev get_fields : Fields
get_fields =
    field (codes "method") (string (codes "GET"))
      (field (codes "path") (string (codes "/items")) end)

-- the file of a case without settings
abbrev pub case_file : Value
case_file = object (
    field (codes "id") (int (pos 7)) (
      field (codes "feature") (string (codes "pagination/limit")) (
        field (codes "schema") (string (codes "pagination")) (
          field (codes "source") (string (codes "Limit.hs")) (
            field (codes "request") (object get_fields)
              (field (codes "expect") (object expected) end))))))

abbrev no_settings : Config
no_settings = record { present = false; keys = []; env = []; file = []; preconditions_sql = [] }

abbrev pub loaded_case : Case
loaded_case = record {
  id = pos 7;
  feature = codes "pagination/limit";
  area = codes "pagination";
  schema = codes "pagination";
  request = get_request;
  config = no_settings;
  expect = expected;
  notes = [];
  source = codes "Limit.hs";
  path = codes "0007.yaml";
}

-- A library that encodes every value as null and signs with nothing.
abbrev pub wire : Wire
wire = record { marshal = λ v. some (codes "null"); base64 = λ s. s; hmac = λ key s. [] }

abbrev pub placement : Placement
placement = record {
  kind = http;
  base = codes "pagination";
  overlay = [];
  safe_update = false;
  inject_profile = [];
  group_key = codes "pagination";
}

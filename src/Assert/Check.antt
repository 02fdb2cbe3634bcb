-- ===== src/Assert/Check.antt =====
-- `CheckHTTP` and `CheckCLI` of assert.go: the switches over the keys of the `expect:` block.
use postgrest_conformance.Base.{◌||◌, List, [], ◌∷◌, if◌then◌else◌}
use postgrest_conformance.Base.Text.{Bytes, codes, str_eq}
use postgrest_conformance.Value.{Value, Golib}
use postgrest_conformance.Cases.{Case}
use postgrest_conformance.Assert.{HttpResponse, CliResult, Failure, unhandled, for_each}
use postgrest_conformance.Assert.Headers.{
  check_status, check_status_text, check_headers, check_headers_present, check_headers_absent,
  check_headers_match, check_headers_absent_in_value, check_headers_no_blank,
}
use postgrest_conformance.Assert.Body.{
  check_body_exact, check_body_contains, check_body_raw, check_body_jsonpath,
}
use postgrest_conformance.Assert.Commands.{
  check_exit_code, check_substrings, check_dump_reparse_stable,
}

-- the switch of `CheckHTTP`
unfoldable pub check_http_key : Golib → HttpResponse → Bytes → Value → List Failure
check_http_key go r k v =
    if str_eq k (codes "status")
    then check_status go r v
    else if str_eq k (codes "status_text")
    then check_status_text go r v
    else if str_eq k (codes "headers")
    then check_headers go r v
    else if str_eq k (codes "headers_present")
    then check_headers_present go r v
    else if str_eq k (codes "headers_absent")
    then check_headers_absent go r v
    else if str_eq k (codes "headers_match")
    then check_headers_match go r v
    else if str_eq k (codes "headers_absent_in_value")
    then check_headers_absent_in_value go r v
    else if str_eq k (codes "headers_no_blank")
    then check_headers_no_blank go r v
    else if str_eq k (codes "body_exact") || str_eq k (codes "body_json")
    then check_body_exact go k r.body v
    else if str_eq k (codes "body_contains")
    then check_body_contains go r v
    else if str_eq k (codes "body_raw")
    then check_body_raw r v
    else if str_eq k (codes "body_jsonpath")
    then check_body_jsonpath go r v
    else unhandled k ∷ []

-- `CheckHTTP`
unfoldable pub check_http : Golib → Case → HttpResponse → List Failure
check_http go c r = for_each (check_http_key go r) c.expect

-- the switch of `CheckCLI`
unfoldable pub check_cli_key : Golib → CliResult → Bytes → Value → List Failure
check_cli_key go r k v =
    if str_eq k (codes "exit_code")
    then check_exit_code go r v
    else if str_eq k (codes "dump_contains")
    then check_substrings go (codes "dump_contains") r.stdout v
    else if str_eq k (codes "stderr_contains")
    then check_substrings go (codes "stderr_contains") r.stderr v
    else if str_eq k (codes "dump_reparse_stable")
    then check_dump_reparse_stable r v
    else unhandled k ∷ []

-- `CheckCLI`
unfoldable pub check_cli : Golib → Case → CliResult → List Failure
check_cli go c r = for_each (check_cli_key go r) c.expect

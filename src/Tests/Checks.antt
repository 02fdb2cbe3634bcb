-- ===== src/Tests/Checks.antt =====
-- Examples of the checks of assert.go.
use postgrest_conformance.Base.{[], some, ◌≡◌, refl, ◌↔◌}
use postgrest_conformance.Base.Text.{Bytes, codes, str_eq, str_le}
use postgrest_conformance.Base.Assoc.{lookup}
use postgrest_conformance.Value.{
  Value, null, string, object, Items, nil, cons, Fields, end, field, entries,
}
use postgrest_conformance.Assert.{for_each, for_sorted}
use postgrest_conformance.Assert.Headers.{check_status, check_headers}
use postgrest_conformance.Assert.Body.{check_body_exact}
use postgrest_conformance.Assert.Check.{check_http_key, check_http, check_cli}
use postgrest_conformance.Base.Sort.{sort}
use postgrest_conformance.Assert.Passing.{check_http_iff, check_cli_iff, HttpAsks, CliAsks}
use postgrest_conformance.Assert.Responses.{HeadersAsk, BodyAsk, headers_iff, body_exact_iff}
use postgrest_conformance.Tests.Samples.{library, sample_case, expected, ok_response, dump}

check_http_iff_example : (check_http library sample_case ok_response ≡ []) ↔ (
    (k : Bytes) (v : Value)
    → lookup k (entries expected) ≡ some v
    → HttpAsks library ok_response k v)
check_http_iff_example = check_http_iff library sample_case ok_response

check_cli_iff_example :
    (check_cli library sample_case dump ≡ [])
    ↔ ((k : Bytes) (v : Value) → lookup k (entries expected) ≡ some v → CliAsks library dump k v)
check_cli_iff_example = check_cli_iff library sample_case dump

abbrev wanted : Fields
wanted = field (codes "content-type") (string (codes "text/plain")) end

abbrev names : Items
names = cons (string (codes "Content-Type")) nil

headers_iff_example :
    (check_headers library ok_response (object wanted) ≡ [])
    ↔ HeadersAsk library ok_response (object wanted)
headers_iff_example = headers_iff library ok_response (object wanted)

body_exact_iff_example :
    (check_body_exact library (codes "body_exact") [] null ≡ []) ↔ BodyAsk library [] null
body_exact_iff_example = body_exact_iff library (codes "body_exact") [] null

-- The sample response passes its case.
sample_passes : check_http library sample_case ok_response ≡ []
unfolding check_http check_http_key for_each for_sorted sort str_le lookup check_status str_eq
sample_passes = refl

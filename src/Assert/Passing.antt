-- ===== src/Assert/Passing.antt =====
-- `CheckHTTP` and `CheckCLI` of assert.go, and for each key of an `expect:` block what it asks for.
use postgrest_conformance.Base.{Bool, true, false, List, [], some, ◌≡◌, ◌↔◌, if◌then◌else◌, ◌||◌}
use postgrest_conformance.Base.Text.{Bytes, codes, str_eq}
use postgrest_conformance.Base.Assoc.{lookup}
use postgrest_conformance.Value.{Value, entries, Golib}
use postgrest_conformance.Cases.{Case}
use postgrest_conformance.Assert.{HttpResponse, CliResult, Failure}
use postgrest_conformance.Assert.Check.{check_http_key, check_http, check_cli_key, check_cli}
use postgrest_conformance.Assert.Verdict.{for_each_iff}
use postgrest_conformance.Assert.Texts.{text_form, texts_of, whole, refused, ContainsAll}
use postgrest_conformance.Assert.Responses.{
  HeadersAsk, headers_iff, PresentAsk, AbsentAsk, present_iff, absent_iff, status_iff,
  status_text_iff, BodyAsk, body_exact_iff, body_contains_iff, RawAsk, body_raw_iff,
}
use postgrest_conformance.Assert.Processes.{
  output_contains_iff, ExitAsk, exit_code_iff, ReparseAsk, reparse_iff,
}
use postgrest_conformance.Assert.Patterns.{
  LacksAsk, NoBlankAsk, PathsAsk, absent_in_value_iff, no_blank_iff, paths_iff,
}
use postgrest_conformance.Assert.Matching.{MatchAsk, match_iff}

-- The first where the test holds, and the second where it does not.
abbrev pub When : Bool → Type 0 → Type 0 → Type 0
When true A B = A
When false A B = B

when_iff :
    (b : Bool) {fs gs : List Failure} {A B : Type 0}
    → (fs ≡ []) ↔ A
    → (gs ≡ []) ↔ B
    → ((if b then fs else gs) ≡ []) ↔ When b A B
when_iff true f g = f
when_iff false f g = g

-- What a key of an `expect:` block asks of a response; a key that is not known asks for what cannot be.
abbrev pub HttpAsks : Golib → HttpResponse → Bytes → Value → Type 0
HttpAsks go r k v = When (str_eq k (codes "status")) (whole go v ≡ some r.status_code) (
    When (str_eq k (codes "status_text")) (r.reason ≡ text_form go v) (
      When (str_eq k (codes "headers")) (HeadersAsk go r v) (
        When (str_eq k (codes "headers_present")) (PresentAsk go r v) (
          When (str_eq k (codes "headers_absent")) (AbsentAsk go r v) (
            When (str_eq k (codes "headers_match")) (MatchAsk go r v) (
              When (str_eq k (codes "headers_absent_in_value")) (LacksAsk go r v) (
                When (str_eq k (codes "headers_no_blank")) (NoBlankAsk r v) (
                  When (str_eq k (codes "body_exact") || str_eq k (codes "body_json"))
                    (BodyAsk go r.body v)
                    (When (str_eq k (codes "body_contains")) (ContainsAll r.body (texts_of go v)) (
                      When (str_eq k (codes "body_raw")) (RawAsk r v)
                        (When (str_eq k (codes "body_jsonpath")) (PathsAsk go r v) (⊥))))))))))))

http_key_iff :
    (go : Golib) (r : HttpResponse) (k : Bytes) (v : Value)
    → (check_http_key go r k v ≡ []) ↔ HttpAsks go r k v
unfolding check_http_key
http_key_iff go r k v = when_iff (str_eq k (codes "status")) (status_iff go r v) (
    when_iff (str_eq k (codes "status_text")) (status_text_iff go r v) (
      when_iff (str_eq k (codes "headers")) (headers_iff go r v) (
        when_iff (str_eq k (codes "headers_present")) (present_iff go r v) (
          when_iff (str_eq k (codes "headers_absent")) (absent_iff go r v) (
            when_iff (str_eq k (codes "headers_match")) ((match_iff go r v)) (
              when_iff (str_eq k (codes "headers_absent_in_value")) ((absent_in_value_iff go r v)) (
                when_iff (str_eq k (codes "headers_no_blank")) ((no_blank_iff go r v)) (
                  when_iff (str_eq k (codes "body_exact") || str_eq k (codes "body_json"))
                    (body_exact_iff go k r.body v)
                    (when_iff (str_eq k (codes "body_contains")) (body_contains_iff go r v) (
                      when_iff (str_eq k (codes "body_raw")) (body_raw_iff r v) (
                        when_iff (str_eq k (codes "body_jsonpath")) ((paths_iff go r v))
                          (refused _))))))))))))

-- What a key of an `expect:` block asks of a process.
abbrev pub CliAsks : Golib → CliResult → Bytes → Value → Type 0
CliAsks go r k v = When (str_eq k (codes "exit_code")) (ExitAsk go r v) (
    When (str_eq k (codes "dump_contains")) (ContainsAll r.stdout (texts_of go v)) (
      When (str_eq k (codes "stderr_contains")) (ContainsAll r.stderr (texts_of go v))
        (When (str_eq k (codes "dump_reparse_stable")) (ReparseAsk r v) (⊥))))

cli_key_iff :
    (go : Golib) (r : CliResult) (k : Bytes) (v : Value)
    → (check_cli_key go r k v ≡ []) ↔ CliAsks go r k v
unfolding check_cli_key
cli_key_iff go r k v = when_iff (str_eq k (codes "exit_code")) (exit_code_iff go r v) (
    when_iff (str_eq k (codes "dump_contains"))
      (output_contains_iff go (codes "dump_contains") r.stdout v)
      (when_iff (str_eq k (codes "stderr_contains"))
        (output_contains_iff go (codes "stderr_contains") r.stderr v)
        (when_iff (str_eq k (codes "dump_reparse_stable")) (reparse_iff r v) (refused _))))

-- A response passes a case, with no failure, just when it has what every key of the `expect:` block asks
-- for: the status as an integer, and its text; headers that show their texts, that are there or are not
-- there, that match their patterns, that have none of the forbidden texts, or of which no value is
-- blank; a body that is empty, equal as JSON, the same bytes, has all texts in it, or is JSON on which
-- each entry of `body_jsonpath` passes. No response passes a key that is none of the thirteen.
pub check_http_iff :
    (go : Golib) (c : Case) (r : HttpResponse)
    → (check_http go c r ≡ [])
      ↔ ((k : Bytes) (v : Value) → lookup k (entries c.expect) ≡ some v → HttpAsks go r k v)
unfolding check_http
check_http_iff go c r =
    let each = for_each_iff (check_http_key go r) c.expect in
    (
      λ h k v e. (http_key_iff go r k v).0 (each.0 h k v e),
      λ h. each.1 (λ k v e. (http_key_iff go r k v).1 (h k v e)),
    )

-- A process passes a case, with no failure, just when it has what every key of the `expect:` block asks
-- for: the exit code as an integer, or any but zero for the text nonzero; all texts in its output, for
-- `dump_contains`, or on its standard error; and a second dump equal to the first. No process passes a key
-- that is not one of the four.
pub check_cli_iff :
    (go : Golib) (c : Case) (r : CliResult)
    → (check_cli go c r ≡ [])
      ↔ ((k : Bytes) (v : Value) → lookup k (entries c.expect) ≡ some v → CliAsks go r k v)
unfolding check_cli
check_cli_iff go c r =
    let each = for_each_iff (check_cli_key go r) c.expect in
    (
      λ h k v e. (cli_key_iff go r k v).0 (each.0 h k v e),
      λ h. each.1 (λ k v e. (cli_key_iff go r k v).1 (h k v e)),
    )

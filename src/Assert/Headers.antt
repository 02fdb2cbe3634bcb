-- ===== src/Assert/Headers.antt =====
-- The checks of assert.go on the status and the headers of a response.
use postgrest_conformance.Base.{
  Bool, true, false, List, [], ◌∷◌, ◌++◌, Option, none, some, if◌then◌else◌, is_empty,
}
use postgrest_conformance.Base.Text.{Bytes, codes, str_eq, str_le, contains, trim_space}
use postgrest_conformance.Base.Int.{ℤ, int_eq}
use postgrest_conformance.Base.Sort.{sort}
use postgrest_conformance.Value.{Value, bool, array, object, Golib}
use postgrest_conformance.Assert.{
  Header, HttpResponse, Failure, bad_expectation, number_differs, text_differs, header_missing,
  header_differs, header_present, invalid_pattern, no_match, forbidden, blank, folded_header,
  literal_header, expected_scalar, to_string_list, to_int, for_each, for_items, for_texts,
}

unfoldable pub compare_numbers : Bytes → ℤ → Option ℤ → List Failure
unfolding int_eq
compare_numbers key got none = bad_expectation key ∷ []
compare_numbers key got (some want) =
    if int_eq got want then [] else number_differs key got want ∷ []

-- `checkStatus`
unfoldable pub check_status : Golib → HttpResponse → Value → List Failure
unfolding compare_numbers to_int
check_status go r v = compare_numbers (codes "status") r.status_code (to_int go v)

-- `checkStatusText`
unfoldable pub check_status_text : Golib → HttpResponse → Value → List Failure
unfolding expected_scalar str_eq
check_status_text go r v =
    if str_eq r.reason (expected_scalar go v)
    then []
    else text_differs (codes "status_text") r.reason (expected_scalar go v) ∷ []

-- one name of `headers`, on the header's folded value
unfoldable pub header_equals : Bytes → Bytes → Option Bytes → List Failure
unfolding str_eq
header_equals name want none = header_missing (codes "headers") name ∷ []
header_equals name want (some got) =
    if str_eq got want then [] else header_differs name got want ∷ []

-- `checkHeaders`
unfoldable pub check_headers : Golib → HttpResponse → Value → List Failure
unfolding header_equals folded_header expected_scalar for_each
check_headers go r (object m) =
    for_each
      (λ name v.
        header_equals name (expected_scalar go v) (folded_header r.header name r.content_length))
      m
check_headers go r v = bad_expectation (codes "headers") ∷ []

unfoldable pub must_be_there : Bytes → Option Bytes → List Failure
must_be_there name none = header_missing (codes "headers_present") name ∷ []
must_be_there name (some got) = []

-- `checkHeadersPresent`
unfoldable pub check_headers_present : Golib → HttpResponse → Value → List Failure
unfolding must_be_there literal_header expected_scalar for_items
check_headers_present go r (array names) =
    for_items
      (λ v. must_be_there (expected_scalar go v) (literal_header r.header (expected_scalar go v)))
      names
check_headers_present go r v = bad_expectation (codes "headers_present") ∷ []

unfoldable pub must_not_be_there : Bytes → Option Bytes → List Failure
must_not_be_there name none = []
must_not_be_there name (some got) = header_present name got ∷ []

-- `checkHeadersAbsent`
unfoldable pub check_headers_absent : Golib → HttpResponse → Value → List Failure
unfolding must_not_be_there literal_header expected_scalar for_items
check_headers_absent go r (array names) =
    for_items
      (λ v.
        must_not_be_there (expected_scalar go v) (literal_header r.header (expected_scalar go v)))
      names
check_headers_absent go r v = bad_expectation (codes "headers_absent") ∷ []

unfoldable pub pattern_matches : Bytes → Bytes → Bytes → Option (Bytes → Bool) → List Failure
pattern_matches name pattern' got none = invalid_pattern name pattern' ∷ []
pattern_matches name pattern' got (some re) = if re got then [] else no_match name got pattern' ∷ []

unfoldable pub header_matches : Golib → Bytes → Bytes → Option Bytes → List Failure
unfolding pattern_matches
header_matches go name pattern' none = header_missing (codes "headers_match") name ∷ []
header_matches go name pattern' (some got) = pattern_matches name pattern' got (go.compile pattern')

-- `checkHeadersMatch`
unfoldable pub check_headers_match : Golib → HttpResponse → Value → List Failure
unfolding header_matches folded_header expected_scalar for_each
check_headers_match go r (object m) =
    for_each
      (λ name v.
        header_matches go name (expected_scalar go v)
          (folded_header r.header name r.content_length))
      m
check_headers_match go r v = bad_expectation (codes "headers_match") ∷ []

-- a header that is missing is the empty text here
abbrev pub or_empty : Option Bytes → Bytes
or_empty (some s) = s
or_empty none = []

unfoldable pub lacks_all : Bytes → Bytes → List Bytes → List Failure
unfolding for_texts contains
lacks_all name got substrs =
    for_texts (λ s. if contains got s then forbidden name got s ∷ [] else []) substrs

-- `checkHeadersAbsentInValue`
unfoldable pub check_headers_absent_in_value : Golib → HttpResponse → Value → List Failure
unfolding lacks_all folded_header to_string_list for_each
check_headers_absent_in_value go r (object m) =
    for_each
      (λ name v.
        lacks_all name (or_empty (folded_header r.header name r.content_length))
          (to_string_list go v))
      m
check_headers_absent_in_value go r v = bad_expectation (codes "headers_absent_in_value") ∷ []

unfoldable pub blank_values : Bytes → List Bytes → List Failure
unfolding trim_space
blank_values name [] = []
blank_values name (v ∷ vs) =
    (if is_empty (trim_space v) then blank name v ∷ [] else []) ++ blank_values name vs

-- the two loops of `checkHeadersNoBlank`
unfoldable pub all_blank_values : Header → List Failure
unfolding blank_values
all_blank_values [] = []
all_blank_values ((name, vs) ∷ h) = blank_values name vs ++ all_blank_values h

-- The order of the messages, which is that of their texts: `headers_no_blank: header` with the
-- quoted name, then `has blank value` with the quoted value. Quoting is `%q`'s.
abbrev blank_text : (Bytes → Bytes) → Failure → Bytes
blank_text quote (blank name v) =
    codes "headers_no_blank: header " ++ (quote name ++ (codes " has blank value " ++ quote v))
blank_text quote _ = []

abbrev pub blank_le : (Bytes → Bytes) → Failure → Failure → Bool
blank_le quote a b = str_le (blank_text quote a) (blank_text quote b)

-- `checkHeadersNoBlank`
unfoldable pub check_headers_no_blank : Golib → HttpResponse → Value → List Failure
unfolding all_blank_values sort str_le
check_headers_no_blank go r (bool true) = sort (blank_le go.quote_text) (all_blank_values r.header)
check_headers_no_blank go r (bool false) = []
check_headers_no_blank go r v = bad_expectation (codes "headers_no_blank") ∷ []

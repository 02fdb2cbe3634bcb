-- ===== src/Assert.antt =====
-- tools/oracle/internal/assert/assert.go: what a response or a process must be to pass a case. A check
-- answers the list of its failures, each a value with what its message is made from.
pub mod Headers
pub mod Body
pub mod Commands
pub mod Check
pub mod Verdict
pub mod Semantics
pub mod Predicates
pub mod Texts
pub mod Responses
pub mod Processes
pub mod Matching
pub mod Patterns
pub mod Passing
use postgrest_conformance.Base.{
  ℕ, ◌+◌, ◌-◌, Bool, true, false, not, ◌&&◌, ◌||◌, List, [], ◌∷◌, ◌++◌, Option, none, some, ◌==◌,
  leb, if◌then◌else◌, all,
}
use postgrest_conformance.Base.Text.{Bytes, codes, str_eq, equal_fold, join, upper_byte}
use postgrest_conformance.Base.Assoc.{Assoc, lookup, keys}
use postgrest_conformance.Base.Decimal.{int_text}
use postgrest_conformance.Base.Int.{ℤ, pos, negsuc, int_of_uint64}
use postgrest_conformance.Base.Sort.{sort, sort_strings}
use postgrest_conformance.Value.{
  Value, null, bool, int, int64, uint64, float64, string, array, Items, nil, cons, Fields, entries,
  Golib,
}
use postgrest_conformance.Jsonval.Path.{PathError}

-- `http.Header`: the values of each name, in its canonical spelling
abbrev pub Header : Type 0
Header = Assoc (List Bytes)

-- `HTTPResponse`
pub record HttpResponse : Type 0 where
  pub status_code : ℤ
  pub reason : Bytes
  pub header : Header
  pub body : Bytes
  pub content_length : ℤ

-- `CLIResult`; `redump` is there if the second dump ran
pub record CliResult : Type 0 where
  pub exit_code : ℤ
  pub stdout : Bytes
  pub stderr : Bytes
  pub redump : Option Bytes

-- One constructor for each message, with the values in it: the key of the assertion first where
-- several share a message.
pub data Failure : Type 0 where
  bad_expectation : Bytes → Failure
  unhandled : Bytes → Failure
  number_differs : Bytes → ℤ → ℤ → Failure
  exit_zero : Failure
  text_differs : Bytes → Bytes → Bytes → Failure
  header_missing : Bytes → Bytes → Failure
  header_differs : Bytes → Bytes → Bytes → Failure
  header_present : Bytes → Bytes → Failure
  invalid_pattern : Bytes → Bytes → Failure
  no_match : Bytes → Bytes → Bytes → Failure
  forbidden : Bytes → Bytes → Bytes → Failure
  blank : Bytes → Bytes → Failure
  body_not_empty : Bytes → ℕ → Failure
  invalid_json : Bytes → Failure
  value_differs : Bytes → Value → Value → Failure
  not_contained : Bytes → Bytes → Failure
  entry_not_mapping : Failure
  path_refused : Bytes → PathError → Failure
  path_missing : Bytes → Failure
  path_differs : Bytes → Value → Value → Failure
  path_present : Bytes → Value → Failure
  no_predicate : Bytes → Failure
  redump_missing : Failure
  redump_differs : Bytes → Bytes → Failure

-- a byte of a header's name, by RFC 7230
abbrev is_token : ℕ → Bool
is_token c =
    leb b'a' c && leb c b'z'
    || leb b'A' c && leb c b'Z'
    || leb b'0' c && leb c b'9'
    || c == b'!'
    || leb b'#' c && leb c b'\''
    || c == b'*'
    || c == b'+'
    || c == b'-'
    || c == b'.'
    || leb b'^' c && leb c b'`'
    || c == b'|'
    || c == b'~'

abbrev lower_byte : ℕ → ℕ
lower_byte c = if leb b'A' c && leb c b'Z' then c + 32 else c

-- a capital at the start and behind each dash
capitalize : Bool → Bytes → Bytes
capitalize up [] = []
capitalize up (c ∷ s) = (if up then upper_byte c else lower_byte c) ∷ capitalize (c == b'-') s

-- `textproto.CanonicalMIMEHeaderKey`
unfoldable pub canonical : Bytes → Bytes
unfolding capitalize
canonical name = if all is_token name then capitalize true name else name

abbrev pub or_none : Option (List Bytes) → List Bytes
or_none (some vs) = vs
or_none none = []

-- `h.Values(name)`
unfoldable pub values : Header → Bytes → List Bytes
unfolding canonical lookup
values h name = or_none (lookup (canonical name) h)

-- the separator of folded values
unfoldable pub separator : Bytes → Bytes
unfolding equal_fold
separator name = if equal_fold name (codes "Set-Cookie") then codes "\n" else codes ", "

-- the lookup shared by the two functions below, with what stands in for a header that is not there
unfoldable pub fold_or : List Bytes → Bytes → Option Bytes → Option Bytes
unfolding separator join
fold_or [] name missing = missing
fold_or (v ∷ vs) name missing = some (join (v ∷ vs) (separator name))

-- the length that stands in for a Content-Length header
unfoldable pub synthesized : Bytes → ℤ → Option Bytes
unfolding equal_fold int_text
synthesized name (negsuc n) = none
synthesized name (pos n) =
    if equal_fold name (codes "Content-Length") then some (int_text (pos n)) else none

-- `foldedHeader`
unfoldable pub folded_header : Header → Bytes → ℤ → Option Bytes
unfolding fold_or synthesized values
folded_header h name len = fold_or (values h name) name (synthesized name len)

-- `literalHeader`
unfoldable pub literal_header : Header → Bytes → Option Bytes
unfolding fold_or values
literal_header h name = fold_or (values h name) name none

-- `expectedScalar`
unfoldable pub expected_scalar : Golib → Value → Bytes
expected_scalar go (string s) = s
expected_scalar go v = go.value_text v

unfoldable pub expected_scalars : Golib → Items → List Bytes
unfolding expected_scalar
expected_scalars go nil = []
expected_scalars go (cons v vs) = expected_scalar go v ∷ expected_scalars go vs

-- `toStringList`
unfoldable pub to_string_list : Golib → Value → List Bytes
unfolding expected_scalars
to_string_list go (string s) = s ∷ []
to_string_list go (array vs) = expected_scalars go vs
to_string_list go v = expected_scalar go v ∷ []

-- `toInt`
unfoldable pub to_int : Golib → Value → Option ℤ
unfolding int_of_uint64
to_int go (int n) = some n
to_int go (int64 n) = some n
to_int go (uint64 n) = some (int_of_uint64 n)
to_int go (float64 n) = go.float_int n
to_int go _ = none

-- `truthy`; a missing key gives no value
unfoldable pub truthy : Option Value → Bool
truthy (some (bool b)) = b
truthy _ = false

abbrev pub or_null : Option Value → Value
or_null (some v) = v
or_null none = null

-- `for _, k := range sortedKeys(m)`, with `m[k]`, each turn appending its failures
unfoldable pub for_sorted : (Bytes → Value → List Failure) → Fields → List Bytes → List Failure
for_sorted f m [] = []
for_sorted f m (k ∷ ks) = f k (or_null (lookup k (entries m))) ++ for_sorted f m ks

unfoldable pub for_each : (Bytes → Value → List Failure) → Fields → List Failure
for_each f m = for_sorted f m (sort_strings (keys (entries m)))

-- `for _, item := range list`
unfoldable pub for_items : (Value → List Failure) → Items → List Failure
for_items f nil = []
for_items f (cons v vs) = f v ++ for_items f vs

-- the same over texts
unfoldable pub for_texts : (Bytes → List Failure) → List Bytes → List Failure
for_texts f [] = []
for_texts f (s ∷ ss) = f s ++ for_texts f ss

-- ===== src/Cases/Load.antt =====
-- `Load` and `LoadAll` of cases.go, on documents that yaml.v3 has parsed.
pub mod Order
use postgrest_conformance.Base.{
  ◌||◌, Bool, true, false, List, [], ◌∷◌, ◌++◌, none, some, if◌then◌else◌, is_some, ◌==◌,
}
use postgrest_conformance.Base.Text.{Bytes, codes, str_eq}
use postgrest_conformance.Base.Assoc.{lookup, mem}
use postgrest_conformance.Base.Int.{ℤ, int_eq, int_le}
use postgrest_conformance.Base.Result.{Result, ok, err, ◌>>=◌, ◌>>◌}
use postgrest_conformance.Base.Sort.{sort}
use postgrest_conformance.Value.{Value, Fields, end, field, entries, Golib}
use postgrest_conformance.Cases.{
  Case, LoadError, root_not_mapping, missing_key, wrong_type, unknown_expect_key, duplicate_id,
  as_string, as_object, to_int, optional_string,
}
use postgrest_conformance.Cases.RequestParser.{parse_request}
use postgrest_conformance.Cases.Settings.{parse_config}
use postgrest_conformance.Cases.Normalize.{normalize_fields}

-- `allowedExpectKeys`
abbrev pub allowed_expect_keys : List Bytes
allowed_expect_keys =
    codes "status"
    ∷ codes "status_text"
    ∷ codes "headers"
    ∷ codes "headers_present"
    ∷ codes "headers_absent"
    ∷ codes "headers_match"
    ∷ codes "headers_absent_in_value"
    ∷ codes "headers_no_blank"
    ∷ codes "body_exact"
    ∷ codes "body_json"
    ∷ codes "body_contains"
    ∷ codes "body_raw"
    ∷ codes "body_jsonpath"
    ∷ codes "exit_code"
    ∷ codes "dump_contains"
    ∷ codes "stderr_contains"
    ∷ codes "dump_reparse_stable"
    ∷ []

-- `requiredKeys`
abbrev pub required_keys : List Bytes
required_keys =
    codes "id"
    ∷ codes "feature"
    ∷ codes "request"
    ∷ codes "schema"
    ∷ codes "expect"
    ∷ codes "source"
    ∷ []

unfoldable pub check_required : List Bytes → Fields → Result LoadError (Unit {0})
unfolding lookup
check_required [] root = ok tt
check_required (k ∷ ks) root =
    if is_some (lookup k (entries root)) then check_required ks root else err (missing_key k)

unfoldable pub check_expect_keys : Fields → Result LoadError (Unit {0})
unfolding str_eq
check_expect_keys end = ok tt
check_expect_keys (field k v fs) =
    if mem k allowed_expect_keys then check_expect_keys fs else err (unknown_expect_key k)

-- the part of the feature before its first '/', or all of it
unfoldable pub area_of : Bytes → Bytes
area_of [] = []
area_of (c ∷ s) = elim (c == b'/') [ true ↦ [] | false ↦ c ∷ area_of s ]

-- `root[k]`; a missing key is the untyped nil, which no type assertion accepts
unfoldable pub member_or_null : Fields → Bytes → Value
unfolding lookup
member_or_null m k = elim (lookup k (entries m)) [ none ↦ Value.null | some v ↦ v ]

unfoldable pub load_root : Golib → Bytes → Fields → Result LoadError Case
unfolding check_required check_expect_keys area_of member_or_null as_string as_object to_int
    optional_string parse_request parse_config normalize_fields lookup
load_root go path root = do
  check_required required_keys root
  id ← to_int go (member_or_null root (codes "id"))
  feature ← as_string (member_or_null root (codes "feature")) (wrong_type (codes "feature"))
  schema ← as_string (member_or_null root (codes "schema")) (wrong_type (codes "schema"))
  source ← as_string (member_or_null root (codes "source")) (wrong_type (codes "source"))
  notes ← optional_string root (codes "notes")
  request_raw ← as_object (member_or_null root (codes "request")) (wrong_type (codes "request"))
  request ← parse_request go request_raw
  expect_raw ← as_object (member_or_null root (codes "expect")) (wrong_type (codes "expect"))
  check_expect_keys expect_raw
  config ← parse_config go (lookup (codes "config") (entries root))
  ok (record {
    id = id;
    feature = feature;
    area = area_of feature;
    schema = schema;
    request = request;
    config = config;
    expect = normalize_fields go expect_raw;
    notes = notes;
    source = source;
    path = path;
  })

-- `Load`
unfoldable pub load : Golib → Bytes → Value → Result LoadError Case
unfolding load_root as_object
load go path doc = as_object doc root_not_mapping >>= load_root go path

unfoldable pub has_id : ℤ → List Case → Bool
unfolding int_eq
has_id n [] = false
has_id n (c ∷ cs) = int_eq n c.id || has_id n cs

-- the loop of `LoadAll`; `out` is what is loaded so far
unfoldable pub load_each : Golib → List (Bytes × Value) → List Case → Result LoadError (List Case)
unfolding load has_id
load_each go [] out = ok out
load_each go ((path, doc) ∷ docs) out = do
  c ← load go path doc
  if has_id c.id out then err (duplicate_id c.id) else load_each go docs (out ++ c ∷ [])

abbrev pub id_le : Case → Case → Bool
id_le a b = int_le a.id b.id

-- `LoadAll`, on the files of the directory
unfoldable pub load_all : Golib → List (Bytes × Value) → Result LoadError (List Case)
unfolding load_each sort
load_all go docs = load_each go docs [] >>= λ cs. ok (sort id_le cs)

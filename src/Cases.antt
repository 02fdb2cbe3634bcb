-- ===== src/Cases.antt =====
-- tools/oracle/internal/cases/cases.go: a test case as it is loaded from a YAML file. The file's text
-- is parsed by yaml.v3, whose answer, a `Value`, is where the model begins.
pub mod RequestParser
pub mod Settings
pub mod Normalize
pub mod Load
use postgrest_conformance.Base.{Bool, true, false, List, [], ◌∷◌, Option, none, some, if◌then◌else◌}
use postgrest_conformance.Base.Text.{Bytes, codes}
use postgrest_conformance.Base.Assoc.{Assoc, lookup}
use postgrest_conformance.Base.Decimal.{int_text, itoa}
use postgrest_conformance.Base.Int.{ℤ, int_of_uint64}
use postgrest_conformance.Base.Result.{Result, ok, err, ◌>>=◌}
use postgrest_conformance.Value.{
  Value, null, bool, int, int64, uint64, float64, string, number, array, object, any_map, other,
  Items, Fields, entries, Golib,
}

pub record Jwt : Type 0 where
  pub sign_with : Bytes
  pub payload : Fields

-- The source's `Kind` is "" or "cli".
pub data Kind : Type 0 where
  http cli : Kind

-- A field with its `Has…` flag is an option.
pub record Request : Type 0 where
  pub kind : Kind
  pub method : Bytes
  pub path : Bytes
  pub headers : Assoc Bytes
  pub jwt : Option Jwt
  pub body : Option Value
  pub body_json : Option Value
  pub body_raw : Option Bytes
  pub flag : Bytes

pub record Config : Type 0 where
  pub present : Bool
  pub keys : Assoc Value
  pub env : Assoc Bytes
  pub file : Assoc Value
  pub preconditions_sql : List Bytes

pub record Case : Type 0 where
  pub id : ℤ
  pub feature : Bytes
  pub area : Bytes
  pub schema : Bytes
  pub request : Request
  pub config : Config
  pub expect : Fields
  pub notes : Bytes
  pub source : Bytes
  pub path : Bytes

-- The errors of loading, one for each message.
pub data LoadError : Type 0 where
  root_not_mapping flag_required method_and_path_required payload_required : LoadError
  missing_key wrong_type unknown_kind not_scalar unknown_expect_key : Bytes → LoadError
  not_integer : LoadError
  duplicate_id : ℤ → LoadError

-- `v.(string)`, `v.(map[string]any)` and `v.([]any)`
unfoldable pub as_string : Value → LoadError → Result LoadError Bytes
as_string (string s) e = ok s
as_string _ e = err e

unfoldable pub as_object : Value → LoadError → Result LoadError Fields
as_object (object fs) e = ok fs
as_object _ e = err e

unfoldable pub as_list : Value → LoadError → Result LoadError Items
as_list (array xs) e = ok xs
as_list _ e = err e

-- `scalarString`
unfoldable pub scalar_string : Golib → Value → LoadError → Result LoadError Bytes
unfolding int_text itoa
scalar_string go (string s) e = ok s
scalar_string go (int n) e = ok (int_text n)
scalar_string go (int64 n) e = ok (int_text n)
scalar_string go (uint64 n) e = ok (itoa n)
scalar_string go (float64 n) e = ok (go.float_text n)
scalar_string go (bool b) e = ok (if b then codes "true" else codes "false")
scalar_string go _ e = err e

whole_float : Option ℤ → Result LoadError ℤ
whole_float (some n) = ok n
whole_float none = err not_integer

-- `toInt`
unfoldable pub to_int : Golib → Value → Result LoadError ℤ
unfolding int_of_uint64 whole_float
to_int go (int n) = ok n
to_int go (int64 n) = ok n
to_int go (uint64 n) = ok (int_of_uint64 n)
to_int go (float64 n) = whole_float (go.float_int n)
to_int go _ = err not_integer

-- `if v, ok := m[k]; ok { … }`, a text that may be left out
optional_text : Option Value → LoadError → Result LoadError Bytes
unfolding as_string
optional_text none e = ok []
optional_text (some v) e = as_string v e

unfoldable pub optional_string : Fields → Bytes → Result LoadError Bytes
unfolding optional_text lookup
optional_string m k = optional_text (lookup k (entries m)) (wrong_type k)

-- A map of scalars, each turned to text: `for k, v := range hm`
unfoldable pub scalar_map : Golib → Fields → Result LoadError (Assoc Bytes)
unfolding scalar_string
scalar_map go Fields.end = ok []
scalar_map go (Fields.field k v fs) = do
  s ← scalar_string go v (not_scalar k)
  rest ← scalar_map go fs
  ok ((k, s) ∷ rest)

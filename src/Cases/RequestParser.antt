-- ===== src/Cases/RequestParser.antt =====
-- `parseRequest` of cases.go.
use postgrest_conformance.Base.{◌||◌, [], Option, none, some, if◌then◌else◌, is_empty}
use postgrest_conformance.Base.Text.{Bytes, codes, str_eq}
use postgrest_conformance.Base.Assoc.{Assoc, lookup}
use postgrest_conformance.Base.Result.{Result, ok, err, ◌>>=◌, ◌>>◌}
use postgrest_conformance.Value.{Value, Fields, entries, Golib}
use postgrest_conformance.Cases.{
  Jwt, Kind, http, cli, Request, LoadError, flag_required, method_and_path_required,
  payload_required, wrong_type, unknown_kind, as_string, as_object, optional_string, scalar_map,
}

-- `switch s` on the kind
kind_of_text : Bytes → Result LoadError Kind
kind_of_text s =
    if str_eq s [] || str_eq s (codes "http")
    then ok http
    else if str_eq s (codes "cli")
    then ok cli
    else err (unknown_kind s)

unfoldable pub parse_kind : Option Value → Result LoadError Kind
unfolding kind_of_text as_string str_eq
parse_kind none = ok http
parse_kind (some v) = as_string v (wrong_type (codes "kind")) >>= kind_of_text

-- the fields that the kind requires
unfoldable pub check_shape : Kind → Bytes → Bytes → Bytes → Result LoadError (Unit {0})
check_shape cli method path flag = if is_empty flag then err flag_required else ok tt
check_shape http method path flag =
    if is_empty method || is_empty path then err method_and_path_required else ok tt

parse_headers : Golib → Option Value → Result LoadError (Assoc Bytes)
unfolding as_object scalar_map
parse_headers go none = ok []
parse_headers go (some v) = as_object v (wrong_type (codes "headers")) >>= scalar_map go

required_payload : Option Value → Result LoadError Fields
unfolding as_object
required_payload none = err payload_required
required_payload (some v) = as_object v (wrong_type (codes "jwt.payload"))

parse_jwt : Option Value → Result LoadError (Option Jwt)
unfolding as_object required_payload optional_string lookup
parse_jwt none = ok none
parse_jwt (some v) = do
  m ← as_object v (wrong_type (codes "jwt"))
  payload ← required_payload (lookup (codes "payload") (entries m))
  sign_with ← optional_string m (codes "sign_with")
  ok (some (record { sign_with = sign_with; payload = payload }))

parse_body_raw : Option Value → Result LoadError (Option Bytes)
unfolding as_string
parse_body_raw none = ok none
parse_body_raw (some v) = as_string v (wrong_type (codes "body_raw")) >>= λ s. ok (some s)

-- The checks in the order of the source; the first that fails is the error.
unfoldable pub parse_request : Golib → Fields → Result LoadError Request
unfolding parse_kind check_shape parse_headers parse_jwt parse_body_raw optional_string lookup
parse_request go m = do
  kind ← parse_kind (lookup (codes "kind") (entries m))
  method ← optional_string m (codes "method")
  path ← optional_string m (codes "path")
  flag ← optional_string m (codes "flag")
  check_shape kind method path flag
  headers ← parse_headers go (lookup (codes "headers") (entries m))
  jwt ← parse_jwt (lookup (codes "jwt") (entries m))
  body_raw ← parse_body_raw (lookup (codes "body_raw") (entries m))
  ok (record {
    kind = kind;
    method = method;
    path = path;
    headers = headers;
    jwt = jwt;
    body = lookup (codes "body") (entries m);
    body_json = lookup (codes "body_json") (entries m);
    body_raw = body_raw;
    flag = flag;
  })

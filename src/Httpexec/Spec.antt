-- ===== src/Httpexec/Spec.antt =====
-- tools/oracle/internal/httpexec/exec.go and jwt.go: the request that a case becomes. The encoding of
-- JSON, base64 and the HMAC are the libraries', parameters here; sending the request is net/http's.
pub mod Headers
use postgrest_conformance.Base.{
  Bool, true, false, not, ◌&&◌, ◌||◌, List, [], ◌∷◌, ◌++◌, Option, none, some, if◌then◌else◌,
  is_empty, any,
}
use postgrest_conformance.Base.Text.{Bytes, codes, str_eq, equal_fold, to_upper}
use postgrest_conformance.Base.Assoc.{Assoc, insert, keys, mem}
use postgrest_conformance.Base.Int.{ℤ}
use postgrest_conformance.Base.Result.{Result, ok, err, ◌>>=◌}
use postgrest_conformance.Value.{Value, string, object}
use postgrest_conformance.Cases.{Case, Request, Jwt}

-- `marshalNoHTMLEscape`'s encoder (none on an error), base64.RawURLEncoding, and the HMAC with SHA-256 of
-- a secret and a text
pub record Wire : Type 0 where
  pub marshal : Value → Option Bytes
  pub base64 : Bytes → Bytes
  pub hmac : Bytes → Bytes → Bytes

pub record Spec : Type 0 where
  pub method : Bytes
  pub path : Bytes
  pub headers : Assoc Bytes
  pub body : Option Bytes

pub data SpecError : Type 0 where
  unknown_sign_with : ℤ → Bytes → SpecError
  not_encodable : SpecError

-- `writeMethods`
abbrev pub write_methods : List Bytes
write_methods = codes "POST" ∷ codes "PATCH" ∷ codes "PUT" ∷ codes "DELETE" ∷ []

-- `profileHeaderName`
unfoldable pub profile_header_name : Bytes → Bytes
unfolding to_upper str_eq
profile_header_name method =
    if mem (to_upper method) write_methods then codes "Content-Profile" else codes "Accept-Profile"

-- `hasHeader`
unfoldable pub has_header : Assoc Bytes → Bytes → Bool
has_header h name = any (λ k. equal_fold k name) (keys h)

unfoldable pub put_new : Bytes → Bytes → Assoc Bytes → Assoc Bytes
put_new name v h = if has_header h name then h else insert name v h

abbrev encoded : Option Bytes → Result SpecError Bytes
encoded (some b) = ok b
encoded none = err not_encodable

abbrev pub authorization : Bytes
authorization = codes "Authorization"

-- `HS256TestSecret`
abbrev pub hs256_test_secret : Bytes
hs256_test_secret = codes "reallyreallyreallyreallyverysafe"

-- `MintHS256`
unfoldable pub mint_hs256 : Wire → Value → Bytes → Result SpecError Bytes
mint_hs256 w payload secret = encoded (w.marshal payload) >>= λ pl.
    let signing = w.base64 (codes "{\"alg\":\"HS256\",\"typ\":\"JWT\"}") ++ (b'.' ∷ w.base64 pl) in
    ok (signing ++ (b'.' ∷ w.base64 (w.hmac secret signing)))

-- the header of a minted token, where the case has no such header of its own
unfoldable pub add_token : Wire → ℤ → Option Jwt → Assoc Bytes → Result SpecError (Assoc Bytes)
add_token w id none h = ok h
add_token w id (some jwt) h =
    if has_header h authorization
    then ok h
    else if str_eq jwt.sign_with (codes "hs256_test_secret")
    then (mint_hs256 w (object jwt.payload) hs256_test_secret >>= λ tok.
        ok (insert authorization (codes "Bearer " ++ tok) h))
    else err (unknown_sign_with id jwt.sign_with)

-- the profile header of a schema label, where there is one
unfoldable pub add_profile : Bytes → Bytes → Assoc Bytes → Assoc Bytes
add_profile method profile h =
    if is_empty profile then h else put_new (profile_header_name method) profile h

abbrev some_body : Option Bytes → Result SpecError (Option Bytes)
some_body b = encoded b >>= λ s. ok (some s)

plain_body : Wire → Option Value → Result SpecError (Option Bytes)
plain_body w none = ok none
plain_body w (some (string s)) = ok (some s)
plain_body w (some v) = some_body (w.marshal v)

json_body : Wire → Option Value → Option Value → Result SpecError (Option Bytes)
unfolding plain_body
json_body w (some v) body = some_body (w.marshal v)
json_body w none body = plain_body w body

-- the switch over the bodies, by their precedence
unfoldable pub body_of :
    Wire → Option Bytes → Option Value → Option Value → Result SpecError (Option Bytes)
unfolding json_body
body_of w (some raw) json body = ok (some raw)
body_of w none json body = json_body w json body

-- `BuildSpec`
unfoldable pub build_spec : Wire → Case → Bytes → Result SpecError Spec
build_spec w c profile = do
  h ← add_token w c.id c.request.jwt (add_profile c.request.method profile c.request.headers)
  b ← body_of w c.request.body_raw c.request.body_json c.request.body
  ok (record { method = c.request.method; path = c.request.path; headers = h; body = b })

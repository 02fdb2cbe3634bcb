-- ===== src/Httpexec/Spec/Headers.antt =====
-- Lemmas on the headers of the request that exec.go builds.
use postgrest_conformance.Base.{
  ◌⊎◌, sym, ◌&&◌, if◌then◌else◌, not, Bool, true, false, ◌||◌, List, [], ◌∷◌, ◌++◌, Option, none,
  some, ◌≡◌, refl, ◌∙◌, is_empty, any, arith, Bool-cases, inl, inr, ap,
}
use postgrest_conformance.Base.Text.{
  Bytes, codes, str_eq, str_eq_iff, str_eq_refl, equal_fold, to_upper,
}
use postgrest_conformance.Base.Assoc.{Assoc, lookup, insert, keys, mem, lookup-insert}
use postgrest_conformance.Base.Result.{Result, ok, err, >>=-eq-ok}
use postgrest_conformance.Base.Int.{ℤ}
use postgrest_conformance.Cases.{Case, Jwt}
use postgrest_conformance.Value.{object}
use postgrest_conformance.Httpexec.Spec.{
  Wire, Spec, SpecError, has_header, put_new, add_profile, add_token, mint_hs256, hs256_test_secret,
  authorization, profile_header_name, build_spec, body_of,
}

equal_fold_refl : (s : Bytes) → equal_fold s s ≡ true
unfolding equal_fold
equal_fold_refl s = str_eq_refl (to_upper s)

any-keys-insert :
    (p : Bytes → Bool) (k v : Bytes) (h : Assoc Bytes)
    → any p (keys (insert k v h)) ≡ (p k || any p (keys h))
unfolding insert
any-keys-insert p k v [] = refl
any-keys-insert p k v ((j, w) ∷ h) = elim (Bool-cases (str_eq j k)) [
  | inl same ↦ let e : p j ≡ p k = ap p ((str_eq_iff j k).0 same) in rw same (ground (arith, e))
  | inr other ↦ rw other (ground (arith, any-keys-insert p k v h))
]

mem-any :
    (name : Bytes) (ks : List Bytes) → mem name ks ≡ true → any (λ k. equal_fold k name) ks ≡ true
mem-any name [] h = cc
mem-any name (k ∷ ks) h = elim (Bool-cases (str_eq k name)) [
  | inl same ↦ rw ((str_eq_iff k name).0 same, equal_fold_refl name)
  | inr other ↦ ground (arith, mem-any name ks (rw other at h))
]

-- A header with this name in any letter case.
abbrev pub has_any_case : Assoc Bytes → Bytes → Bool
has_any_case h name = any (λ k. str_eq (to_upper k) (to_upper name)) (keys h)

has_header-any_case : (h : Assoc Bytes) (name : Bytes) → has_header h name ≡ has_any_case h name
unfolding has_header equal_fold
has_header-any_case h name = refl

-- The header of a profile: one for the methods that write, and one for the others.
abbrev pub profile_name : Bytes → Bytes
profile_name method =
    if str_eq (codes "POST") (to_upper method)
      || str_eq (codes "PATCH") (to_upper method)
      || str_eq (codes "PUT") (to_upper method)
      || str_eq (codes "DELETE") (to_upper method)
    then codes "Content-Profile"
    else codes "Accept-Profile"

profile_header_name_lem : (method : Bytes) → profile_header_name method ≡ profile_name method
unfolding profile_header_name
profile_header_name_lem method =
    by_tests (str_eq (codes "POST") (to_upper method)) (str_eq (codes "PATCH") (to_upper method))
      (str_eq (codes "PUT") (to_upper method)) (str_eq (codes "DELETE") (to_upper method))
  where
    by_tests :
        (a b c d : Bool)
        → (if a || (b || (c || (d || false)))
            then codes "Content-Profile"
            else codes "Accept-Profile")
          ≡ (if a || b || c || d then codes "Content-Profile" else codes "Accept-Profile")
    by_tests true b c d = refl
    by_tests false true c d = refl
    by_tests false false true d = refl
    by_tests false false false true = refl
    by_tests false false false false = refl

-- Whether a profile is written: there is one, and the case has no header of that name.
abbrev pub adds_profile : Bytes → Bytes → Assoc Bytes → Bool
adds_profile method profile own =
    not (is_empty profile) && not (has_any_case own (profile_name method))

-- The token that is written: none without a `jwt` or beside an Authorization header of the case, and
-- else the one that is minted from the payload with the test secret.
abbrev pub TokenOf : Wire → Option Jwt → Assoc Bytes → Option Bytes → Type 0
TokenOf w none own tok = tok ≡ none
TokenOf w (some jwt) own tok =
    ((has_any_case own (codes "Authorization") ≡ true) × (tok ≡ none))
    ⊎ ((has_any_case own (codes "Authorization") ≡ false)
        × (jwt.sign_with ≡ codes "hs256_test_secret")
        × ((t : Bytes) × (mint_hs256 w (object jwt.payload) hs256_test_secret ≡ ok t)
            × (tok ≡ some t)))

abbrev pub with_token : Option Bytes → Bytes → Option Bytes → Option Bytes
with_token none k rest = rest
with_token (some t) k rest =
    if str_eq (codes "Authorization") k then some (codes "Bearer " ++ t) else rest

lookup-add_profile :
    (method profile k : Bytes) (own : Assoc Bytes)
    → lookup k (add_profile method profile own) ≡ (
        if adds_profile method profile own && str_eq (profile_name method) k
        then some profile
        else lookup k own)
unfolding add_profile put_new
lookup-add_profile method profile k own =
    rw (profile_header_name_lem method, has_header-any_case own (profile_name method))
      (by_tests (is_empty profile) (has_any_case own (profile_name method)))
  where
    by_tests :
        (a b : Bool)
        → lookup k (if a then own else if b then own else insert (profile_name method) profile own)
          ≡ (if not a && not b && str_eq (profile_name method) k
              then some profile
              else lookup k own)
    by_tests true b = refl
    by_tests false true = refl
    by_tests false false = lookup-insert (profile_name method) k profile own

no_profile_is_authorization :
    (method : Bytes)
    → str_eq (to_upper (profile_name method)) (to_upper (codes "Authorization")) ≡ false
unfolding str_eq to_upper
no_profile_is_authorization method = by_test _
  where
    by_test :
        (t : Bool)
        → str_eq
            (to_upper (if t then codes "Content-Profile" else codes "Accept-Profile"))
            (to_upper (codes "Authorization"))
          ≡ false
    by_test true = refl
    by_test false = refl

has_any_case-add_profile :
    (method profile : Bytes) (own : Assoc Bytes)
    → has_any_case (add_profile method profile own) (codes "Authorization")
      ≡ has_any_case own (codes "Authorization")
unfolding add_profile put_new
has_any_case-add_profile method profile own =
    rw (profile_header_name_lem method, has_header-any_case own (profile_name method))
      (by_tests (is_empty profile) (has_any_case own (profile_name method)))
  where
    by_tests :
        (a b : Bool)
        → has_any_case
            (if a then own else if b then own else insert (profile_name method) profile own)
            (codes "Authorization")
          ≡ has_any_case own (codes "Authorization")
    by_tests true b = refl
    by_tests false true = refl
    by_tests false false =
        any-keys-insert (λ j. str_eq (to_upper j) (to_upper (codes "Authorization")))
          (profile_name method) profile own
        ∙ rw (no_profile_is_authorization method) refl

-- What a step that writes the token makes of the headers.
abbrev Signed : Wire → Option Jwt → Assoc Bytes → Assoc Bytes → Type 0
Signed w jwt h h' =
    (tok : Option Bytes) × TokenOf w jwt h tok
    × ((k : Bytes) → lookup k h' ≡ with_token tok k (lookup k h))

add_token-Signed :
    (w : Wire) (id : ℤ) (jwt : Jwt) (h h' : Assoc Bytes)
    → add_token w id (some jwt) h ≡ ok h'
    → Signed w (some jwt) h h'
unfolding add_token
add_token-Signed w id jwt h h' e = elim (Bool-cases (has_header h authorization)) [
  | inl there ↦
      let same : h ≡ h' = ground (arith, rw there at e) in
      (
        none,
        inl (sym (has_header-any_case h authorization) ∙ there, refl),
        λ k. ap (lookup k) (sym same),
      )
  | inr absent ↦ elim (Bool-cases (str_eq jwt.sign_with (codes "hs256_test_secret"))) [
    | inl known ↦
        let (tok, minted, last) =
          >>=-eq-ok (mint_hs256 w (object jwt.payload) hs256_test_secret)
            (λ tok. ok (insert authorization (codes "Bearer " ++ tok) h))
            (rw (absent, known) at e) in
        let made : insert authorization (codes "Bearer " ++ tok) h ≡ h' = ground (arith, last) in
        (
          some tok,
          inr (
            sym (has_header-any_case h authorization) ∙ absent,
            (str_eq_iff jwt.sign_with (codes "hs256_test_secret")).0 known,
            (tok, minted, refl),
          ),
          λ k. ap (lookup k) (sym made) ∙ lookup-insert authorization k (codes "Bearer " ++ tok) h,
        )
    | inr unknown ↦ let no = rw (absent, unknown) at e in cc
  ]
]

maybe_token-Signed :
    (w : Wire) (id : ℤ) (jwt : Option Jwt) (h h' : Assoc Bytes)
    → add_token w id jwt h ≡ ok h'
    → Signed w jwt h h'
maybe_token-Signed w id none h h' e =
    let same : h ≡ h' = unfold add_token in ground (arith, e) in
    (none, refl, λ k. ap (lookup k) (sym same))
maybe_token-Signed w id (some jwt) h h' e = add_token-Signed w id jwt h h' e

TokenOf-same :
    (w : Wire) (jwt : Option Jwt) (h own : Assoc Bytes) (tok : Option Bytes)
    → has_any_case h (codes "Authorization") ≡ has_any_case own (codes "Authorization")
    → TokenOf w jwt h tok
    → TokenOf w jwt own tok
TokenOf-same w none h own tok e t = t
TokenOf-same w (some jwt) h own tok e (inl (there, absent)) = inl (sym e ∙ there, absent)
TokenOf-same w (some jwt) h own tok e (inr (absent, known, minted)) =
    inr (sym e ∙ absent, known, minted)

abbrev headers_of : Result SpecError Spec → Assoc Bytes
headers_of (ok s) = s.headers
headers_of (err e) = []

-- The headers of a request that is built are those of the case with at most two more: the header of the
-- profile, Content-Profile for the methods that write and Accept-Profile for the others, with the profile
-- as its value, if there is one; and an Authorization header with the minted token, if the case has a
-- `jwt`. Neither is written where the case has a header of that name in any letter case.
pub build_spec_headers :
    (w : Wire) (c : Case) (profile : Bytes) (s : Spec)
    → build_spec w c profile ≡ ok s
    → (tok : Option Bytes) × TokenOf w c.request.jwt c.request.headers tok
      × ((k : Bytes)
          → lookup k s.headers
            ≡ with_token tok k (
                if adds_profile c.request.method profile c.request.headers
                  && str_eq (profile_name c.request.method) k
                then some profile
                else lookup k c.request.headers))
unfolding build_spec
build_spec_headers w c profile s e =
    let (h, signed, later) = >>=-eq-ok _ _ e in
    let (b, _, made) =
      >>=-eq-ok (body_of w c.request.body_raw c.request.body_json c.request.body) _ later in
    let same : h ≡ s.headers = ap headers_of made in
    let (tok, is, gives) = maybe_token-Signed w c.id c.request.jwt _ h signed in
    (
      tok,
      TokenOf-same w c.request.jwt _ c.request.headers tok
          (has_any_case-add_profile c.request.method profile c.request.headers) is,
      λ k.
          ap (lookup k) (sym same)
          ∙ gives k
          ∙ ap (with_token tok k) (lookup-add_profile c.request.method profile k c.request.headers),
    )

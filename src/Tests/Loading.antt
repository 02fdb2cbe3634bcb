-- ===== src/Tests/Loading.antt =====
-- Examples of loading, of the request that is built, and of the groups that run.
use mathlib.Core.List.{Perm}
use postgrest_conformance.Base.{
  ◌&&◌, if◌then◌else◌, ◌++◌, true, List, [], ◌∷◌, Option, none, some, ◌≡◌, refl, All, length, keep,
  any,
}
use postgrest_conformance.Base.Text.{Bytes, codes, str_eq}
use postgrest_conformance.Base.Assoc.{lookup, insert, distinct, mem}
use postgrest_conformance.Base.Int.{ℤ}
use postgrest_conformance.Base.Sort.{IsSorted}
use postgrest_conformance.Base.Result.{ok}
use postgrest_conformance.Value.{Value}
use postgrest_conformance.Cases.{Case}
use postgrest_conformance.Cases.Load.{load_all}
use postgrest_conformance.Cases.Load.Order.{id_lt, load_all_lem}
use postgrest_conformance.Httpexec.Spec.{
  Spec, profile_header_name, has_header, put_new, add_profile, add_token, body_of, build_spec,
}
use postgrest_conformance.Httpexec.Spec.Headers.{
  TokenOf, with_token, adds_profile, profile_name, build_spec_headers,
}
use postgrest_conformance.Route.{Placement}
use postgrest_conformance.Run.{cases_of, bucket, groups_in_order}
use postgrest_conformance.Run.Groups.{keys_of, routed_to}
use postgrest_conformance.Run.Schedule.{groups_in_order_lem}
use postgrest_conformance.Db.{quote_ident, quote_literal}
use postgrest_conformance.Db.Quoting.{read_quoted, read_quoted-quote}
use postgrest_conformance.Tests.Samples.{
  library, sample_case, case_file, loaded_case, wire, placement,
}

abbrev files : List (Bytes × Value)
files = (codes "0007.yaml", case_file) ∷ []

loads : load_all library files ≡ ok (loaded_case ∷ [])
unfolding load_all
loads = refl

load_all_lem_example :
    IsSorted id_lt (loaded_case ∷ []) × (length (loaded_case ∷ []) ≡ length files)
load_all_lem_example = load_all_lem library files (loaded_case ∷ []) loads

abbrev built : Spec
built = record {
  method = codes "GET";
  path = codes "/items";
  headers = (codes "Accept-Profile", codes "auth") ∷ [];
  body = none;
}

builds : build_spec wire sample_case (codes "auth") ≡ ok built
unfolding build_spec add_token add_profile put_new profile_header_name has_header body_of insert
builds = refl

build_spec_headers_example :
    (tok : Option Bytes) × TokenOf wire none [] tok
    × ((k : Bytes)
        → lookup k built.headers
          ≡ with_token tok k (
              if adds_profile (codes "GET") (codes "auth") []
                && str_eq (profile_name (codes "GET")) k
              then some (codes "auth")
              else none))
unfolding lookup
build_spec_headers_example = build_spec_headers wire sample_case (codes "auth") built builds

abbrev everywhere : ℤ → Option Placement
everywhere n = some placement

abbrev selected : List Case
selected = sample_case ∷ loaded_case ∷ []

groups_in_order_lem_example :
    Perm (groups_in_order everywhere selected) (bucket everywhere [] selected)
    × (distinct (keys_of (bucket everywhere [] selected)) ≡ true)
    × ((k : Bytes)
        → mem k (keys_of (bucket everywhere [] selected)) ≡ any (routed_to everywhere k) selected)
    × All
        (λ g. cases_of g ≡ keep (routed_to everywhere g.key) selected)
        (groups_in_order everywhere selected)
groups_in_order_lem_example = groups_in_order_lem everywhere selected

abbrev rpc_only : Option (List Bytes)
rpc_only = some (codes "rpc" ∷ [])

read_quoted-quote_example :
    (read_quoted b'"' (quote_ident (codes "a\"b") ++ codes ".c") ≡ some (codes "a\"b", codes ".c"))
    × (read_quoted b'\'' (quote_literal (codes "a\"b") ++ codes ".c")
        ≡ some (codes "a\"b", codes ".c"))
read_quoted-quote_example = read_quoted-quote (codes "a\"b") (codes ".c") refl refl

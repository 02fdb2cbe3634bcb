-- ===== src/Route.antt =====
-- tools/oracle/internal/route/route.go: which PostgREST instance serves a case.
pub mod Bases
pub mod Harness
pub mod Overlay
pub mod Placements
pub mod GroupKey
use postgrest_conformance.Base.{
  ℕ, Bool, true, false, not, ◌&&◌, ◌||◌, List, [], ◌∷◌, ◌++◌, Option, none, some, ◌==◌,
  if◌then◌else◌, is_empty,
}
use postgrest_conformance.Base.Text.{
  Bytes, codes, str_eq, str_le, has_prefix, replace_all, to_upper, join,
}
use postgrest_conformance.Base.Assoc.{Assoc, lookup, insert, keys, mem}
use postgrest_conformance.Base.Decimal.{int_text, itoa}
use postgrest_conformance.Base.Int.{ℤ, pos, negsuc, int_eq}
use postgrest_conformance.Base.Result.{Result, ok, err, ◌>>=◌}
use postgrest_conformance.Base.Sort.{sort, sort_strings}
use postgrest_conformance.Value.{Value, null, bool, int, int64, uint64, float64, string, Golib}
use postgrest_conformance.Cases.{Case, Kind, http, cli}
use Bases.{asym_jwk, pg_defaults, multi_ids, no_inject_schemas, area_schema_labels, base_configs}

-- `Val`
pub data Val : Type 0 where
  clear : Val
  set : Bytes → Val

pub record Placement : Type 0 where
  pub kind : Kind
  pub base : Bytes
  pub overlay : Assoc Val
  pub safe_update : Bool
  pub inject_profile : Bytes
  pub group_key : Bytes

pub data RouteError : Type 0 where
  safe_update_with_config : ℤ → RouteError
  no_base : Bytes → RouteError
  unsupported_value : Bytes → RouteError

-- `areaBase`
unfoldable pub area_base : Bytes → Result RouteError Bytes
unfolding str_eq
area_base schema =
    if str_eq schema [] || str_eq schema (codes "public")
    then ok (codes "test")
    else if mem schema area_schema_labels
    then ok schema
    else err (no_base schema)

-- `envKey`
unfoldable pub env_key : Bytes → Bytes
unfolding to_upper replace_all
env_key kebab = codes "PGRST_" ++ to_upper (replace_all kebab b'-' (codes "_"))

-- `expandSentinel`
unfoldable pub expand_sentinel : Bytes → Bytes
unfolding str_eq
expand_sentinel s =
    if str_eq s (codes "asymmetric_jwk_public_key")
    then asym_jwk
    else if str_eq s (codes "asymmetric_jwks_public_key")
    then codes "{\"keys\":[" ++ (asym_jwk ++ codes "]}")
    else s

-- the cases of the switch in `translate`
unfoldable pub translate_value : Golib → Bytes → Value → Result RouteError Val
unfolding expand_sentinel int_text itoa
translate_value go k null = ok clear
translate_value go k (bool b) = ok (set (if b then codes "true" else codes "false"))
translate_value go k (int n) = ok (set (int_text n))
translate_value go k (int64 n) = ok (set (int_text n))
translate_value go k (uint64 n) = ok (set (itoa n))
translate_value go k (float64 n) = ok (set (go.float_text n))
translate_value go k (string s) = ok (set (expand_sentinel s))
translate_value go k _ = err (unsupported_value k)

unfoldable pub translate_onto : Golib → Assoc Val → Assoc Value → Result RouteError (Assoc Val)
translate_onto go out [] = ok out
translate_onto go out ((k, v) ∷ cfg) =
    translate_value go k v >>= λ t. translate_onto go (insert (env_key k) t out) cfg

-- `translate`
unfoldable pub translate : Golib → Assoc Value → Result RouteError (Assoc Val)
translate go cfg = translate_onto go [] cfg

-- a key that the base lacks has PostgREST's default, or none
abbrev pub default_of : Option Bytes → Bytes
default_of (some d) = d
default_of none = []

abbrev pub or_default : Bytes → Option Bytes → Bytes
or_default k (some v) = v
or_default k none = default_of (lookup k pg_defaults)

-- `eff`, the effective value of a key
unfoldable pub effective : Assoc Bytes → Bytes → Bytes
unfolding lookup
effective base k = or_default k (lookup k base)

-- `satisfied`
unfoldable pub satisfied : Assoc Bytes → Bytes → Val → Bool
unfolding effective str_eq
satisfied base k clear = is_empty (effective base k)
satisfied base k (set v) = str_eq (effective base k) v

-- the loop that fills `final`
unfoldable pub unsatisfied : Assoc Bytes → Assoc Val → Assoc Val
unfolding satisfied
unsatisfied base [] = []
unsatisfied base ((k, v) ∷ o) =
    if satisfied base k v then unsatisfied base o else (k, v) ∷ unsatisfied base o

-- "∅", in UTF-8
abbrev pub empty_sign : Bytes
empty_sign = 0xe2 ∷ 0x88 ∷ 0x85 ∷ []

unfoldable pub key_part : Bytes → Option Val → Bytes
key_part k (some (set v)) = k ++ (b'=' ∷ v)
key_part k (some clear) = k ++ (b'=' ∷ empty_sign)
key_part k none = k ++ (b'=' ∷ [])

unfoldable pub key_parts : Assoc Val → List Bytes → List Bytes
unfolding key_part lookup
key_parts o [] = []
key_parts o (k ∷ ks) = key_part k (lookup k o) ∷ key_parts o ks

-- `groupKey`
unfoldable pub group_key_of : Bytes → Assoc Val → Bytes
unfolding key_parts sort str_le join
group_key_of base o =
    if is_empty o
    then base
    else base ++ (b'|' ∷ join (key_parts o (sort_strings (keys o))) (codes ";"))

unfoldable pub id_in : ℤ → List ℕ → Bool
id_in (negsuc n) ns = false
id_in (pos n) [] = false
id_in (pos n) (m ∷ ms) = n == m || id_in (pos n) ms

-- the cases that need safeupdate
abbrev pub safe_update_ids : List ℕ
safe_update_ids = 1387 ∷ 1388 ∷ 1389 ∷ []

-- the tests of the `default` branch that choose the auth base
unfoldable pub routes_to_auth : Case → Bool
unfolding str_eq has_prefix
routes_to_auth c =
    str_eq c.schema (codes "auth")
    || str_eq c.schema (codes "openapi")
    || str_eq c.schema (codes "openapi_no_comment")
    || str_eq c.request.path (codes "/")
    || has_prefix c.request.path (codes "/?")

-- the base and the profile to inject, for a case that is not one of the safe-update cases
unfoldable pub choose_base : Case → Result RouteError (Bytes × Bytes)
choose_base c =
    if str_eq c.schema (codes "multi") || id_in c.id multi_ids
    then ok (codes "multi", [])
    else if str_eq c.schema (codes "unicode")
    then ok (codes "unicode", [])
    else if routes_to_auth c
    then ok (codes "auth", (if mem c.schema no_inject_schemas then [] else c.schema))
    else area_base c.schema >>= λ base. ok (base, [])

-- the extras of HARNESS.md §2.5, which win over the case's own config
unfoldable pub add_extras : ℤ → Assoc Val → Assoc Val
add_extras id o =
    if id_in id (1654 ∷ [])
    then insert (codes "PGRST_DB_SCHEMAS") (set (codes "openapi_no_comment")) o
    else if id_in id (1690 ∷ [])
    then insert (codes "PGRST_DB_SCHEMAS") (set (codes "SCHEMA_v3")) o
    else if id_in id (1764 ∷ [])
    then insert (codes "PGRST_JWT_SECRET") clear o
    else o

-- a missing base is a nil map
abbrev pub or_nil : Option (Assoc Bytes) → Assoc Bytes
or_nil (some m) = m
or_nil none = []

-- `BaseConfigs()[p.Base]`
unfoldable pub base_of : Bytes → Assoc Bytes
base_of name = or_nil (lookup name base_configs)

-- the case's own config, translated
unfoldable pub own_overlay : Golib → Case → Result RouteError (Assoc Val)
own_overlay go c = if c.config.present then translate go c.config.keys else ok []

unfoldable pub overlay_of : Golib → Case → Result RouteError (Assoc Val)
overlay_of go c = own_overlay go c >>= λ o. ok (add_extras c.id o)

-- `isVariant`
unfoldable pub is_variant : Placement → Bool
is_variant p = not (str_eq p.group_key p.base)

abbrev pub cli_placement : Placement
cli_placement = record {
  kind = cli;
  base = [];
  overlay = [];
  safe_update = false;
  inject_profile = [];
  group_key = [];
}

abbrev pub safe_update_placement : Placement
safe_update_placement = record {
  kind = http;
  base = codes "mutations";
  overlay = [];
  safe_update = true;
  inject_profile = [];
  group_key = codes "mutations+safeupdate";
}

unfoldable pub place : Bytes → Bytes → Assoc Val → Placement
place base profile o =
    let final = unsatisfied (base_of base) o in
    record {
      kind = http;
      base = base;
      overlay = final;
      safe_update = false;
      inject_profile = profile;
      group_key = group_key_of base final;
    }

unfoldable pub route_http : Golib → Case → Result RouteError Placement
route_http go c =
    if id_in c.id safe_update_ids
    then (if is_empty c.config.keys
        then ok safe_update_placement
        else err (safe_update_with_config c.id))
    else (do chosen ← choose_base c; o ← overlay_of go c; ok (place chosen.0 chosen.1 o))

abbrev pub by_kind : Kind → Result RouteError Placement → Result RouteError Placement
by_kind cli placed = ok cli_placement
by_kind http placed = placed

-- `Route`
unfoldable pub route : Golib → Case → Result RouteError Placement
route go c = by_kind c.request.kind (route_http go c)

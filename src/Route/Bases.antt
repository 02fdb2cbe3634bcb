-- ===== src/Route/Bases.antt =====
-- The tables of tools/oracle/internal/route/route.go: the defaults of PostgREST, the configurations of
-- the fourteen shared instances, and the case ids that are routed by hand.
use postgrest_conformance.Base.{ℕ, List, [], ◌∷◌, ◌++◌}
use postgrest_conformance.Base.Text.{Bytes, codes}
use postgrest_conformance.Base.Assoc.{Assoc}

-- `asymJWK`
abbrev pub asym_jwk : Bytes
asym_jwk =
    codes
      "{\"alg\":\"RS256\",\"e\":\"AQAB\",\"key_ops\":[\"verify\"],\"kty\":\"RSA\",\"n\":\"0etQ2Tg187jb04MWfpuogYGV75IFrQQBxQaGH75eq_FpbkyoLcEpRUEWSbECP2eeFya2yZ9vIO5ScD-lPmovePk4Aa4SzZ8jdjhmAbNykleRPCxMg0481kz6PQhnHRUv3nF5WP479CnObJKqTVdEagVL66oxnX9VhZG9IZA7k0Th5PfKQwrKGyUeTGczpOjaPqbxlunP73j9AfnAt4XCS8epa-n3WGz1j-wfpr_ys57Aq-zBCfqP67UYzNpeI1AoXsJhD9xSDOzvJgFRvc3vm2wjAW4LEMwi48rCplamOpZToIHEPIaPzpveYQwDnB1HFTR1ove9bpKJsHmi-e2uzQ\",\"use\":\"sig\"}"

abbrev pub setting : Bytes → Bytes → Bytes × Bytes
setting k v = (k, v)

-- `pgDefaults`
abbrev pub pg_defaults : Assoc Bytes
pg_defaults =
    setting (codes "PGRST_DB_AGGREGATES_ENABLED") (codes "false")
    ∷ setting (codes "PGRST_URL_USE_LEGACY_TARGET_NAMES") (codes "true")
    ∷ setting (codes "PGRST_JWT_ROLE_CLAIM_KEY") (codes "$.role")
    ∷ setting (codes "PGRST_JWT_AUD") (codes "")
    ∷ setting (codes "PGRST_JWT_SECRET") (codes "")
    ∷ setting (codes "PGRST_JWT_SECRET_IS_BASE64") (codes "false")
    ∷ setting (codes "PGRST_JWT_CACHE_MAX_ENTRIES") (codes "10")
    ∷ setting (codes "PGRST_DB_PRE_REQUEST") (codes "")
    ∷ setting (codes "PGRST_DB_ANON_ROLE") (codes "")
    ∷ setting (codes "PGRST_CLIENT_ERROR_VERBOSITY") (codes "verbose")
    ∷ setting (codes "PGRST_OPENAPI_MODE") (codes "follow-privileges")
    ∷ setting (codes "PGRST_OPENAPI_SECURITY_ACTIVE") (codes "false")
    ∷ setting (codes "PGRST_DB_ROOT_SPEC") (codes "")
    ∷ setting (codes "PGRST_DB_MAX_ROWS") (codes "")
    ∷ []

-- `multiIDs`
abbrev pub multi_ids : List ℕ
multi_ids = 1557 ∷ 1558 ∷ 1559 ∷ 1560 ∷ 1574 ∷ 1583 ∷ []

-- `noInjectSchemas`
abbrev pub no_inject_schemas : List Bytes
no_inject_schemas = [] ∷ codes "public" ∷ codes "test" ∷ codes "multi" ∷ codes "unicode" ∷ []

-- `harnessVariantIDs`
abbrev pub harness_variant_ids : List ℕ
harness_variant_ids =
    1129 ∷ 1130 ∷ 1131 ∷ 1132 ∷ 1133 ∷ 1139 ∷ 1140 ∷ 1147 ∷ 1148 ∷ 1149 ∷ 1387 ∷ 1388 ∷ 1389 ∷ 1466
    ∷ 1467 ∷ 1468 ∷ 1469 ∷ 1470 ∷ 1471 ∷ 1472 ∷ 1473 ∷ 1475 ∷ 1476 ∷ 1477 ∷ 1491 ∷ 1492 ∷ 1493
    ∷ 1494 ∷ 1495 ∷ 1497 ∷ 1498 ∷ 1499 ∷ 1517 ∷ 1518 ∷ 1522 ∷ 1573 ∷ 1654 ∷ 1677 ∷ 1678 ∷ 1680
    ∷ 1682 ∷ 1690 ∷ 1700 ∷ 1701 ∷ 1703 ∷ 1742 ∷ 1758 ∷ 1763 ∷ 1764 ∷ 1765 ∷ 1766 ∷ 1767 ∷ 11115
    ∷ 11116 ∷ 11117 ∷ 11118 ∷ 11119 ∷ 11800 ∷ 11801 ∷ 11802 ∷ 11803 ∷ 11804 ∷ 11805 ∷ 11806 ∷ 11807
    ∷ 11808 ∷ 11815 ∷ 11816 ∷ 11817 ∷ 11818 ∷ 11819 ∷ 11820 ∷ 11821 ∷ []

-- `areaSchemaLabels`
abbrev pub area_schema_labels : List Bytes
area_schema_labels =
    codes "test"
    ∷ codes "operators"
    ∷ codes "ordering"
    ∷ codes "pagination"
    ∷ codes "representations"
    ∷ codes "mutations"
    ∷ codes "rpc"
    ∷ codes "headers"
    ∷ codes "config"
    ∷ codes "domain_representations"
    ∷ codes "observability"
    ∷ []

-- the UTF-8 bytes of the schema that the unicode cases use
abbrev unicode_schema : Bytes
unicode_schema = 0xd8 ∷ 0xaa ∷ 0xd8 ∷ 0xb3 ∷ 0xd8 ∷ 0xaa ∷ []

-- the settings that all bases share
abbrev template : Assoc Bytes
template =
    setting (codes "PGRST_DB_EXTRA_SEARCH_PATH") (codes "public")
    ∷ setting (codes "PGRST_DB_POOL") (codes "10")
    ∷ setting (codes "PGRST_DB_TX_END") (codes "rollback")
    ∷ setting (codes "PGRST_DB_PLAN_ENABLED") (codes "true")
    ∷ setting (codes "PGRST_DB_CONFIG") (codes "false")
    ∷ setting (codes "PGRST_SERVER_CORS_ALLOWED_ORIGINS")
        (codes "http://example.com, http://example2.com")
    ∷ setting (codes "PGRST_SERVER_TIMING_ENABLED") (codes "true")
    ∷ setting (codes "PGRST_SERVER_TRACE_HEADER") (codes "X-Request-Id")
    ∷ setting (codes "PGRST_LOG_LEVEL") (codes "error")
    ∷ setting (codes "PGRST_SERVER_HOST") (codes "127.0.0.1")
    ∷ []

-- `m := cloneMap(template)` with its schemas written in
abbrev with_schemas : Bytes → Assoc Bytes
with_schemas s = setting (codes "PGRST_DB_SCHEMAS") s ∷ template

abbrev auth_base : Assoc Bytes
auth_base =
    setting (codes "PGRST_DB_ANON_ROLE") (codes "postgrest_test_anonymous")
    ∷ setting (codes "PGRST_JWT_SECRET") (codes "reallyreallyreallyreallyverysafe")
    ∷ setting (codes "PGRST_DB_PRE_REQUEST") (codes "auth.switch_role")
    ∷ with_schemas (
        codes
          "test,operators,ordering,pagination,representations,mutations,rpc,headers,config,domain_representations,observability,auth,v1,v2,SPECIAL \"@/\\#~_-,"
        ++ unicode_schema)

abbrev pub area_bases : List Bytes → Assoc (Assoc Bytes)
area_bases [] = []
area_bases (label ∷ labels) = (label, with_schemas label) ∷ area_bases labels

-- `BaseConfigs`
unfoldable pub base_configs : Assoc (Assoc Bytes)
base_configs =
    (codes "auth", auth_base)
    ∷ (codes "multi", with_schemas (codes "v1,v2,SPECIAL \"@/\\#~_-"))
    ∷ (codes "unicode", with_schemas unicode_schema)
    ∷ area_bases area_schema_labels

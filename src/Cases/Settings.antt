-- ===== src/Cases/Settings.antt =====
-- `parseConfig` of cases.go: a case's `config:` block, the three reserved keys apart from the rest.
use postgrest_conformance.Base.{true, false, List, [], ◌∷◌, Option, none, some, if◌then◌else◌}
use postgrest_conformance.Base.Text.{Bytes, codes, str_eq}
use postgrest_conformance.Base.Assoc.{insert}
use postgrest_conformance.Base.Result.{Result, ok, ◌>>=◌}
use postgrest_conformance.Value.{Value, Items, nil, cons, Fields, end, field, entries, Golib}
use postgrest_conformance.Cases.{
  Config, LoadError, wrong_type, as_string, as_object, as_list, scalar_map,
}

abbrev pub absent_config : Config
absent_config = record { present = false; keys = []; env = []; file = []; preconditions_sql = [] }

-- the items of `preconditions_sql`
all_strings : Items → Result LoadError (List Bytes)
unfolding as_string
all_strings nil = ok []
all_strings (cons v vs) = do
  s ← as_string v (wrong_type (codes "preconditions_sql"))
  rest ← all_strings vs
  ok (s ∷ rest)

-- one turn of the loop over the block
unfoldable pub add_setting : Golib → Config → Bytes → Value → Result LoadError Config
unfolding all_strings as_object as_list scalar_map str_eq insert
add_setting go cfg k v =
    if str_eq k (codes "env")
    then (do
      m ← as_object v (wrong_type (codes "env"))
      env ← scalar_map go m
      ok (record cfg { env = env }))
    else if str_eq k (codes "file")
    then (do m ← as_object v (wrong_type (codes "file")); ok (record cfg { file = entries m }))
    else if str_eq k (codes "preconditions_sql")
    then (do
      xs ← as_list v (wrong_type (codes "preconditions_sql"))
      sql ← all_strings xs
      ok (record cfg { preconditions_sql = sql }))
    else ok (record cfg { keys = insert k v cfg.keys })

unfoldable pub add_settings : Golib → Config → Fields → Result LoadError Config
unfolding add_setting
add_settings go cfg end = ok cfg
add_settings go cfg (field k v fs) = add_setting go cfg k v >>= λ cfg'. add_settings go cfg' fs

unfoldable pub parse_config : Golib → Option Value → Result LoadError Config
unfolding add_settings as_object
parse_config go none = ok absent_config
parse_config go (some v) = do
  m ← as_object v (wrong_type (codes "config"))
  add_settings go (record absent_config { present = true }) m

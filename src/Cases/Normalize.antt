-- ===== src/Cases/Normalize.antt =====
-- `normalizeYAML` of cases.go: mappings with other keys than strings become mappings of strings.
use postgrest_conformance.Base.{if◌then◌else◌}
use postgrest_conformance.Base.Text.{Bytes, codes, str_eq}
use postgrest_conformance.Base.Decimal.{int_text, itoa}
use postgrest_conformance.Value.{
  Value, null, bool, int, int64, uint64, float64, string, number, array, object, any_map, other,
  Items, nil, cons, Fields, end, field, Pairs, stop, pair, Golib,
}

-- `fmt.Sprintf("%v", k)` of a key. A key that is itself a mapping or a sequence, which yaml.v3
-- refuses in a Go map, is given an empty text.
unfoldable pub key_text : Golib → Value → Bytes
unfolding int_text itoa
key_text go null = codes "<nil>"
key_text go (bool b) = if b then codes "true" else codes "false"
key_text go (int n) = int_text n
key_text go (int64 n) = int_text n
key_text go (uint64 n) = itoa n
key_text go (float64 n) = go.float_text n
key_text go (string s) = s
key_text go (number t) = t
key_text go (other t) = t
key_text go _ = codes ""

-- `out[k] = v` on a mapping of values
unfoldable pub put : Bytes → Value → Fields → Fields
unfolding str_eq
put k v end = field k v end
put k v (field j w fs) = if str_eq j k then field j v fs else field j w (put k v fs)

unfoldable mutual
  unfolding key_text put

  pub normalize : Golib → Value → Value
  normalize go (object fs) = object (normalize_fields go fs)
  normalize go (any_map ps) = object (normalize_pairs go ps end)
  normalize go (array xs) = array (normalize_items go xs)
  normalize go null = null
  normalize go (bool b) = bool b
  normalize go (int n) = int n
  normalize go (int64 n) = int64 n
  normalize go (uint64 n) = uint64 n
  normalize go (float64 n) = float64 n
  normalize go (string s) = string s
  normalize go (number t) = number t
  normalize go (other t) = other t

  pub normalize_fields : Golib → Fields → Fields
  normalize_fields go end = end
  normalize_fields go (field k v fs) = field k (normalize go v) (normalize_fields go fs)

  pub normalize_pairs : Golib → Pairs → Fields → Fields
  normalize_pairs go stop out = out
  normalize_pairs go (pair k v ps) out =
      normalize_pairs go ps (put (key_text go k) (normalize go v) out)

  pub normalize_items : Golib → Items → Items
  normalize_items go nil = nil
  normalize_items go (cons v vs) = cons (normalize go v) (normalize_items go vs)

-- ===== src/Value.antt =====
-- The values of Go's `any` that the oracle handles: what yaml.v3 and encoding/json decode to, with
-- the lists and the maps that hold values, and what the program takes from the libraries it calls
-- as parameters.
use postgrest_conformance.Base.{ℕ, suc, Bool, List, [], ◌∷◌, Option}
use postgrest_conformance.Base.Text.{Bytes}
use postgrest_conformance.Base.Assoc.{Assoc}
use postgrest_conformance.Base.Int.{ℤ}

mutual
  -- A dynamic type with its value. A float64 is its bit pattern; `number` is a json.Number, its
  -- text; `any_map` is a map[any]any, which yaml.v3 makes of a mapping with a key that is no string;
  -- `other` is a value of any further type, by its `%v` text.
  pub data Value : Type 0 where
    null : Value
    bool : Bool → Value
    int : ℤ → Value
    int64 : ℤ → Value
    uint64 : ℕ → Value
    float64 : ℕ → Value
    string : Bytes → Value
    number : Bytes → Value
    array : Items → Value
    object : Fields → Value
    any_map : Pairs → Value
    other : Bytes → Value

  pub data Items : Type 0 where
    nil : Items
    cons : Value → Items → Items

  pub data Fields : Type 0 where
    end : Fields
    field : Bytes → Value → Fields → Fields

  pub data Pairs : Type 0 where
    stop : Pairs
    pair : Value → Value → Pairs → Pairs

-- A []any as a list.
abbrev pub to_list : Items → List Value
to_list nil = []
to_list (cons v vs) = v ∷ to_list vs

-- A map[string]any as an association list.
abbrev pub entries : Fields → Assoc Value
entries end = []
entries (field k v fs) = (k, v) ∷ entries fs

abbrev pub size_items : Items → ℕ
size_items nil = 0
size_items (cons v vs) = suc (size_items vs)

abbrev pub size_fields : Fields → ℕ
size_fields end = 0
size_fields (field k v fs) = suc (size_fields fs)

-- What the libraries below the program answer: `%v` of a float64 and of a value that is no string, `%q` of a text,
-- `int(n)` of a float64 that is a whole number, encoding/json's decoder with numbers kept as text (none on an error, trailing data
-- included) and regexp.Compile.
pub record Golib : Type 0 where
  pub float_text : ℕ → Bytes
  pub value_text : Value → Bytes
  pub quote_text : Bytes → Bytes
  pub float_int : ℕ → Option ℤ
  pub decode_json : Bytes → Option Value
  pub compile : Bytes → Option (Bytes → Bool)

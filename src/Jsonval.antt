-- ===== src/Jsonval.antt =====
-- tools/oracle/internal/jsonval/jsonval.go: exact comparison of decoded values. Numbers are compared
-- as rationals whatever their Go type, objects without regard to the order of their keys.
pub mod Rational
pub mod Equal
pub mod Objects
pub mod Path
use postgrest_conformance.Base.{
  ℕ, Bool, true, false, ◌&&◌, Option, none, some, ◌==◌, if◌then◌else◌, ◌>>=◌,
}
use postgrest_conformance.Base.Text.{Bytes, str_eq}
use postgrest_conformance.Base.Assoc.{lookup}
use postgrest_conformance.Base.Int.{ℤ, pos}
use postgrest_conformance.Value.{
  Value, null, bool, int, int64, uint64, float64, string, number, array, object, any_map, other,
  Items, nil, cons, Fields, end, field, entries, size_items, size_fields, Golib,
}
use Rational.{Rat, whole, rat_eq, set_string}

module _ (go : Golib) where
  -- `numRat`: the rational that a value of a numeric type stands for
  unfoldable pub num_rat : Value → Option Rat
  num_rat (number t) = set_string t
  num_rat (int n) = some (whole n)
  num_rat (int64 n) = some (whole n)
  num_rat (uint64 n) = some (whole (pos n))
  num_rat (float64 n) = set_string (go.float_text n)
  num_rat _ = none

  -- the first test of `DeepEqual`, where `a` is numeric
  abbrev pub rat_matches : Rat → Option Rat → Bool
  rat_matches r none = false
  rat_matches r (some s) = rat_eq r s

-- A rational found for `a` decides; else the switch on the type of `a` goes on with `rest`.
abbrev pub numeric_or : Golib → Option Rat → Value → Bool → Bool
numeric_or go none b rest = rest
numeric_or go (some r) b rest = rat_matches go r (num_rat go b)

-- The cases of the switch that make no further call of `DeepEqual`.
abbrev pub same_null : Value → Bool
same_null null = true
same_null _ = false

abbrev pub same_string : Bytes → Value → Bool
same_string s (string t) = str_eq s t
same_string s _ = false

abbrev pub same_bool : Bool → Value → Bool
same_bool true (bool c) = c
same_bool false (bool c) = if c then false else true
same_bool b _ = false

-- `if !ok || !equal(w) { return false }`, and the rest of the loop
abbrev pub and_found : Option Value → (Value → Bool) → Bool → Bool
and_found none equal rest = false
and_found (some w) equal rest = equal w && rest

unfoldable mutual
  unfolding num_rat lookup

  pub deep_equal : Golib → Value → Value → Bool
  deep_equal go null b = same_null b
  deep_equal go (bool x) b = same_bool x b
  deep_equal go (int n) b = numeric_or go (num_rat go (int n)) b false
  deep_equal go (int64 n) b = numeric_or go (num_rat go (int64 n)) b false
  deep_equal go (uint64 n) b = numeric_or go (num_rat go (uint64 n)) b false
  deep_equal go (float64 n) b = numeric_or go (num_rat go (float64 n)) b false
  deep_equal go (number t) b = numeric_or go (num_rat go (number t)) b false
  deep_equal go (string s) b = same_string s b
  deep_equal go (object fs) b = elim b [
    | object gs ↦ size_fields fs == size_fields gs && fields_equal go fs gs
    | _ ↦ false
  ]
  deep_equal go (array xs) b = elim b [
    | array ys ↦ size_items xs == size_items ys && items_equal go xs ys
    | _ ↦ false
  ]
  deep_equal go (any_map ps) b = false
  deep_equal go (other t) b = false

  -- `for k, v := range av`
  pub fields_equal : Golib → Fields → Fields → Bool
  fields_equal go end gs = true
  fields_equal go (field k v fs) gs =
      and_found (lookup k (entries gs)) (λ w. deep_equal go v w) (fields_equal go fs gs)

  -- `for i := range av`; the lengths are equal, so neither list ends first
  pub items_equal : Golib → Items → Items → Bool
  items_equal go nil ys = true
  items_equal go (cons x xs) ys = elim ys [
    | nil ↦ false
    | cons y ys' ↦ deep_equal go x y && items_equal go xs ys'
  ]

-- ===== src/Jsonval/Equal.antt =====
-- `deep_equal` of jsonval.go on a document and itself.
use postgrest_conformance.Base.{
  ℕ, suc, ◌*◌, Bool, true, false, some, ◌≡◌, refl, arith, ==_refl, is_some, Option-cases, inl, inr,
}
use postgrest_conformance.Base.Text.{Bytes, str_eq_iff, str_eq_refl}
use postgrest_conformance.Base.Assoc.{lookup, keys, mem, distinct}
use postgrest_conformance.Base.Int.{ℤ, pos, negsuc}
use postgrest_conformance.Value.{
  Value, null, bool, int, int64, uint64, float64, string, number, array, object, any_map, other,
  Items, nil, cons, Fields, end, field, entries, size_items, size_fields, Golib,
}
use postgrest_conformance.Jsonval.{num_rat, numeric_or, deep_equal, fields_equal, items_equal}
use postgrest_conformance.Jsonval.Rational.{Rat, rat_eq}

pub rat_eq_refl : (r : Rat) → rat_eq r r ≡ true
unfolding rat_eq
rat_eq_refl r = go r.num r.den_pred
  where
    go :
        (n : ℤ) (d : ℕ)
        → rat_eq (record { num = n; den_pred = d }) (record { num = n; den_pred = d }) ≡ true
    go (pos a) d = ==_refl (a * suc d)
    go (negsuc a) d = ==_refl (suc a * suc d)

-- A document as the decoders make it: every number has a value, the keys of an object are distinct,
-- and no mapping has other keys than strings.
unfoldable mutual
  unfolding num_rat

  pub IsDocument : Golib → Value → Type 0
  IsDocument go null = Unit
  IsDocument go (bool b) = Unit
  IsDocument go (int n) = Unit
  IsDocument go (int64 n) = Unit
  IsDocument go (uint64 n) = Unit
  IsDocument go (float64 n) = is_some (num_rat go (float64 n)) ≡ true
  IsDocument go (string s) = Unit
  IsDocument go (number t) = is_some (num_rat go (number t)) ≡ true
  IsDocument go (array xs) = AreDocuments go xs
  IsDocument go (object fs) = (distinct (keys (entries fs)) ≡ true) × HoldDocuments go fs
  IsDocument go (any_map ps) = ⊥
  IsDocument go (other t) = ⊥

  pub AreDocuments : Golib → Items → Type 0
  AreDocuments go nil = Unit
  AreDocuments go (cons x xs) = IsDocument go x × AreDocuments go xs

  pub HoldDocuments : Golib → Fields → Type 0
  HoldDocuments go end = Unit
  HoldDocuments go (field k v fs) = IsDocument go v × HoldDocuments go fs

-- Every entry of the first object is the entry of its key in the second.
abbrev pub Within : Fields → Fields → Type 0
Within end gs = Unit
Within (field k v fs) gs = (lookup k (entries gs) ≡ some v) × Within fs gs

Within-field :
    (fs gs : Fields) (k : Bytes) (v : Value)
    → mem k (keys (entries fs)) ≡ false
    → Within fs gs
    → Within fs (field k v gs)
unfolding lookup
Within-field end gs k v h w = tt
Within-field (field j u fs) gs k v h w =
    (ground (arith, str_eq_iff k j, str_eq_iff j k), Within-field fs gs k v (ground arith) w.1)

Within-self : (fs : Fields) → distinct (keys (entries fs)) ≡ true → Within fs fs
unfolding lookup
Within-self end h = tt
Within-self (field k v fs) h = (
  ground (arith, str_eq_refl k),
  Within-field fs fs k v (ground arith) (Within-self fs (ground arith)),
)

numeric_or_refl :
    (go : Golib) (v : Value) (rest : Bool)
    → is_some (num_rat go v) ≡ true
    → numeric_or go (num_rat go v) v rest ≡ true
numeric_or_refl go v rest h = elim (Option-cases (num_rat go v)) [
  | inl e ↦ cc (rw e at h)
  | inr (r, e) ↦ rw e (rw e (rat_eq_refl r))
]

mutual
  unfolding deep_equal IsDocument

  deep_equal_self : (go : Golib) (v : Value) → IsDocument go v → deep_equal go v v ≡ true
  deep_equal_self go null d = refl
  deep_equal_self go (bool true) d = refl
  deep_equal_self go (bool false) d = refl
  deep_equal_self go (int n) d = numeric_or_refl go (int n) false refl
  deep_equal_self go (int64 n) d = numeric_or_refl go (int64 n) false refl
  deep_equal_self go (uint64 n) d = numeric_or_refl go (uint64 n) false refl
  deep_equal_self go (float64 n) d = numeric_or_refl go (float64 n) false d
  deep_equal_self go (string s) d = str_eq_refl s
  deep_equal_self go (number t) d = numeric_or_refl go (number t) false d
  deep_equal_self go (array xs) d =
      ground (arith, ==_refl (size_items xs), items_equal_self go xs d)
  deep_equal_self go (object fs) d =
      ground (arith, ==_refl (size_fields fs), fields_equal_self go fs fs d.1 (Within-self fs d.0))
  deep_equal_self go (any_map ps) d = absurd d
  deep_equal_self go (other t) d = absurd d

  items_equal_self : (go : Golib) (xs : Items) → AreDocuments go xs → items_equal go xs xs ≡ true
  items_equal_self go nil d = refl
  items_equal_self go (cons x xs) d =
      ground (arith, deep_equal_self go x d.0, items_equal_self go xs d.1)

  fields_equal_self :
      (go : Golib) (fs gs : Fields)
      → HoldDocuments go fs
      → Within fs gs
      → fields_equal go fs gs ≡ true
  fields_equal_self go end gs d w = refl
  fields_equal_self go (field k v fs) gs d w =
      rw w.0 (ground (arith, deep_equal_self go v d.0, fields_equal_self go fs gs d.1 w.1))

-- Every document whose numbers have a value, whose objects have distinct keys and which holds no other
-- kind of mapping is equal to itself.
deep_equal_refl : (go : Golib) (v : Value) → IsDocument go v → deep_equal go v v ≡ true
deep_equal_refl go v d = deep_equal_self go v d

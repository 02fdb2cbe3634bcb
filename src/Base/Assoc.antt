-- ===== src/Base/Assoc.antt =====
-- Go maps with string keys, as association lists with the keys in some order: what a `range` loop
-- visits. A write replaces the entry of its key, so the keys stay distinct.
use postgrest_conformance.Base.Tests.{if◌then◌else◌, is_some}
use postgrest_conformance.Base.Text.{Bytes, str_eq, str_eq_iff}
use postgrest_conformance.Base.Lists.{all}
use mathlib.Core.Path.{◌≡◌, refl}
use mathlib.Core.Bool.{Bool, true, false, ◌||◌, ◌&&◌, not}
use mathlib.Core.List.{List, [], ◌∷◌}
use mathlib.Core.Option.{Option, none, some}
use native.Mathlib.Omega.{arith}

abbrev pub Assoc {ℓ} : Type ℓ → Type ℓ
Assoc V = List (Bytes × V)

abbrev pub mem : Bytes → List Bytes → Bool
mem k [] = false
mem k (j ∷ js) = str_eq j k || mem k js

-- Distinct keys.
abbrev pub distinct : List Bytes → Bool
distinct [] = true
distinct (k ∷ ks) = not (mem k ks) && distinct ks

module _ {ℓ} {V : Type ℓ} where
  -- `v, ok := m[k]`
  unfoldable pub lookup : Bytes → Assoc V → Option V
  lookup k [] = none
  lookup k ((j, v) ∷ m) = if str_eq j k then some v else lookup k m

  -- `m[k] = v`
  unfoldable pub insert : Bytes → V → Assoc V → Assoc V
  insert k v [] = (k, v) ∷ []
  insert k v ((j, w) ∷ m) = if str_eq j k then (j, v) ∷ m else (j, w) ∷ insert k v m

  -- `delete(m, k)`
  unfoldable pub delete : Bytes → Assoc V → Assoc V
  delete k [] = []
  delete k ((j, w) ∷ m) = if str_eq j k then delete k m else (j, w) ∷ delete k m

  abbrev pub keys : Assoc V → List Bytes
  keys [] = []
  keys ((j, v) ∷ m) = j ∷ keys m

  pub lookup-cons :
      (k j : Bytes) (v : V) (m : Assoc V)
      → lookup j ((k, v) ∷ m) ≡ (if str_eq k j then some v else lookup j m)
  unfolding lookup
  lookup-cons k j v m = refl

  pub lookup-nil : (j : Bytes) → lookup j [] ≡ none
  unfolding lookup
  lookup-nil j = refl

  pub lookup_absent : (k : Bytes) (m : Assoc V) → mem k (keys m) ≡ false → lookup k m ≡ none
  unfolding lookup
  lookup_absent k [] h = refl
  lookup_absent k ((j, v) ∷ m) h = ground (arith, lookup_absent k m)

  pub lookup-insert :
      (k j : Bytes) (v : V) (m : Assoc V)
      → lookup j (insert k v m) ≡ (if str_eq k j then some v else lookup j m)
  unfolding lookup insert
  lookup-insert k j v [] = refl
  lookup-insert k j v ((i, w) ∷ m) =
      ground (arith, str_eq_iff k j, str_eq_iff i k, str_eq_iff i j, lookup-insert k j v m)

  pub lookup-delete :
      (k j : Bytes) (m : Assoc V)
      → lookup j (delete k m) ≡ (if str_eq k j then none else lookup j m)
  unfolding lookup delete
  lookup-delete k j [] = ground arith
  lookup-delete k j ((i, w) ∷ m) =
      ground (arith, str_eq_iff k j, str_eq_iff i k, str_eq_iff i j, lookup-delete k j m)

  pub mem-keys : (k : Bytes) (m : Assoc V) → mem k (keys m) ≡ is_some (lookup k m)
  unfolding lookup
  mem-keys k [] = refl
  mem-keys k ((j, v) ∷ m) = ground (arith, mem-keys k m)

  mem-keys-insert :
      (k j : Bytes) (v : V) (m : Assoc V)
      → mem j (keys (insert k v m)) ≡ (str_eq k j || mem j (keys m))
  unfolding insert
  mem-keys-insert k j v [] = refl
  mem-keys-insert k j v ((i, w) ∷ m) =
      ground (arith, str_eq_iff i k, str_eq_iff k j, str_eq_iff i j, mem-keys-insert k j v m)

  pub distinct-insert :
      (k : Bytes) (v : V) (m : Assoc V)
      → distinct (keys m) ≡ true
      → distinct (keys (insert k v m)) ≡ true
  unfolding insert
  distinct-insert k v [] h = refl
  distinct-insert k v ((i, w) ∷ m) h =
      ground (arith, str_eq_iff i k, str_eq_iff k i, mem-keys-insert k i v m, distinct-insert k v m)

-- What holds of every value of a map holds of the value that a lookup finds.
pub lookup-all {ℓ} :
    {V : Type ℓ} (p : V → Bool) (k : Bytes) (m : Assoc V) (v : V)
    → all (λ e. p e.1) m ≡ true
    → lookup k m ≡ some v
    → p v ≡ true
unfolding lookup
lookup-all p k [] v h e = cc
lookup-all p k ((j, w) ∷ m) v h e = ground (arith, lookup-all p k m v)

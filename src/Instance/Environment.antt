-- ===== src/Instance/Environment.antt =====
-- Lemmas on the environment that `BuildEnv` of instance.go makes.
use postgrest_conformance.Base.{
  true, not, List, [], ◌∷◌, ◌++◌, Option, none, some, ◌≡◌, refl, arith, if◌then◌else◌, Bool-cases,
  inl, inr, and_true,
}
use postgrest_conformance.Base.Text.{Bytes, str_eq, str_eq_iff, codes}
use postgrest_conformance.Base.Assoc.{
  Assoc, lookup, keys, mem, distinct, lookup-insert, lookup-delete, lookup-cons, lookup-nil,
  lookup_absent,
}
use postgrest_conformance.Route.{Val, clear, set}
use postgrest_conformance.Instance.{write_val, apply_overlay}

-- A write of an overlay entry over what the base has.
abbrev pub overlaid : Option Val → Option Bytes → Option Bytes
overlaid none o = o
overlaid (some clear) o = none
overlaid (some (set v)) o = some v

lookup-write_val :
    (k j : Bytes) (v : Val) (env : Assoc Bytes)
    → lookup j (write_val k v env) ≡ (if str_eq k j then overlaid (some v) none else lookup j env)
unfolding write_val
lookup-write_val k j clear env = lookup-delete k j env
lookup-write_val k j (set v) env = lookup-insert k j v env

overlaid_cons :
    (k j : Bytes) (v : Val) (o : Assoc Val) (b : Option Bytes)
    → lookup k o ≡ none
    → overlaid (lookup j o) (if str_eq k j then overlaid (some v) none else b)
      ≡ overlaid (if str_eq k j then some v else lookup j o) b
overlaid_cons k j v o b h = elim (Bool-cases (str_eq k j)) [
  | inl same ↦
      let e : lookup j o ≡ none = rw ((str_eq_iff k j).0 same) at h in rw (same, e) (by_val v)
  | inr other ↦ rw other
]
  where
    by_val : (v : Val) → overlaid (some v) none ≡ overlaid (some v) b
    by_val clear = refl
    by_val (set s) = refl

apply_overlay-nil : (env : Assoc Bytes) → apply_overlay env [] ≡ env
unfolding apply_overlay
apply_overlay-nil env = refl

apply_overlay-cons :
    (k : Bytes) (v : Val) (o : Assoc Val) (env : Assoc Bytes)
    → apply_overlay env ((k, v) ∷ o) ≡ apply_overlay (write_val k v env) o
unfolding apply_overlay
apply_overlay-cons k v o env = refl

-- With an overlay of distinct keys, every key of the environment's map has the value of the overlay's
-- entry for it, is absent where
-- that entry clears it, and has the base's value where there is no entry.
pub lookup-apply_overlay :
    (j : Bytes) (o : Assoc Val) (env : Assoc Bytes)
    → distinct (keys o) ≡ true
    → lookup j (apply_overlay env o) ≡ overlaid (lookup j o) (lookup j env)
lookup-apply_overlay j [] env h = rw (apply_overlay-nil env, lookup-nil j)
lookup-apply_overlay j ((k, v) ∷ o) env h =
    let (fresh, rest) = and_true (not (mem k (keys o))) (distinct (keys o)) h in
    rw (apply_overlay-cons k v o env, lookup-apply_overlay j o (write_val k v env) rest)
      (rw (lookup-write_val k j v env, lookup-cons k j v o)
        (overlaid_cons k j v o (lookup j env) (lookup_absent k o (ground arith))))

-- A variable as the system takes it, its name, an equals sign and its value.
abbrev pub entry_text : Bytes × Bytes → Bytes
entry_text (k, v) = k ++ (b'=' ∷ v)

abbrev pub path_texts : Option Bytes → List Bytes
path_texts none = []
path_texts (some p) = (codes "PATH=" ++ p) ∷ []

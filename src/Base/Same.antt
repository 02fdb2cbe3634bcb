-- ===== src/Base/Same.antt =====
-- Association lists as maps: two are the same when every lookup agrees.
use mathlib.Core.List.{
  Perm, Mem, Nodup, mem-cons, not-mem-nil, Nodup-cons, Nodup-nil, perm_ext_iff_of_Nodup,
}
use mathlib.Core.Logic.Or
use postgrest_conformance.Base.Tests.{Bool-cases, and_true}
use postgrest_conformance.Base.Text.{Bytes, str_eq, str_eq_iff}
use postgrest_conformance.Base.Assoc.{Assoc, lookup, keys, mem, distinct, mem-keys}
use mathlib.Core.Path.{◌≡◌, sym, ◌∙◌}
use mathlib.Core.Bool.{Bool, true, not}
use mathlib.Core.List.{List, [], ◌∷◌}
use mathlib.Core.Logic.{inl, inr}
use native.Mathlib.Omega.{arith}

abbrev pub SameMap {ℓ} : {V : Type ℓ} → Assoc V → Assoc V → Type ℓ
SameMap m n = (k : Bytes) → lookup k m ≡ lookup k n

Bool-path-prop : (a b : Bool) → IsProp (a ≡ b)
Bool-path-prop a b = hlevel

mem-Mem : (k : Bytes) (ks : List Bytes) → mem k ks ≡ true → Mem k ks
mem-Mem k [] h = cc
mem-Mem k (j ∷ ks) h = elim (Bool-cases (str_eq j k)) [
  | inl e ↦ mem-cons.1 (Or.inl (sym ((str_eq_iff j k).0 e)))
  | inr e ↦ mem-cons.1 (Or.inr (mem-Mem k ks (ground arith)))
]

Mem-mem : (k : Bytes) (ks : List Bytes) → Mem k ks → mem k ks ≡ true
Mem-mem k [] h = absurd (not-mem-nil h)
Mem-mem k (j ∷ ks) h =
    Or.elim (Bool-path-prop _ _) (mem-cons.0 h) (λ e. ground (arith, (str_eq_iff j k).1 (sym e)))
      (λ m. ground (arith, Mem-mem k ks m))

distinct-Nodup : (ks : List Bytes) → distinct ks ≡ true → Nodup ks
distinct-Nodup [] h = Nodup-nil
distinct-Nodup (k ∷ ks) h =
    let (fresh, rest) = and_true (not (mem k ks)) (distinct ks) h in
    Nodup-cons.1 (λ m. absurd (ground (arith, Mem-mem k ks m)), distinct-Nodup ks rest)

pub Same-keys-perm {ℓ} :
    {V : Type ℓ} (m n : Assoc V)
    → distinct (keys m) ≡ true
    → distinct (keys n) ≡ true
    → SameMap m n
    → Perm (keys m) (keys n)
Same-keys-perm m n d e s =
    (perm_ext_iff_of_Nodup (distinct-Nodup (keys m) d) (distinct-Nodup (keys n) e)).1 (λ k. (
      λ h. mem-Mem k (keys n) (sym (agree k) ∙ Mem-mem k (keys m) h),
      λ h. mem-Mem k (keys m) (agree k ∙ Mem-mem k (keys n) h),
    ))
  where
    agree : (k : Bytes) → mem k (keys m) ≡ mem k (keys n)
    agree k = mem-keys k m ∙ rw (s k) (sym (mem-keys k n))

-- ===== src/Base/Sort.antt =====
-- Insertion sort, for `sort.Strings`, `sort.Ints` and `sort.Slice`.
use postgrest_conformance.Base.Tests.{if◌then◌else◌, Bool-cases}
use postgrest_conformance.Base.Text.{Bytes, str_le, str_le_total, str_le_trans, str_le_antisymm}
use postgrest_conformance.Base.Lists.{All}
use mathlib.Core.Path.{◌≡◌, refl, ◌∙◌}
use mathlib.Core.Bool.{Bool, true, false}
use mathlib.Core.List.{List, [], ◌∷◌, Permᴰ, Perm}
use mathlib.Core.List.Permᴰ
use mathlib.Core.Logic.{inl, inr, ∥∥₁_elim}
use native.Mathlib.Omega.{arith}

-- A total order given by a test.
pub record Order {ℓ} {A : Type ℓ} (le : A → A → Bool) : Type ℓ where
  pub total : (a b : A) → le a b ≡ false → le b a ≡ true
  pub trans : (a b c : A) → le a b ≡ true → le b c ≡ true → le a c ≡ true
  pub antisymm : (a b : A) → le a b ≡ true → le b a ≡ true → a ≡ b

module _ {ℓ} {A : Type ℓ} (le : A → A → Bool) where
  unfoldable pub insert_sorted : A → List A → List A
  insert_sorted a [] = a ∷ []
  insert_sorted a (b ∷ bs) = if le a b then a ∷ b ∷ bs else b ∷ insert_sorted a bs

  unfoldable pub sort : List A → List A
  unfolding insert_sorted
  sort [] = []
  sort (a ∷ rest) = insert_sorted a (sort rest)

  -- Each element is at most the next one.
  abbrev pub IsSorted : List A → Type 0
  IsSorted [] = Unit
  IsSorted (a ∷ []) = Unit
  IsSorted (a ∷ b ∷ bs) = (le a b ≡ true) × IsSorted (b ∷ bs)

List-set {ℓ} : {A : Type ℓ} → IsSet A → IsSet (List A)
List-set s = hlevel s

module _ {ℓ} {A : Type ℓ} (le : A → A → Bool) where
  insert_sorted-perm : (a : A) (l : List A) → Permᴰ (insert_sorted le a l) (a ∷ l)
  unfolding insert_sorted
  insert_sorted-perm a [] = Permᴰ.cons refl Permᴰ.nil
  insert_sorted-perm a (b ∷ l) = elim (Bool-cases (le a b)) [
    | inl low ↦ rw low (Permᴰ.refl (a ∷ b ∷ l))
    | inr high ↦
        rw high (Permᴰ.trans (Permᴰ.cons refl (insert_sorted-perm a l)) (Permᴰ.swap refl refl))
  ]

  sort-permᴰ : (l : List A) → Permᴰ (sort le l) l
  unfolding sort
  sort-permᴰ [] = Permᴰ.nil
  sort-permᴰ (a ∷ l) =
      Permᴰ.trans (insert_sorted-perm a (sort le l)) (Permᴰ.cons refl (sort-permᴰ l))

  -- Sorting rearranges.
  pub sort-perm : (l : List A) → Perm (sort le l) l
  sort-perm l = ∣ sort-permᴰ l ∣₁

module _ {ℓ} {A : Type ℓ} {le : A → A → Bool}
    (total : (a b : A) → le a b ≡ false → le b a ≡ true) where
  insert_sorted-IsSorted : (a : A) (l : List A) → IsSorted le l → IsSorted le (insert_sorted le a l)
  unfolding insert_sorted
  insert_sorted-IsSorted a [] h = tt
  insert_sorted-IsSorted a (b ∷ []) h = ground (arith, total a b)
  insert_sorted-IsSorted a (b ∷ c ∷ l) h =
      ground (arith, total a b, insert_sorted-IsSorted a (c ∷ l))

  -- Sorting orders.
  pub sort-IsSorted : (l : List A) → IsSorted le (sort le l)
  unfolding sort
  sort-IsSorted [] = tt
  sort-IsSorted (a ∷ l) = insert_sorted-IsSorted a (sort le l) (sort-IsSorted l)

module _ {ℓ} {A : Type ℓ} {le : A → A → Bool} (o : Order le) where
  insert_sorted_comm :
      (a b : A) (l : List A)
      → insert_sorted le a (insert_sorted le b l) ≡ insert_sorted le b (insert_sorted le a l)
  unfolding insert_sorted
  insert_sorted_comm a b [] = ground (arith, o.total a b, o.antisymm a b)
  insert_sorted_comm a b (c ∷ l) = ground (
    arith,
    o.total a b,
    o.antisymm a b,
    o.total a c,
    o.total b c,
    o.trans a b c,
    o.trans b a c,
    o.antisymm a c,
    o.antisymm b c,
    insert_sorted_comm a b l,
  )

  sort-eq_of_permᴰ : {l m : List A} → Permᴰ l m → sort le l ≡ sort le m
  unfolding sort
  sort-eq_of_permᴰ Permᴰ.nil = refl
  sort-eq_of_permᴰ (Permᴰ.cons e p) = cc (e, sort-eq_of_permᴰ p)
  sort-eq_of_permᴰ (Permᴰ.swap {a} {b} {l = l} e f) = cc (e, f, insert_sorted_comm a b (sort le l))
  sort-eq_of_permᴰ (Permᴰ.trans p q) = sort-eq_of_permᴰ p ∙ sort-eq_of_permᴰ q

  -- The order of the input is forgotten.
  pub sort-eq_of_perm : IsSet A → {l m : List A} → Perm l m → sort le l ≡ sort le m
  sort-eq_of_perm s p = ∥∥₁_elim p (List-set s _ _) sort-eq_of_permᴰ

pub Bytes-set : IsSet Bytes
Bytes-set = hlevel

pub str-Order : Order str_le
str-Order = record { total = str_le_total; trans = str_le_trans; antisymm = str_le_antisymm }

abbrev pub sort_strings : List Bytes → List Bytes
sort_strings = sort str_le

module _ {ℓ κ} {A : Type ℓ} (P : A → Type κ) (le : A → A → Bool) where
  All-insert_sorted : (a : A) (l : List A) → P a → All P l → All P (insert_sorted le a l)
  unfolding insert_sorted
  All-insert_sorted a [] p h = (p, tt)
  All-insert_sorted a (b ∷ l) p h = elim (Bool-cases (le a b)) [
    | inl low ↦ rw low (p, h)
    | inr high ↦ rw high (h.0, All-insert_sorted a l p h.1)
  ]

  pub All-sort : (l : List A) → All P l → All P (sort le l)
  unfolding sort
  All-sort [] h = tt
  All-sort (a ∷ l) h = All-insert_sorted a (sort le l) h.0 (All-sort l h.1)

  insert_sorted-All : (a : A) (l : List A) → All P (insert_sorted le a l) → P a × All P l
  unfolding insert_sorted
  insert_sorted-All a [] h = h
  insert_sorted-All a (b ∷ l) h = elim (Bool-cases (le a b)) [
    | inl low ↦ rw low at h
    | inr high ↦
        let h' : P b × All P (insert_sorted le a l) = rw high at h in
        let (pa, rest) = insert_sorted-All a l h'.1 in (pa, (h'.0, rest))
  ]

  pub sort-All : (l : List A) → All P (sort le l) → All P l
  unfolding sort
  sort-All [] h = tt
  sort-All (a ∷ l) h = let (pa, rest) = insert_sorted-All a (sort le l) h in (pa, sort-All l rest)

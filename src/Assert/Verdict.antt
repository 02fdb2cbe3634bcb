-- ===== src/Assert/Verdict.antt =====
-- Lemmas on the loops of assert.go over keys and lists.
use postgrest_conformance.Base.{
  true, false, List, [], ◌∷◌, ◌++◌, none, some, ◌≡◌, refl, ◌∙◌, sym, ◌↔◌, inl, inr, Bool-cases,
  subst, Option-cases, All, is_some,
}
use postgrest_conformance.Base.Text.{Bytes, str_eq, str_eq_iff, str_eq_refl, str_le}
use postgrest_conformance.Base.Assoc.{lookup, keys, mem, mem-keys}
use postgrest_conformance.Base.Sort.{All-sort, sort-All}
use postgrest_conformance.Value.{Value, Items, nil, cons, Fields, entries, to_list}
use postgrest_conformance.Assert.{Failure, for_sorted, for_each, for_items, for_texts, or_null}
use native.Mathlib.Omega.{arith}

pub append-nil {ℓ} : {A : Type ℓ} (xs ys : List A) → (xs ++ ys ≡ []) → (xs ≡ []) × (ys ≡ [])
append-nil [] ys h = (refl, h)
append-nil (x ∷ xs) ys h = cc

pub nil-append {ℓ} : {A : Type ℓ} (xs ys : List A) → xs ≡ [] → ys ≡ [] → xs ++ ys ≡ []
nil-append [] ys h k = k
nil-append (x ∷ xs) ys h k = cc

module _ {κ} (P : Bytes → Type κ) where
  All-mem : (ks : List Bytes) → All P ks → (k : Bytes) → mem k ks ≡ true → P k
  All-mem [] h k m = cc
  All-mem (j ∷ ks) h k m = elim (Bool-cases (str_eq j k)) [
    | inl here ↦ subst P ((str_eq_iff j k).0 here) h.0
    | inr there ↦ All-mem ks h.1 k (rw there at m)
  ]

  mem-All : (ks : List Bytes) → ((k : Bytes) → mem k ks ≡ true → P k) → All P ks
  mem-All [] h = tt
  mem-All (j ∷ ks) h = (
    h j (rw (str_eq_refl j)),
    mem-All ks (λ k m. h k (let e = Bool-cases (str_eq j k) in ground (arith, m, e))),
  )

module _ (f : Bytes → Value → List Failure) (m : Fields) where
  abbrev Passes : Bytes → Type 0
  Passes k = f k (or_null (lookup k (entries m))) ≡ []

  for_sorted-Passes : (ks : List Bytes) → for_sorted f m ks ≡ [] → All Passes ks
  unfolding for_sorted
  for_sorted-Passes [] h = tt
  for_sorted-Passes (k ∷ ks) h =
      let (here, rest) = append-nil (f k (or_null (lookup k (entries m)))) (for_sorted f m ks) h in
      (here, for_sorted-Passes ks rest)

  Passes-for_sorted : (ks : List Bytes) → All Passes ks → for_sorted f m ks ≡ []
  unfolding for_sorted
  Passes-for_sorted [] h = refl
  Passes-for_sorted (k ∷ ks) h =
      nil-append (f k (or_null (lookup k (entries m)))) (for_sorted f m ks) h.0
        (Passes-for_sorted ks h.1)

  found : (k : Bytes) (v : Value) → lookup k (entries m) ≡ some v → mem k (keys (entries m)) ≡ true
  found k v e = mem-keys k (entries m) ∙ rw e

  at_key : (k : Bytes) (v : Value) → lookup k (entries m) ≡ some v → Passes k → f k v ≡ []
  at_key k v e h = rw e at h

  nothing_there :
      (k : Bytes) → lookup k (entries m) ≡ none → mem k (keys (entries m)) ≡ true → Passes k
  nothing_there k e there =
      let e' : is_some (lookup k (entries m)) ≡ true = sym (mem-keys k (entries m)) ∙ there in
      let absurd : false ≡ true = rw e at e' in cc

  -- The loop over the sorted keys answers no failure just when the entry of each key does.
  pub for_each_iff :
      (for_each f m ≡ []) ↔ ((k : Bytes) (v : Value) → lookup k (entries m) ≡ some v → f k v ≡ [])
  unfolding for_each
  for_each_iff = (
    λ h k v e. at_key k v e (
        All-mem Passes (keys (entries m))
          (sort-All Passes str_le (keys (entries m)) (for_sorted-Passes _ h)) k (found k v e)),
    λ h. Passes-for_sorted _ (
        All-sort Passes str_le (keys (entries m)) (
          mem-All Passes (keys (entries m)) (λ k there. elim (Option-cases (lookup k (entries m))) [
            | inl e ↦ nothing_there k e there
            | inr (v, e) ↦ rw e (h k v e)
          ]))),
  )

module _ (f : Value → List Failure) where
  -- The loop over a list answers no failure just when each of its items does.
  pub for_items_iff : (vs : Items) → (for_items f vs ≡ []) ↔ All (λ v. f v ≡ []) (to_list vs)
  unfolding for_items
  for_items_iff nil = (λ _. tt, λ _. refl)
  for_items_iff (cons v vs) = (
    λ h.
        let (here, rest) = append-nil (f v) (for_items f vs) h in (here, (for_items_iff vs).0 rest),
    λ h. nil-append (f v) (for_items f vs) h.0 ((for_items_iff vs).1 h.1),
  )

module _ (f : Bytes → List Failure) where
  pub for_texts_iff : (ss : List Bytes) → (for_texts f ss ≡ []) ↔ All (λ s. f s ≡ []) ss
  unfolding for_texts
  for_texts_iff [] = (λ _. tt, λ _. refl)
  for_texts_iff (s ∷ ss) = (
    λ h.
        let (here, rest) = append-nil (f s) (for_texts f ss) h in (here, (for_texts_iff ss).0 rest),
    λ h. nil-append (f s) (for_texts f ss) h.0 ((for_texts_iff ss).1 h.1),
  )

-- ===== src/Jsonval/Objects.antt =====
-- `deep_equal` of jsonval.go on objects.
use postgrest_conformance.Base.{
  suc, Bool, true, false, not, List, [], ◌∷◌, Option, none, some, ◌≡◌, refl, sym, subst, ◌∙◌, ◌↔◌,
  arith, if◌then◌else◌, Bool-cases, Option-cases, inl, inr, and_true, length, ◌==◌, is_some, leb,
}
use postgrest_conformance.Base.Text.{Bytes, str_eq, str_eq_iff, str_eq_refl}
use postgrest_conformance.Base.Assoc.{
  lookup, keys, mem, distinct, mem-keys, lookup-cons, lookup-nil,
}
use postgrest_conformance.Value.{Value, object, Fields, end, field, entries, size_fields, Golib}
use postgrest_conformance.Jsonval.{deep_equal, fields_equal, and_found}

-- A list of texts less the first occurrence of one.
abbrev without : Bytes → List Bytes → List Bytes
without k [] = []
without k (j ∷ js) = if str_eq j k then js else j ∷ without k js

length-without :
    (k : Bytes) (ks : List Bytes) → mem k ks ≡ true → length ks ≡ suc (length (without k ks))
length-without k [] h = cc
length-without k (j ∷ js) h = elim (Bool-cases (str_eq j k)) [
  | inl same ↦ rw same refl
  | inr other ↦ let rest = length-without k js (rw other at h) in rw other (omega (arith, rest))
]

mem-without :
    (k j : Bytes) (ks : List Bytes)
    → str_eq k j ≡ false
    → mem j ks ≡ true
    → mem j (without k ks) ≡ true
mem-without k j [] differs h = h
mem-without k j (i ∷ js) differs h = elim (Bool-cases (str_eq i k)) [
  | inl same ↦ let e = (str_eq_iff i k).0 same in rw same (rw (e, differs) at h)
  | inr other ↦ rw other (ground (arith, h, mem-without k j js differs))
]

apart :
    (a j : Bytes) (xs : List Bytes) → not (mem a xs) ≡ true → mem j xs ≡ true → str_eq a j ≡ false
apart a j xs fresh there = elim (Bool-cases (str_eq a j)) [
  | inl same ↦ let e = rw ((str_eq_iff a j).0 same) at fresh in ground (arith, e, there)
  | inr other ↦ other
]

-- Where distinct texts are all in a list that js no longer, every text of the list js one of them.
mem-all_of :
    (xs ys : List Bytes)
    → distinct xs ≡ true
    → ((k : Bytes) → mem k xs ≡ true → mem k ys ≡ true)
    → leb (length ys) (length xs) ≡ true
    → (k : Bytes) → mem k ys ≡ true
    → mem k xs ≡ true
mem-all_of [] [] d within short k h = h
mem-all_of [] (b ∷ ys) d within short k h = ground (arith, short)
mem-all_of (a ∷ xs) ys d within short k h = elim (Bool-cases (str_eq a k)) [
  | inl same ↦ rw same refl
  | inr other ↦
      let (fresh, rest) = and_true (not (mem a xs)) (distinct xs) d in
      let there : mem a ys ≡ true = within a (rw (str_eq_refl a) refl) in
      let found =
        mem-all_of xs (without a ys) rest
          (λ j m. mem-without a j ys (apart a j xs fresh m) (within j (ground (arith, m))))
          (ground (arith, short, length-without a ys there)) k (mem-without a k ys other h) in
      rw other found
]

-- Distinct texts that are all in a list are no more than it has.
leb-length :
    (xs ys : List Bytes)
    → distinct xs ≡ true
    → ((k : Bytes) → mem k xs ≡ true → mem k ys ≡ true)
    → leb (length xs) (length ys) ≡ true
leb-length [] ys d within = ground arith
leb-length (a ∷ xs) ys d within =
    let (fresh, rest) = and_true (not (mem a xs)) (distinct xs) d in
    let there : mem a ys ≡ true = within a (rw (str_eq_refl a) refl) in
    let fewer =
      leb-length xs (without a ys) rest
        (λ j m. mem-without a j ys (apart a j xs fresh m) (within j (ground (arith, m)))) in
    ground (arith, fewer, length-without a ys there)

size_fields-length : (fs : Fields) → size_fields fs ≡ length (keys (entries fs))
size_fields-length end = refl
size_fields-length (field k v fs) = rw (size_fields-length fs) refl

-- What one object has at a key, against what another has there.
abbrev pub Agree : Golib → Option Value → Option Value → Type 0
Agree go none none = Unit
Agree go (some v) (some w) = deep_equal go v w ≡ true
Agree go none (some w) = ⊥
Agree go (some v) none = ⊥

module _ (go : Golib) where
  and_found-Agree :
      (u : Value) (o : Option Value) (rest : Bool)
      → (and_found o (λ w. deep_equal go u w) rest ≡ true) ↔ (Agree go (some u) o × (rest ≡ true))
  and_found-Agree u none rest = (λ h. cc, λ h. absurd (h.0))
  and_found-Agree u (some w) rest =
      (λ h. and_true (deep_equal go u w) rest h, λ h. ground (arith, h.0, h.1))

  Agree-some : (v : Value) (o : Option Value) → Agree go (some v) o → is_some o ≡ true
  Agree-some v none h = absurd h
  Agree-some v (some w) h = refl

  module _ (gs : Fields) where
    -- Every entry of an object agrees with the other object.
    abbrev Within : Fields → Type 0
    Within fs =
        (k : Bytes) (v : Value)
        → lookup k (entries fs) ≡ some v
        → Agree go (some v) (lookup k (entries gs))

    fields_equal-Within : (fs : Fields) → fields_equal go fs gs ≡ true → Within fs
    unfolding fields_equal
    fields_equal-Within end h k v e = let no = lookup-nil {V = Value} k in cc
    fields_equal-Within (field j u fs) h k v e =
        let (mine, rest) =
          (and_found-Agree u (lookup j (entries gs)) (fields_equal go fs gs)).0 h in
        elim (Bool-cases (str_eq j k)) [
          | inl same ↦
              let here = lookup-cons j k u (entries fs) in
              let u_is : some u ≡ some v = sym (here ∙ rw same refl) ∙ e in
              subst (λ o. Agree go o (lookup k (entries gs))) u_is
                (subst (λ i. Agree go (some u) (lookup i (entries gs))) ((str_eq_iff j k).0 same)
                  mine)
          | inr other ↦
              fields_equal-Within fs rest k v
                (sym (lookup-cons j k u (entries fs) ∙ rw other refl) ∙ e)
        ]

    Within-fields_equal :
        (fs : Fields)
        → distinct (keys (entries fs)) ≡ true
        → Within fs
        → fields_equal go fs gs ≡ true
    unfolding fields_equal
    Within-fields_equal end d w = refl
    Within-fields_equal (field j u fs) d w =
        let (fresh, rest) =
          and_true (not (mem j (keys (entries fs)))) (distinct (keys (entries fs))) d in
        (and_found-Agree u (lookup j (entries gs)) (fields_equal go fs gs)).1 (
          w j u (lookup-cons j j u (entries fs) ∙ rw (str_eq_refl j) refl),
          Within-fields_equal fs rest (λ k v e.
              let there : mem k (keys (entries fs)) ≡ true = mem-keys k (entries fs) ∙ rw e refl in
              w k v (
                lookup-cons j k u (entries fs) ∙ rw (apart j k (keys (entries fs)) fresh there) e)),
        )

    Within-mem :
        (fs : Fields)
        → Within fs
        → (k : Bytes) → mem k (keys (entries fs)) ≡ true
        → mem k (keys (entries gs)) ≡ true
    Within-mem fs w k h = elim (Option-cases (lookup k (entries fs))) [
      | inl e ↦ let no : false ≡ true = sym (mem-keys k (entries fs) ∙ rw e refl) ∙ h in cc
      | inr (v, e) ↦ mem-keys k (entries gs) ∙ Agree-some v (lookup k (entries gs)) (w k v e)
    ]

  Agree-at :
      (fs gs : Fields)
      → Within gs fs
      → ((k : Bytes) → mem k (keys (entries gs)) ≡ true → mem k (keys (entries fs)) ≡ true)
      → (k : Bytes) → Agree go (lookup k (entries fs)) (lookup k (entries gs))
  Agree-at fs gs w back k = elim (Option-cases (lookup k (entries fs))) [
    | inr (v, e) ↦ subst (λ o. Agree go o (lookup k (entries gs))) (sym e) (w k v e)
    | inl e ↦ elim (Option-cases (lookup k (entries gs))) [
      | inl e' ↦ rw (e, e') tt
      | inr (v, e') ↦
          let there : mem k (keys (entries fs)) ≡ true =
            back k (mem-keys k (entries gs) ∙ rw e' refl) in
          let no : false ≡ true = sym (mem-keys k (entries fs) ∙ rw e refl) ∙ there in cc
    ]
  ]

  Agree-mem :
      (fs gs : Fields)
      → ((k : Bytes) → Agree go (lookup k (entries fs)) (lookup k (entries gs)))
      → (k : Bytes) → mem k (keys (entries gs)) ≡ true
      → mem k (keys (entries fs)) ≡ true
  Agree-mem fs gs agree k h =
      mem-keys k (entries fs)
      ∙ (by_cases (lookup k (entries fs)) (lookup k (entries gs)) (agree k)
          ∙ (sym (mem-keys k (entries gs)) ∙ h))
    where
      by_cases : (a b : Option Value) → Agree go a b → is_some a ≡ is_some b
      by_cases none none h = refl
      by_cases (some v) (some w) h = refl
      by_cases none (some w) h = absurd h
      by_cases (some v) none h = absurd h

  -- Two objects, each of distinct keys, are deeply equal just when at every key either both have no entry or both
  -- have entries with values that are deeply equal.
  pub deep_equal-objects :
      (fs gs : Fields)
      → distinct (keys (entries fs)) ≡ true
      → distinct (keys (entries gs)) ≡ true
      → (deep_equal go (object fs) (object gs) ≡ true)
        ↔ ((k : Bytes) → Agree go (lookup k (entries fs)) (lookup k (entries gs)))
  unfolding deep_equal
  deep_equal-objects fs gs d d' = (
    λ h.
        let (size, each) = and_true (size_fields fs == size_fields gs) (fields_equal go fs gs) h in
        let w = fields_equal-Within gs fs each in
        Agree-at fs gs w (
          mem-all_of (keys (entries fs)) (keys (entries gs)) d (Within-mem gs fs w)
            (ground (arith, size, size_fields-length fs, size_fields-length gs))),
    λ agree.
        let w : Within gs fs =
          λ k v e. subst (λ o. Agree go o (lookup k (entries gs))) e (agree k) in
        ground (
          arith,
          leb-length (keys (entries fs)) (keys (entries gs)) d (Within-mem gs fs w),
          leb-length (keys (entries gs)) (keys (entries fs)) d' (Agree-mem fs gs agree),
          size_fields-length fs,
          size_fields-length gs,
          Within-fields_equal gs fs d w,
        ),
  )

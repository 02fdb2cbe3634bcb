-- ===== src/Cases/Load/Order.antt =====
-- Lemmas on the ids of the cases that `LoadAll` of cases.go answers.
use postgrest_conformance.Base.{
  suc, ◌+◌, length, length-append, and_true, Bool, true, false, not, ◌&&◌, ◌||◌, List, [], ◌∷◌,
  ◌++◌, ◌≡◌, refl, ◌∙◌, subst, arith, Bool-cases, inl, inr,
}
use postgrest_conformance.Base.Text.{Bytes}
use postgrest_conformance.Base.Int.{ℤ, int_eq, int_eq_iff, int_le, int_le_total, int_le_antisymm}
use postgrest_conformance.Base.Result.{ok, >>=-eq-ok}
use postgrest_conformance.Base.Sort.{sort, insert_sorted, sort-IsSorted, IsSorted}
use postgrest_conformance.Value.{Value, Golib}
use postgrest_conformance.Cases.{Case}
use postgrest_conformance.Cases.Load.{has_id, load, load_each, load_all, id_le}

-- No two cases have one id.
abbrev pub distinct_ids : List Case → Bool
distinct_ids [] = true
distinct_ids (c ∷ cs) = not (has_id c.id cs) && distinct_ids cs

abbrev pub id_lt : Case → Case → Bool
id_lt a b = not (int_le b.id a.id)

pub has_id-append :
    (n : ℤ) (cs : List Case) (d : Case) → has_id n (cs ++ d ∷ []) ≡ (has_id n cs || int_eq n d.id)
unfolding has_id
has_id-append n [] d = ground arith
has_id-append n (c ∷ cs) d = ground (arith, has_id-append n cs d)

distinct_ids-append :
    (cs : List Case) (d : Case)
    → distinct_ids cs ≡ true
    → has_id d.id cs ≡ false
    → distinct_ids (cs ++ d ∷ []) ≡ true
unfolding has_id
distinct_ids-append [] d h absent = refl
distinct_ids-append (c ∷ cs) d h absent = ground (
  arith,
  h,
  absent,
  has_id-append c.id cs d,
  int_eq_iff c.id d.id,
  int_eq_iff d.id c.id,
  distinct_ids-append cs d,
)

has_id-insert_sorted :
    (n : ℤ) (c : Case) (cs : List Case)
    → has_id n (insert_sorted id_le c cs) ≡ (int_eq n c.id || has_id n cs)
unfolding has_id insert_sorted
has_id-insert_sorted n c [] = refl
has_id-insert_sorted n c (d ∷ cs) = ground (arith, has_id-insert_sorted n c cs)

distinct_ids-insert_sorted :
    (c : Case) (cs : List Case)
    → distinct_ids cs ≡ true
    → has_id c.id cs ≡ false
    → distinct_ids (insert_sorted id_le c cs) ≡ true
unfolding has_id insert_sorted
distinct_ids-insert_sorted c [] h absent = refl
distinct_ids-insert_sorted c (d ∷ cs) h absent = ground (
  arith,
  h,
  absent,
  has_id-insert_sorted d.id c cs,
  int_eq_iff c.id d.id,
  int_eq_iff d.id c.id,
  distinct_ids-insert_sorted c cs,
)

has_id-sort : (n : ℤ) (cs : List Case) → has_id n (sort id_le cs) ≡ has_id n cs
unfolding has_id sort
has_id-sort n [] = refl
has_id-sort n (c ∷ cs) = ground (arith, has_id-insert_sorted n c (sort id_le cs), has_id-sort n cs)

distinct_ids-sort : (cs : List Case) → distinct_ids cs ≡ true → distinct_ids (sort id_le cs) ≡ true
unfolding sort
distinct_ids-sort [] h = refl
distinct_ids-sort (c ∷ cs) h =
    let (fresh, rest) = and_true (not (has_id c.id cs)) (distinct_ids cs) h in
    distinct_ids-insert_sorted c (sort id_le cs) (distinct_ids-sort cs rest)
      (has_id-sort c.id cs ∙ ground (arith, fresh))

length-insert_sorted :
    (c : Case) (cs : List Case) → length (insert_sorted id_le c cs) ≡ suc (length cs)
unfolding insert_sorted
length-insert_sorted c [] = refl
length-insert_sorted c (d ∷ cs) = ground (arith, length-insert_sorted c cs)

length-sort : (cs : List Case) → length (sort id_le cs) ≡ length cs
unfolding sort
length-sort [] = refl
length-sort (c ∷ cs) = length-insert_sorted c (sort id_le cs) ∙ omega (arith, length-sort cs)

strictly : (cs : List Case) → IsSorted id_le cs → distinct_ids cs ≡ true → IsSorted id_lt cs
unfolding has_id
strictly [] s d = tt
strictly (c ∷ []) s d = tt
strictly (c ∷ e ∷ cs) s d = (
  ground (arith, s.0, d, int_eq_iff c.id e.id, int_le_antisymm c.id e.id),
  strictly (e ∷ cs) s.1 (ground (arith, d)),
)

load_each_lem :
    (go : Golib) (docs : List (Bytes × Value)) (out cs : List Case)
    → distinct_ids out ≡ true
    → load_each go docs out ≡ ok cs
    → (distinct_ids cs ≡ true) × (length cs ≡ length out + length docs)
unfolding load_each
load_each_lem go [] out cs h e =
    let same : out ≡ cs = ground (arith, e) in
    subst (λ x. (distinct_ids x ≡ true) × (length x ≡ length out + 0)) same (h, omega arith)
load_each_lem go ((path, doc) ∷ docs) out cs h e =
    let (c, _, later) = >>=-eq-ok (load go path doc) _ e in
    elim (Bool-cases (has_id c.id out)) [
      | inl twice ↦ let no = rw twice at later in cc
      | inr new ↦
          let (d, n) =
            load_each_lem go docs (out ++ c ∷ []) cs (distinct_ids-append out c h new)
              (rw new at later) in
          (d, omega (arith, n, length-append out (c ∷ [])))
    ]

-- No two loaded cases have one id.
pub distinct_ids-load_all :
    (go : Golib) (docs : List (Bytes × Value)) (cs : List Case)
    → load_all go docs ≡ ok cs
    → distinct_ids cs ≡ true
unfolding load_all
distinct_ids-load_all go docs cs e =
    let (loaded, all_loaded, last) = >>=-eq-ok (load_each go docs []) (λ x. ok (sort id_le x)) e in
    let (d, n) = load_each_lem go docs [] loaded refl all_loaded in
    let same : sort id_le loaded ≡ cs = ground (arith, last) in
    rw (← same) (distinct_ids-sort loaded d)

-- Loading that succeeds gives one case for each file, in strictly ascending order of their ids.
pub load_all_lem :
    (go : Golib) (docs : List (Bytes × Value)) (cs : List Case)
    → load_all go docs ≡ ok cs
    → IsSorted id_lt cs × (length cs ≡ length docs)
unfolding load_all
load_all_lem go docs cs e =
    let (loaded, all_loaded, last) = >>=-eq-ok (load_each go docs []) (λ x. ok (sort id_le x)) e in
    let (d, n) = load_each_lem go docs [] loaded refl all_loaded in
    let same : sort id_le loaded ≡ cs = ground (arith, last) in
    rw (← same) (
      strictly _ (sort-IsSorted (λ a b. int_le_total a.id b.id) loaded)
          (distinct_ids-sort loaded d),
      omega (arith, n, length-sort loaded),
    )

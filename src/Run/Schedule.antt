-- ===== src/Run/Schedule.antt =====
-- Lemmas on `groupsInOrder` of run.go as a whole.
use mathlib.Core.List.{Perm, perm_middle}
use mathlib.Core.List.Perm
use postgrest_conformance.Base.{
  Bool, true, false, not, List, [], ◌∷◌, ◌++◌, Option, ◌≡◌, refl, sym, ◌∙◌, keep, any, arith, All,
  All-append, Bool-cases, inl, inr, and_true,
}
use postgrest_conformance.Base.Text.{Bytes, str_eq, str_eq_iff, str_eq_refl}
use postgrest_conformance.Base.Assoc.{mem, distinct}
use postgrest_conformance.Base.Int.{ℤ}
use postgrest_conformance.Base.Sort.{sort-perm, All-sort}
use postgrest_conformance.Cases.{Case}
use postgrest_conformance.Route.{Placement}
use postgrest_conformance.Run.{HttpGroup, cases_of, rank_le, min_id_le, bucket, groups_in_order}
use postgrest_conformance.Run.Groups.{
  keys_of, cases_at, routed_to, cases_at-bucket, mem-keys_of-bucket, distinct-bucket,
}

partition_perm {ℓ} :
    {A : Type ℓ} (p : A → Bool) (l : List A) → Perm (keep p l ++ keep (λ x. not (p x)) l) l
partition_perm p [] = Perm.refl []
partition_perm p (a ∷ l) = elim (Bool-cases (p a)) [
  | inl first ↦ rw first (Perm.cons a (partition_perm p l))
  | inr second ↦ rw second (
      Perm.trans (perm_middle (keep p l) (keep (λ x. not (p x)) l))
        (Perm.cons a (partition_perm p l)))
]

pub All-keep {ℓ κ} :
    {A : Type ℓ} (P : A → Type κ) (p : A → Bool) (l : List A) → All P l → All P (keep p l)
All-keep P p [] h = tt
All-keep P p (a ∷ l) h = elim (Bool-cases (p a)) [
  | inl kept ↦ rw kept (h.0, All-keep P p l h.1)
  | inr left ↦ rw left (All-keep P p l h.1)
]

module _ (placements : ℤ → Option Placement) (selected : List Case) where
  abbrev groups : List HttpGroup
  groups = bucket placements [] selected

  All-groups_in_order {κ} :
      (P : HttpGroup → Type κ) → All P groups → All P (groups_in_order placements selected)
  unfolding groups_in_order
  All-groups_in_order P h =
      All-append P _ _ (All-sort P rank_le _ (All-keep P (λ g. g.shared) groups h))
        (All-sort P min_id_le _ (All-keep P (λ g. not g.shared) groups h))

  groups_in_order-perm : Perm (groups_in_order placements selected) groups
  unfolding groups_in_order
  groups_in_order-perm =
      Perm.trans
        (Perm.append (sort-perm rank_le (keep (λ g. g.shared) groups))
          (sort-perm min_id_le (keep (λ g. not g.shared) groups)))
        (partition_perm (λ g. g.shared) groups)

-- the groups behind another one, whose key is none of theirs
cases_at-behind :
    (g : HttpGroup) (gs hs : List HttpGroup)
    → mem g.key (keys_of hs) ≡ false
    → All (λ h. cases_at h.key gs ≡ cases_of h) hs
    → All (λ h. cases_at h.key (g ∷ gs) ≡ cases_of h) hs
cases_at-behind g gs [] absent own = tt
cases_at-behind g gs (h ∷ hs) absent own =
    let differs : str_eq g.key h.key ≡ false =
      ground (arith, absent, str_eq_iff g.key h.key, str_eq_iff h.key g.key) in
    (rw differs (own.0), cases_at-behind g gs hs (ground (arith, absent)) own.1)

cases_at_own :
    (gs : List HttpGroup)
    → distinct (keys_of gs) ≡ true
    → All (λ g. cases_at g.key gs ≡ cases_of g) gs
cases_at_own [] d = tt
cases_at_own (g ∷ gs) d =
    let (fresh, rest) = and_true (not (mem g.key (keys_of gs))) (distinct (keys_of gs)) d in
    (rw (str_eq_refl g.key), cases_at-behind g gs gs (ground (arith, fresh)) (cases_at_own gs rest))

module _ (placements : ℤ → Option Placement) (selected : List Case) where
  own_cases :
      (gs : List HttpGroup)
      → All (λ g. cases_at g.key (bucket placements [] selected) ≡ cases_of g) gs
      → All (λ g. cases_of g ≡ keep (routed_to placements g.key) selected) gs
  own_cases [] own = tt
  own_cases (g ∷ gs) own =
      (sym own.0 ∙ cases_at-bucket placements g.key [] selected, own_cases gs own.1)

-- The groups in their order are those that the first loop makes, rearranged. These have distinct
-- keys, a key being there just when a selected case is routed to it over HTTP; and each group has
-- exactly the selected cases that are routed to its key, in the order of the selection.
pub groups_in_order_lem :
    (placements : ℤ → Option Placement) (selected : List Case)
    → Perm (groups_in_order placements selected) (bucket placements [] selected)
      × (distinct (keys_of (bucket placements [] selected)) ≡ true)
      × ((k : Bytes)
          → mem k (keys_of (bucket placements [] selected)) ≡ any (routed_to placements k) selected)
      × All
          (λ g. cases_of g ≡ keep (routed_to placements g.key) selected)
          (groups_in_order placements selected)
groups_in_order_lem placements selected =
    let d : distinct (keys_of (bucket placements [] selected)) ≡ true =
      distinct-bucket placements [] selected refl in
    (
      groups_in_order-perm placements selected,
      d,
      λ k. mem-keys_of-bucket placements k [] selected,
      All-groups_in_order placements selected _
          (own_cases placements selected _ (cases_at_own _ d)),
    )

-- ===== src/Route/Harness.antt =====
-- `CrossCheckHarness` of route.go: the routing against the list of HARNESS.md §2.3.
use postgrest_conformance.Base.{
  ℕ, Bool, true, false, not, ◌&&◌, List, [], ◌∷◌, ◌++◌, Option, none, some, ◌≡◌, ◌↔◌, refl, subst,
  arith, if◌then◌else◌, All,
}
use postgrest_conformance.Base.Int.{ℤ, pos, int_eq, int_le}
use postgrest_conformance.Base.Sort.{sort, All-sort, sort-All}
use postgrest_conformance.Cases.{Kind, http, cli}
use postgrest_conformance.Route.Bases.{harness_variant_ids}
use postgrest_conformance.Route.{Placement, is_variant, id_in}

-- The two messages, by the id that each names.
pub data Finding : Type 0 where
  not_listed : ℤ → Finding
  not_variant : ℤ → Finding

-- A map from ids to placements, in the order that a loop meets it.
abbrev pub Placements : Type 0
Placements = List (ℤ × Placement)

unfoldable pub find_placement : ℤ → Placements → Option Placement
find_placement n [] = none
find_placement n ((m, p) ∷ ps) = if int_eq m n then some p else find_placement n ps

abbrev pub is_http : Kind → Bool
is_http http = true
is_http cli = false

-- what the first loop appends for one id
unfoldable pub check_routed : ℤ → Placement → List Finding
check_routed n p =
    if is_http p.kind && (is_variant p && not (id_in n harness_variant_ids))
    then not_listed n ∷ []
    else []

unfoldable pub check_each : Placements → List Finding
check_each [] = []
check_each ((n, p) ∷ ps) = check_routed n p ++ check_each ps

-- what the second loop appends for one id
unfoldable pub check_listed : ℤ → Option Placement → List Finding
check_listed n none = []
check_listed n (some p) = if is_http p.kind && not (is_variant p) then not_variant n ∷ [] else []

unfoldable pub check_list : List ℕ → Placements → List Finding
check_list [] all = []
check_list (n ∷ ns) all = check_listed (pos n) (find_placement (pos n) all) ++ check_list ns all

abbrev by_id : ℤ × Placement → ℤ × Placement → Bool
by_id a b = int_le a.0 b.0

-- `CrossCheckHarness`
unfoldable pub cross_check_harness : Placements → List Finding
cross_check_harness all = check_each (sort by_id all) ++ check_list harness_variant_ids all

-- An HTTP case that is routed to a variant stands in the list.
abbrev pub IsListed : ℤ × Placement → Type 0
IsListed (n, p) = is_http p.kind ≡ true → is_variant p ≡ true → id_in n harness_variant_ids ≡ true

-- An id of the list that is routed as an HTTP case has a variant.
abbrev pub IsServed : Placements → ℕ → Type 0
IsServed all n =
    (p : Placement)
    → find_placement (pos n) all ≡ some p
    → is_http p.kind ≡ true
    → is_variant p ≡ true

append-nil_iff {ℓ} : {A : Type ℓ} (xs ys : List A) → (xs ++ ys ≡ []) ↔ ((xs ≡ []) × (ys ≡ []))
append-nil_iff [] ys = (λ h. (refl, h), λ (_, h). h)
append-nil_iff (x ∷ xs) ys = (λ h. cc, λ (h, _). cc)

check_routed_iff : (e : ℤ × Placement) → (check_routed e.0 e.1 ≡ []) ↔ IsListed e
unfolding check_routed
check_routed_iff (n, p) = ground arith

check_each_iff : (ps : Placements) → (check_each ps ≡ []) ↔ All IsListed ps
unfolding check_each
check_each_iff [] = (λ h. tt, λ h. refl)
check_each_iff ((n, p) ∷ ps) = (
  λ h.
      let (here, later) = (append-nil_iff _ _).0 h in
      ((check_routed_iff (n, p)).0 here, (check_each_iff ps).0 later),
  λ h. (append-nil_iff _ _).1 ((check_routed_iff (n, p)).1 h.0, (check_each_iff ps).1 h.1),
)

check_listed-some :
    (n : ℤ) (q : Placement)
    → (check_listed n (some q) ≡ []) ↔ (is_http q.kind ≡ true → is_variant q ≡ true)
unfolding check_listed
check_listed-some n q = ground arith

check_listed_iff :
    (n : ℤ) (o : Option Placement)
    → (check_listed n o ≡ [])
      ↔ ((p : Placement) → o ≡ some p → is_http p.kind ≡ true → is_variant p ≡ true)
unfolding check_listed
check_listed_iff n none = (λ h p e. cc, λ h. refl)
check_listed_iff n (some q) = (
  λ h p e.
      let same : q ≡ p = cc in
      subst (λ x. is_http x.kind ≡ true → is_variant x ≡ true) same ((check_listed-some n q).0 h),
  λ h. (check_listed-some n q).1 (h q refl),
)

check_list_iff : (ns : List ℕ) (all : Placements) → (check_list ns all ≡ []) ↔ All (IsServed all) ns
unfolding check_list
check_list_iff [] all = (λ h. tt, λ h. refl)
check_list_iff (n ∷ ns) all = (
  λ h.
      let (here, later) = (append-nil_iff _ _).0 h in
      ((check_listed_iff (pos n) _).0 here, (check_list_iff ns all).0 later),
  λ h. (append-nil_iff _ _).1 ((check_listed_iff (pos n) _).1 h.0, (check_list_iff ns all).1 h.1),
)

-- The cross-check finds nothing exactly when the routing and the list agree in both directions:
-- every HTTP case that is routed to a variant is listed, and every listed id that is routed as an
-- HTTP case has a variant.
pub cross_check_harness_iff :
    (all : Placements)
    → (cross_check_harness all ≡ []) ↔ (All IsListed all × All (IsServed all) harness_variant_ids)
unfolding cross_check_harness
cross_check_harness_iff all = (
  λ h.
      let (routed, listed) = (append-nil_iff _ _).0 h in
      (
        sort-All IsListed by_id all ((check_each_iff (sort by_id all)).0 routed),
        (check_list_iff harness_variant_ids all).0 listed,
      ),
  λ (routed, listed). (append-nil_iff _ _).1 (
    (check_each_iff (sort by_id all)).1 (All-sort IsListed by_id all routed),
    (check_list_iff harness_variant_ids all).1 listed,
  ),
)

-- ===== src/Run/Loop/Once.antt =====
-- Lemmas on the placements of cmdRun.
use postgrest_conformance.Base.{
  true, false, List, [], ◌∷◌, ◌≡◌, refl, ◌∙◌, some, All, inl, inr, Bool-cases, arith, ap, sym,
  is_empty,
}
use postgrest_conformance.Base.Int.{ℤ, int_eq, int_eq_iff}
use postgrest_conformance.Base.Result.{Result, ok, err, >>=-eq-ok}
use postgrest_conformance.Run.{RunError}
use postgrest_conformance.Value.{Golib}
use postgrest_conformance.Cases.Load.{has_id}
use postgrest_conformance.Cases.Load.Order.{distinct_ids}
use postgrest_conformance.Cases.{Case, Kind, http, cli}
use postgrest_conformance.Route.{
  Placement, RouteError, route, route_http, by_kind, id_in, safe_update_ids, choose_base,
  overlay_of, place,
}
use postgrest_conformance.Run.Loop.{Table, placement_of, place_each, routed}
use postgrest_conformance.Run.Loop.Kinds.{has_kind}

abbrev table_of : Table → Result RunError Table → Table
table_of t (ok u) = u
table_of t (err e) = t

abbrev placement_or : Placement → Result RunError Placement → Placement
placement_or q (ok p) = p
placement_or q (err e) = q

int_eq_refl : (n : ℤ) → int_eq n n ≡ true
int_eq_refl n = (int_eq_iff n n).1 refl

abbrev placement_in : Placement → Result RouteError Placement → Placement
placement_in q (ok p) = p
placement_in q (err e) = q

route_http-kind : (go : Golib) (c : Case) (p : Placement) → route_http go c ≡ ok p → p.kind ≡ http
unfolding route_http place
route_http-kind go c p e = elim (Bool-cases (id_in c.id safe_update_ids)) [
  | inl special ↦ elim (Bool-cases (is_empty c.config.keys)) [
    | inl plain ↦ sym (ap (λ r. (placement_in p r).kind) (rw (special, plain) at e))
    | inr sets ↦ let bad = rw (special, sets) at e in cc
  ]
  | inr usual ↦
      let (chosen, was_chosen, later) = >>=-eq-ok (choose_base c) _ (rw usual at e) in
      let (o, was_made, last) = >>=-eq-ok (overlay_of go c) _ later in
      sym (ap (λ r. (placement_in p r).kind) last)
]

by_kind-has_kind :
    (k : Kind) (r : Result RouteError Placement) (p : Placement)
    → (r ≡ ok p → p.kind ≡ http)
    → by_kind k r ≡ ok p
    → has_kind k (some p) ≡ true
by_kind-has_kind cli r p over_http e =
    let k : cli ≡ p.kind = ap (λ x. (placement_in p x).kind) e in rw (← k) refl
by_kind-has_kind http r p over_http e = rw (over_http e) refl

-- A placement of a case is of the case's kind.
route-kind :
    (go : Golib) (c : Case) (p : Placement)
    → route go c ≡ ok p
    → has_kind c.request.kind (some p) ≡ true
unfolding route
route-kind go c p e = by_kind-has_kind c.request.kind (route_http go c) p (route_http-kind go c p) e

routed-ok : (r : Result RouteError Placement) (p : Placement) → routed r ≡ ok p → r ≡ ok p
routed-ok (ok q) p e = let same : q ≡ p = ap (placement_or q) e in ap ok same
routed-ok (err x) p e = cc

-- An id that none of the cases has keeps its placement.
placement_of-place_each :
    (go : Golib) (n : ℤ) (table : Table) (cs : List Case) (after : Table)
    → has_id n cs ≡ false
    → place_each go table cs ≡ ok after
    → placement_of after n ≡ placement_of table n
unfolding place_each
placement_of-place_each go n table [] after h e =
    let same : table ≡ after = ap (table_of table) e in rw same refl
placement_of-place_each go n table (c ∷ cs) after h e =
    let (p, found, rest) =
      >>=-eq-ok (routed (route go c)) (λ p. place_each go ((c.id, p) ∷ table) cs) e in
    let differs : int_eq c.id n ≡ false =
      unfold has_id in ground (arith, h, int_eq_iff c.id n, int_eq_iff n c.id) in
    placement_of-place_each go n ((c.id, p) ∷ table) cs after (unfold has_id in ground (arith, h))
      rest
    ∙ unfold placement_of in rw differs refl

-- Every case of a list without an id twice is placed, in its own kind.
pub place_each-All :
    (go : Golib) (table : Table) (cs : List Case) (after : Table)
    → distinct_ids cs ≡ true
    → place_each go table cs ≡ ok after
    → All (λ c. has_kind c.request.kind (placement_of after c.id) ≡ true) cs
unfolding place_each
place_each-All go table [] after d e = tt
place_each-All go table (c ∷ cs) after d e =
    let (p, found, rest) =
      >>=-eq-ok (routed (route go c)) (λ p. place_each go ((c.id, p) ∷ table) cs) e in
    let fresh : has_id c.id cs ≡ false = ground (arith, d) in
    let mine : placement_of after c.id ≡ some p =
      placement_of-place_each go c.id ((c.id, p) ∷ table) cs after fresh rest
      ∙ unfold placement_of in rw (int_eq_refl c.id) refl in
    (
      rw mine (route-kind go c p (routed-ok (route go c) p found)),
      place_each-All go ((c.id, p) ∷ table) cs after (ground (arith, d)) rest,
    )

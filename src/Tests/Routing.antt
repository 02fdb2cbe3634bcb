-- ===== src/Tests/Routing.antt =====
-- Examples of the routing of a case and of the environment of its instance.
use postgrest_conformance.Base.{
  true, false, not, [], ◌∷◌, ◌++◌, ◌≡◌, refl, ◌↔◌, All, is_empty, arith,
}
use postgrest_conformance.Base.Text.{
  Bytes, codes, str_eq, str_eq_iff, str_le, has_prefix, to_upper, replace_all,
}
use postgrest_conformance.Base.Assoc.{Assoc, lookup, insert}
use postgrest_conformance.Base.Same.{SameMap}
use postgrest_conformance.Base.Result.{ok}
use postgrest_conformance.Base.Int.{pos}
use postgrest_conformance.Route.{
  Val, clear, set, Placement, effective, choose_base, overlay_of, id_in, safe_update_ids, base_of,
  route, is_variant, routes_to_auth, area_base, own_overlay, translate, translate_onto,
  translate_value, env_key, add_extras, group_key_of, safe_update_placement,
}
use postgrest_conformance.Route.Bases.{harness_variant_ids}
use postgrest_conformance.Route.Placements.{has_base, route_settings}
use postgrest_conformance.Route.Harness.{
  Placements, cross_check_harness, IsListed, IsServed, cross_check_harness_iff,
}
use postgrest_conformance.Route.GroupKey.{group_key_of-SameMap, group_key_of_collides}
use postgrest_conformance.Instance.{apply_overlay}
use postgrest_conformance.Tests.Samples.{library, sample_case}

abbrev max_rows_overlay : Assoc Val
max_rows_overlay = (codes "PGRST_DB_MAX_ROWS", set (codes "5")) ∷ []

chooses : choose_base sample_case ≡ ok (codes "pagination", [])
unfolding choose_base str_eq id_in routes_to_auth has_prefix area_base
chooses = refl

translates : overlay_of library sample_case ≡ ok max_rows_overlay
unfolding overlay_of own_overlay translate translate_onto translate_value insert env_key to_upper
    replace_all add_extras id_in
translates = refl

ordinary : id_in sample_case.id safe_update_ids ≡ false
unfolding id_in
ordinary = refl

route_settings_example :
    (p : Placement) × (route library sample_case ≡ ok p)
    × (p.base ≡ codes "pagination")
    × (p.inject_profile ≡ [])
    × (has_base p.base ≡ true)
    × ((k : Bytes)
        → effective (apply_overlay (base_of p.base) p.overlay) k
          ≡ effective (apply_overlay (base_of p.base) max_rows_overlay) k)
    × (is_variant p ≡ not (is_empty p.overlay))
route_settings_example =
    route_settings library sample_case (codes "pagination", []) max_rows_overlay refl ordinary
      chooses translates

abbrev placed : Placements
placed = (pos 1387, safe_update_placement) ∷ []

cross_check_harness_iff_example :
    (cross_check_harness placed ≡ [])
    ↔ (All IsListed placed × All (IsServed placed) harness_variant_ids)
cross_check_harness_iff_example = cross_check_harness_iff placed

abbrev one_order : Assoc Val
one_order = (codes "A", set (codes "1")) ∷ (codes "B", clear) ∷ []

abbrev other_order : Assoc Val
other_order = (codes "B", clear) ∷ (codes "A", set (codes "1")) ∷ []

same_settings : SameMap one_order other_order
unfolding lookup
same_settings k = ground (arith, str_eq_iff (codes "A") k, str_eq_iff (codes "B") k)

group_key_of-SameMap_example :
    group_key_of (codes "test") one_order ≡ group_key_of (codes "test") other_order
unfolding str_eq
group_key_of-SameMap_example =
    group_key_of-SameMap (codes "test") one_order other_order refl refl same_settings

group_key_of_collides_example :
    (group_key_of (codes "test") ((codes "A", set (codes "1")) ∷ (codes "B", set (codes "2")) ∷ [])
      ≡ group_key_of
          (codes "test")
          ((codes "A", set (codes "1" ++ (b';' ∷ (codes "B" ++ (b'=' ∷ codes "2"))))) ∷ []))
    × (¬ (
        SameMap
          ((codes "A", set (codes "1")) ∷ (codes "B", set (codes "2")) ∷ [])
          ((codes "A", set (codes "1" ++ (b';' ∷ (codes "B" ++ (b'=' ∷ codes "2"))))) ∷ [])))
unfolding str_eq str_le
group_key_of_collides_example =
    group_key_of_collides (codes "test") (codes "A") (codes "B") (codes "1") (codes "2") refl refl

abbrev small_base : Assoc Bytes
small_base = (codes "A", codes "0") ∷ []

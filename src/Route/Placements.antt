-- ===== src/Route/Placements.antt =====
-- Lemmas on the placements of `Route` of route.go.
use postgrest_conformance.Base.{
  Bool, true, false, not, ◌||◌, List, [], ◌∷◌, ◌++◌, ◌≡◌, refl, ap, arith, Bool-cases, Option-cases,
  inl, inr, is_some, is_empty, all, ℕ,
}
use postgrest_conformance.Base.Text.{Bytes, codes, str_eq, str_eq_refl}
use postgrest_conformance.Base.Assoc.{
  Assoc, lookup, insert, keys, mem, distinct, mem-keys, distinct-insert, lookup-all,
}
use postgrest_conformance.Base.Int.{ℤ}
use postgrest_conformance.Base.Result.{ok, >>=-eq-ok, Result-cases}
use postgrest_conformance.Value.{Value, Golib}
use postgrest_conformance.Cases.{Case, http}
use postgrest_conformance.Route.Bases.{base_configs, area_schema_labels, area_bases}
use postgrest_conformance.Route.{
  Val, clear, set, Placement, effective, unsatisfied, route, route_http, choose_base, area_base,
  own_overlay, overlay_of, add_extras, translate, translate_onto, translate_value, env_key, place,
  base_of, id_in, safe_update_ids, group_key_of, is_variant,
}
use postgrest_conformance.Route.Overlay.{no_empty, setting_kept}
use postgrest_conformance.Instance.{apply_overlay}

-- No base has an empty setting.
bases-no_empty : all (λ e. no_empty e.1) base_configs ≡ true
unfolding base_configs
bases-no_empty = refl

base_of-no_empty : (name : Bytes) → no_empty (base_of name) ≡ true
unfolding base_of
base_of-no_empty name = elim (Option-cases (lookup name base_configs)) [
  | inl e ↦ rw e
  | inr (m, e) ↦ rw e (lookup-all no_empty name base_configs m bases-no_empty e)
]

keys-area_bases : (ls : List Bytes) → keys (area_bases ls) ≡ ls
keys-area_bases [] = refl
keys-area_bases (l ∷ ls) = ap (◌∷◌ l) (keys-area_bases ls)

keys-base_configs :
    keys base_configs ≡ codes "auth" ∷ codes "multi" ∷ codes "unicode" ∷ area_schema_labels
unfolding base_configs
keys-base_configs = refl

abbrev pub has_base : Bytes → Bool
has_base name = is_some (lookup name base_configs)

has_base_of_mem :
    (name : Bytes)
    → mem name (codes "auth" ∷ codes "multi" ∷ codes "unicode" ∷ area_schema_labels) ≡ true
    → has_base name ≡ true
has_base_of_mem name h = rw (← mem-keys name base_configs, keys-base_configs) h

area-has_base : (schema : Bytes) → mem schema area_schema_labels ≡ true → has_base schema ≡ true
area-has_base schema h = has_base_of_mem schema (ground arith)

translate_onto-distinct :
    (go : Golib) (out : Assoc Val) (cfg : Assoc Value) {o : Assoc Val}
    → distinct (keys out) ≡ true
    → translate_onto go out cfg ≡ ok o
    → distinct (keys o) ≡ true
unfolding translate_onto
translate_onto-distinct go out [] h e = ground arith
translate_onto-distinct go out ((k, v) ∷ cfg) h e =
    let (t, _, rest) = >>=-eq-ok (translate_value go k v) _ e in
    translate_onto-distinct go (insert (env_key k) t out) cfg (distinct-insert (env_key k) t out h)
      rest

add_extras-distinct :
    (n : ℤ) (o : Assoc Val) → distinct (keys o) ≡ true → distinct (keys (add_extras n o)) ≡ true
unfolding add_extras
add_extras-distinct n o h = ground (
  arith,
  distinct-insert (codes "PGRST_DB_SCHEMAS") (set (codes "openapi_no_comment")) o h,
  distinct-insert (codes "PGRST_DB_SCHEMAS") (set (codes "SCHEMA_v3")) o h,
  distinct-insert (codes "PGRST_JWT_SECRET") clear o h,
)

own_overlay-distinct :
    (go : Golib) (c : Case) {o : Assoc Val} → own_overlay go c ≡ ok o → distinct (keys o) ≡ true
unfolding own_overlay translate
own_overlay-distinct go c e = elim (Bool-cases c.config.present) [
  | inl p ↦ translate_onto-distinct go [] c.config.keys refl (rw p at e)
  | inr p ↦ let none_kept = rw p at e in ground arith
]

overlay_of-distinct :
    (go : Golib) (c : Case) {o : Assoc Val} → overlay_of go c ≡ ok o → distinct (keys o) ≡ true
unfolding overlay_of
overlay_of-distinct go c e =
    let (o, own, all) = >>=-eq-ok (own_overlay go c) _ e in
    let d = add_extras-distinct c.id o (own_overlay-distinct go c own) in ground arith

fixed_bases :
    (has_base (codes "multi") ≡ true)
    × (has_base (codes "unicode") ≡ true)
    × (has_base (codes "auth") ≡ true)
    × (has_base (codes "test") ≡ true)
    × (has_base (codes "mutations") ≡ true)
unfolding base_configs lookup str_eq
fixed_bases = (refl, refl, refl, refl, refl)

area_base-has_base : (s : Bytes) {b : Bytes} → area_base s ≡ ok b → has_base b ≡ true
unfolding area_base
area_base-has_base s e = elim (Bool-cases (str_eq s [] || str_eq s (codes "public"))) [
  | inl d ↦ let chosen = rw d at e in ground (arith, fixed_bases)
  | inr d ↦ elim (Bool-cases (mem s area_schema_labels)) [
    | inl m ↦ let chosen = rw (d, m) at e in ground (arith, area-has_base s m)
    | inr m ↦ cc (rw (d, m) at e)
  ]
]

choose_base-has_base :
    (c : Case) {chosen : Bytes × Bytes} → choose_base c ≡ ok chosen → has_base chosen.0 ≡ true
unfolding choose_base
choose_base-has_base c e = elim (Result-cases (area_base c.schema)) [
  | inl (b, a) ↦ ground (arith, fixed_bases, area_base-has_base c.schema a)
  | inr (x, a) ↦ ground (arith, fixed_bases)
]

longer-ne : (b : Bytes) (c : ℕ) (s : Bytes) → str_eq (b ++ c ∷ s) b ≡ false
unfolding str_eq
longer-ne [] c s = refl
longer-ne (x ∷ b) c s = ground (arith, longer-ne b c s)

group_key_of-base : (b : Bytes) (o : Assoc Val) → str_eq (group_key_of b o) b ≡ is_empty o
unfolding group_key_of
group_key_of-base b [] = str_eq_refl b
group_key_of-base b ((k, v) ∷ o) = longer-ne b b'|' _

-- A case that is not for the command line and not one of the three safe-update cases, whose schema
-- and config the router understands, is placed: on the base chosen for it, which is one of the
-- shared instances, with an overlay that gives every setting the value that the base with the
-- case's whole overlay has. Its group is the base's own exactly when no entry of the overlay is left.
pub route_settings :
    (go : Golib) (c : Case) (chosen : Bytes × Bytes) (o : Assoc Val)
    → c.request.kind ≡ http
    → id_in c.id safe_update_ids ≡ false
    → choose_base c ≡ ok chosen
    → overlay_of go c ≡ ok o
    → (p : Placement) × (route go c ≡ ok p)
      × (p.base ≡ chosen.0)
      × (p.inject_profile ≡ chosen.1)
      × (has_base p.base ≡ true)
      × ((k : Bytes)
          → effective (apply_overlay (base_of p.base) p.overlay) k
            ≡ effective (apply_overlay (base_of p.base) o) k)
      × (is_variant p ≡ not (is_empty p.overlay))
unfolding route route_http place is_variant
route_settings go c chosen o k s b e = (
  place chosen.0 chosen.1 o,
  rw (s, b, e, k),
  refl,
  refl,
  choose_base-has_base c b,
  λ j. setting_kept (base_of chosen.0) o j (base_of-no_empty chosen.0) (overlay_of-distinct go c e),
  ap not (group_key_of-base chosen.0 (unsatisfied (base_of chosen.0) o)),
)

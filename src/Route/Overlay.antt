-- ===== src/Route/Overlay.antt =====
-- Lemmas on the overlay entries that `Route` of route.go drops.
use postgrest_conformance.Base.{
  Bool, true, false, not, ◌&&◌, [], ◌∷◌, Option, none, some, ◌≡◌, refl, sym, ◌∙◌, arith,
  if◌then◌else◌, Bool-cases, Option-cases, inl, inr, and_true, is_empty,
}
use postgrest_conformance.Base.Text.{Bytes, str_eq_iff}
use postgrest_conformance.Base.Assoc.{
  Assoc, lookup, keys, mem, distinct, lookup-cons, lookup-nil, lookup_absent,
}
use postgrest_conformance.Route.{Val, clear, set, or_default, effective, satisfied, unsatisfied}
use postgrest_conformance.Instance.{apply_overlay}
use postgrest_conformance.Instance.Environment.{overlaid, lookup-apply_overlay}

-- No setting is the empty text.
abbrev pub no_empty : Assoc Bytes → Bool
no_empty [] = true
no_empty ((k, v) ∷ m) = not (is_empty v) && no_empty m

-- the entry of a key that is still there after the filter
abbrev left_over : Assoc Bytes → Bytes → Option Val → Option Val
left_over base k none = none
left_over base k (some v) = if satisfied base k v then none else some v

mem-unsatisfied :
    (j : Bytes) (base : Assoc Bytes) (o : Assoc Val)
    → mem j (keys o) ≡ false
    → mem j (keys (unsatisfied base o)) ≡ false
unfolding unsatisfied
mem-unsatisfied j base [] h = refl
mem-unsatisfied j base ((k, v) ∷ o) h = ground (arith, mem-unsatisfied j base o)

distinct-unsatisfied :
    (base : Assoc Bytes) (o : Assoc Val)
    → distinct (keys o) ≡ true
    → distinct (keys (unsatisfied base o)) ≡ true
unfolding unsatisfied
distinct-unsatisfied base [] h = refl
distinct-unsatisfied base ((k, v) ∷ o) h =
    ground (arith, distinct-unsatisfied base o, mem-unsatisfied k base o)

unsatisfied-nil : (base : Assoc Bytes) → unsatisfied base [] ≡ []
unfolding unsatisfied
unsatisfied-nil base = refl

unsatisfied-cons :
    (base : Assoc Bytes) (k : Bytes) (v : Val) (o : Assoc Val)
    → unsatisfied base ((k, v) ∷ o)
      ≡ (if satisfied base k v then unsatisfied base o else (k, v) ∷ unsatisfied base o)
unfolding unsatisfied
unsatisfied-cons base k v o = refl

lookup-unsatisfied :
    (j : Bytes) (base : Assoc Bytes) (o : Assoc Val)
    → distinct (keys o) ≡ true
    → lookup j (unsatisfied base o) ≡ left_over base j (lookup j o)
lookup-unsatisfied j base [] h = rw (unsatisfied-nil base, lookup-nil {V = Val} j)
lookup-unsatisfied j base ((k, v) ∷ o) h =
    let (fresh, rest) = and_true (not (mem k (keys o))) (distinct (keys o)) h in
    let later : lookup j (unsatisfied base o) ≡ left_over base j (lookup j o) =
      lookup-unsatisfied j base o rest in
    let gone : lookup k o ≡ none = lookup_absent k o (ground arith) in
    rw (unsatisfied-cons base k v o) (
      ground (
        arith,
        lookup-cons k j v o,
        lookup-cons k j v (unsatisfied base o),
        later,
        gone,
        str_eq_iff k j,
      ))

lookup-no_empty :
    (j : Bytes) (base : Assoc Bytes) (v : Bytes)
    → no_empty base ≡ true
    → lookup j base ≡ some v
    → is_empty v ≡ false
lookup-no_empty j [] v h e = cc (rw lookup-nil at e)
lookup-no_empty j ((k, w) ∷ base) v h e =
    ground (arith, lookup-cons k j w base, lookup-no_empty j base v)

effective-or_default :
    (base : Assoc Bytes) (k : Bytes) → effective base k ≡ or_default k (lookup k base)
unfolding effective
effective-or_default base k = refl

-- a satisfied entry asks for what the base gives anyway
satisfied_lem :
    (base : Assoc Bytes) (k : Bytes) (v : Val)
    → no_empty base ≡ true
    → satisfied base k v ≡ true
    → or_default k (lookup k base) ≡ or_default k (overlaid (some v) (lookup k base))
satisfied_lem base k (set s) n h =
    sym (effective-or_default base k) ∙ (str_eq_iff _ s).0 (unfold satisfied in h)
satisfied_lem base k clear n h = elim (Option-cases (lookup k base)) [
  | inl e ↦ rw e
  | inr (b, e) ↦
      let empty : is_empty (effective base k) ≡ true = unfold satisfied in h in
      let full : is_empty b ≡ false = lookup-no_empty k base b n e in
      cc (rw (effective-or_default base k, e) at empty)
]

left_over_lem :
    (base : Assoc Bytes) (k : Bytes) (w : Option Val)
    → no_empty base ≡ true
    → or_default k (overlaid (left_over base k w) (lookup k base))
      ≡ or_default k (overlaid w (lookup k base))
left_over_lem base k none n = refl
left_over_lem base k (some v) n = elim (Bool-cases (satisfied base k v)) [
  | inl s ↦ rw s (satisfied_lem base k v n s)
  | inr s ↦ rw s
]

-- The settings of the instance that `Route` asks for, where the overlay's satisfied entries are
-- dropped, are those of the base with the whole overlay applied: for every key the same value, a
-- missing key read as PostgREST's default. The base has no empty setting, and the overlay, being a
-- map, has distinct keys.
pub setting_kept :
    (base : Assoc Bytes) (o : Assoc Val) (k : Bytes)
    → no_empty base ≡ true
    → distinct (keys o) ≡ true
    → effective (apply_overlay base (unsatisfied base o)) k ≡ effective (apply_overlay base o) k
setting_kept base o k n d =
    rw
      (
        effective-or_default (apply_overlay base (unsatisfied base o)) k,
        effective-or_default (apply_overlay base o) k,
        lookup-apply_overlay k (unsatisfied base o) base (distinct-unsatisfied base o d),
        lookup-apply_overlay k o base d,
        lookup-unsatisfied k base o d,
      )
      (left_over_lem base k (lookup k o) n)

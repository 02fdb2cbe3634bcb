-- ===== src/Jsonval/Path/Decides.antt =====
-- `parse_path` of jsonpath.go and the grammar of the paths.
use mathlib.Core.Logic.{inl, inr}
use postgrest_conformance.Base.{
  ℕ, zero, suc, ◌≤◌, true, false, List, [], ◌∷◌, ◌++◌, Option, none, some, ◌≡◌, ◌≢◌, ◌↔◌, refl,
  subst, ap, ◌∙◌, arith, ◌==◌, length, any, all, length-append, Option-cases, Bool-cases,
}
use postgrest_conformance.Base.Text.{Bytes}
use postgrest_conformance.Base.Decimal.{atoi}
use postgrest_conformance.Base.Int.{ℤ, pos, negsuc}
use postgrest_conformance.Base.Result.{ok, err, >>=-eq-ok, Result-cases}
use postgrest_conformance.Jsonval.Path.{
  PathStep, key, idx, out_of_fuel, dot, open_bracket, close_bracket, quote, member, bracket,
  unquote, index_of, quoted_step, selector_step, next_step, steps_of, parse_path,
}
use postgrest_conformance.Jsonval.Path.Grammar.{
  in_name, in_bracket, is_escape, Spells, done, dotted, quoted, indexed, member_lem, Ends,
  Spells-Ends, member-append, bracket_lem, bracket-append, unquote_lem, unquote-append,
}

next_step-dotted :
    (name rest : Bytes)
    → name ≢ []
    → all in_name name ≡ true
    → Ends rest
    → next_step dot (name ++ rest) ≡ ok (key name, rest)
unfolding next_step
next_step-dotted [] rest n a e = absurd (n refl)
next_step-dotted (d ∷ name) rest n a e = ground (arith, member-append (d ∷ name) rest a e)

selector_step-quoted :
    (k : Bytes) → any is_escape k ≡ false → selector_step (quote ∷ (k ++ quote ∷ [])) ≡ ok (key k)
unfolding selector_step
selector_step-quoted k h = rw (unquote-append k, h)

atoi-ne-quote : (c : ℕ) (s : Bytes) (n : ℤ) → atoi (c ∷ s) ≡ some n → (c == quote) ≡ false
unfolding atoi
atoi-ne-quote c s n h = ground arith

selector_step-indexed : (d : Bytes) (n : ℕ) → atoi d ≡ some (pos n) → selector_step d ≡ ok (idx n)
unfolding selector_step
selector_step-indexed [] n h = rw h
selector_step-indexed (c ∷ d) n h = rw (atoi-ne-quote c d (pos n) h) (rw h)

next_step-bracket :
    (inner rest : Bytes) (st : PathStep)
    → all in_bracket inner ≡ true
    → selector_step inner ≡ ok st
    → next_step open_bracket (inner ++ close_bracket ∷ rest) ≡ ok (st, rest)
unfolding next_step
next_step-bracket inner rest st a h = rw (bracket-append inner rest a, h)

steps_of-Spells :
    (f : ℕ) {ss : List PathStep} (s : Bytes) → Spells ss s → length s ≤ f → steps_of f s ≡ ok ss
unfolding steps_of
steps_of-Spells f [] done h = refl
steps_of-Spells f [] (dotted name rest n a r e) h = cc
steps_of-Spells f [] (quoted k rest x a r e) h = cc
steps_of-Spells f [] (indexed d rest n x a r e) h = cc
steps_of-Spells zero (c ∷ s) sp h = absurd (omega arith)
steps_of-Spells (suc f) (c ∷ s) (dotted name rest n a r e) h =
    let shorter : length rest ≤ f = omega (arith, ap length e, length-append name rest) in
    ground
      (arith, next_step-dotted name rest n a (Spells-Ends rest r), steps_of-Spells f rest r shorter)
steps_of-Spells (suc f) (c ∷ s) (quoted k rest x a r e) h =
    let inner : Bytes = quote ∷ (k ++ quote ∷ []) in
    let shorter : length rest ≤ f =
      omega (arith, ap length e, length-append inner (close_bracket ∷ rest)) in
    let closed : all in_bracket inner ≡ true = all-quoted k a in
    ground (
      arith,
      next_step-bracket inner rest (key k) closed (selector_step-quoted k x),
      steps_of-Spells f rest r shorter,
    )
  where
    all-quoted : (k : Bytes) → all in_bracket k ≡ true → all in_bracket (k ++ quote ∷ []) ≡ true
    all-quoted [] a = refl
    all-quoted (c ∷ k) a = ground (arith, all-quoted k)
steps_of-Spells (suc f) (c ∷ s) (indexed d rest n x a r e) h =
    let shorter : length rest ≤ f =
      omega (arith, ap length e, length-append d (close_bracket ∷ rest)) in
    ground (
      arith,
      next_step-bracket d rest (idx n) a (selector_step-indexed d n x),
      steps_of-Spells f rest r shorter,
    )

all-unquoted : (k r : Bytes) → all in_bracket (k ++ r) ≡ true → all in_bracket k ≡ true
all-unquoted [] r a = refl
all-unquoted (c ∷ k) r a = ground (arith, all-unquoted k r)

Spells-head :
    {st st' : PathStep} {ss : List PathStep} {s : Bytes}
    → st ≡ st'
    → Spells (st ∷ ss) s
    → Spells (st' ∷ ss) s
Spells-head {ss = ss} {s = s} e h = subst (λ x. Spells (x ∷ ss) s) e h

index_of-Spells :
    (inner rest : Bytes) {st : PathStep} {ss : List PathStep} (o : Option ℤ)
    → atoi inner ≡ o
    → index_of inner o ≡ ok st
    → all in_bracket inner ≡ true
    → Spells ss rest
    → Spells (st ∷ ss) (open_bracket ∷ (inner ++ close_bracket ∷ rest))
unfolding index_of
index_of-Spells inner rest (some (pos n)) e h a r =
    Spells-head (ground arith) (indexed inner rest n e a r refl)
index_of-Spells inner rest (some (negsuc n)) e h a r = cc
index_of-Spells inner rest none e h a r = cc

quoted-Spells :
    (k rest : Bytes) {st : PathStep} {ss : List PathStep}
    → quoted_step k ≡ ok st
    → all in_bracket (k ++ quote ∷ []) ≡ true
    → Spells ss rest
    → Spells (st ∷ ss) (open_bracket ∷ (quote ∷ (k ++ quote ∷ []) ++ close_bracket ∷ rest))
unfolding quoted_step
quoted-Spells k rest h a r = elim (Bool-cases (any is_escape k)) [
  | inl bad ↦ cc (rw bad at h)
  | inr good ↦
      Spells-head (ground arith) (quoted k rest good (all-unquoted k (quote ∷ []) a) r refl)
]

-- what stands in brackets is a quoted name or a number
selector_step-Spells :
    (inner rest : Bytes) {st : PathStep} {ss : List PathStep}
    → selector_step inner ≡ ok st
    → all in_bracket inner ≡ true
    → Spells ss rest
    → Spells (st ∷ ss) (open_bracket ∷ (inner ++ close_bracket ∷ rest))
unfolding selector_step
selector_step-Spells [] rest h a r = index_of-Spells [] rest (atoi []) refl h a r
selector_step-Spells (c ∷ i) rest h a r = elim (Bool-cases (c == quote)) [
  | inl q ↦ elim (Option-cases (unquote i)) [
    | inl u ↦ index_of-Spells (c ∷ i) rest (atoi (c ∷ i)) refl (rw (q, u) at h) a r
    | inr (k, u) ↦
        let shape : i ≡ k ++ quote ∷ [] = unquote_lem i k u in
        let lead : c ≡ quote = ground arith in
        let tail_in : all in_bracket i ≡ true = ground arith in
        let inside : all in_bracket (k ++ quote ∷ []) ≡ true = rw shape at tail_in in
        rw (lead, shape) (quoted-Spells k rest (rw (q, u) at h) inside r)
  ]
  | inr q ↦ index_of-Spells (c ∷ i) rest (atoi (c ∷ i)) refl (rw q at h) a r
]

member-ne-nil : (d : ℕ) (s : Bytes) → in_name d ≡ true → (member (d ∷ s)).0 ≢ []
unfolding member
member-ne-nil d s h = ground arith

dotted-Spells :
    (s rest : Bytes) {st : PathStep} {ss : List PathStep}
    → (member s).0 ≢ []
    → key (member s).0 ≡ st
    → (member s).1 ≡ rest
    → Spells ss rest
    → Spells (st ∷ ss) (dot ∷ s)
dotted-Spells s rest n e f r =
    let (shape, name) = member_lem s in Spells-head e (dotted (member s).0 rest n name r (cc))

next_step-dot-Spells :
    (s rest : Bytes) {st : PathStep} {ss : List PathStep}
    → next_step dot s ≡ ok (st, rest)
    → Spells ss rest
    → Spells (st ∷ ss) (dot ∷ s)
unfolding next_step
next_step-dot-Spells [] rest h r = cc
next_step-dot-Spells (d ∷ s) rest h r = elim (Bool-cases (in_name d)) [
  | inl n ↦ dotted-Spells (d ∷ s) rest (member-ne-nil d s n) (ground arith) (ground arith) r
  | inr n ↦ let no_step : ⊥ = ground arith in absurd no_step
]

next_step-Spells :
    (c : ℕ) (s rest : Bytes) {st : PathStep} {ss : List PathStep}
    → next_step c s ≡ ok (st, rest)
    → Spells ss rest
    → Spells (st ∷ ss) (c ∷ s)
unfolding next_step
next_step-Spells c s rest {st} h r = elim (Bool-cases (c == dot)) [
  | inl d ↦
      let lead : c ≡ dot = ground arith in
      let h' : next_step dot s ≡ ok (st, rest) = rw lead at h in
      rw lead (next_step-dot-Spells s rest h' r)
  | inr d ↦ elim (Bool-cases (c == open_bracket)) [
    | inl b ↦ elim (Option-cases (bracket s)) [
      | inl u ↦ cc (rw (d, b, u) at h)
      | inr ((inner, tail), u) ↦
          let (shape, a) = bracket_lem s inner tail u in
          let (st', e, k) = >>=-eq-ok (selector_step inner) _ (rw (d, b, u) at h) in
          let lead : c ≡ open_bracket = ground arith in
          let same : tail ≡ rest = ground arith in
          rw (lead, shape, same)
            (Spells-head (ground arith) (selector_step-Spells inner rest e a r))
    ]
    | inr b ↦ cc (rw (d, b) at h)
  ]
]

steps_of_sound : (f : ℕ) (s : Bytes) {ss : List PathStep} → steps_of f s ≡ ok ss → Spells ss s
unfolding steps_of
steps_of_sound f [] h = let e : [] ≡ _ = ground arith in subst (λ x. Spells x []) e done
steps_of_sound zero (c ∷ s) h = cc
steps_of_sound (suc f) (c ∷ s) h =
    let ((st, rest), e, k) = >>=-eq-ok (next_step c s) _ h in
    let (ss', e', k') = >>=-eq-ok (steps_of f rest) _ k in
    subst (λ x. Spells x (c ∷ s)) (ground arith)
      (next_step-Spells c s rest e (steps_of_sound f rest e'))

next_step-shorter :
    (c : ℕ) (s rest : Bytes) {st : PathStep}
    → next_step c s ≡ ok (st, rest)
    → length rest ≤ length s
unfolding next_step
next_step-shorter c [] rest h = ground arith
next_step-shorter c (d ∷ s) rest h = elim (Bool-cases (c == dot)) [
  | inl q ↦
      let (e, _) = member_lem (d ∷ s) in
      let same : (member (d ∷ s)).1 ≡ rest = ground arith in
      let sizes = ap length e ∙ length-append (member (d ∷ s)).0 (member (d ∷ s)).1 in
      rw (← same) (omega (arith, sizes))
  | inr q ↦ elim (Option-cases (bracket (d ∷ s))) [
    | inl u ↦ ground arith
    | inr ((inner, tail), u) ↦
        let (e, _) = bracket_lem (d ∷ s) inner tail u in
        let same : tail ≡ rest = ground arith in
        let sizes = ap length e ∙ length-append inner (close_bracket ∷ tail) in
        rw (← same) (omega (arith, sizes))
  ]
]

index_of-ne-fuel : (inner : Bytes) (o : Option ℤ) → index_of inner o ≢ err out_of_fuel
unfolding index_of
index_of-ne-fuel inner (some (pos n)) h = cc
index_of-ne-fuel inner (some (negsuc n)) h = cc
index_of-ne-fuel inner none h = cc

selector_step-ne-fuel : (inner : Bytes) → selector_step inner ≢ err out_of_fuel
unfolding selector_step quoted_step
selector_step-ne-fuel [] h = index_of-ne-fuel [] (atoi []) h
selector_step-ne-fuel (c ∷ i) h = elim (Bool-cases (c == quote)) [
  | inl q ↦ elim (Option-cases (unquote i)) [
    | inl u ↦ index_of-ne-fuel (c ∷ i) (atoi (c ∷ i)) (rw (q, u) at h)
    | inr (k, u) ↦ let h' = rw (q, u) at h in let no : ⊥ = ground arith in no
  ]
  | inr q ↦ index_of-ne-fuel (c ∷ i) (atoi (c ∷ i)) (rw q at h)
]

next_step-ne-fuel : (c : ℕ) (s : Bytes) → next_step c s ≢ err out_of_fuel
unfolding next_step
next_step-ne-fuel c [] h = ground arith
next_step-ne-fuel c (d ∷ s) h = elim (Option-cases (bracket (d ∷ s))) [
  | inl u ↦ ground arith
  | inr ((inner, tail), u) ↦ ground (arith, selector_step-ne-fuel inner)
]

steps_of-ne-fuel : (f : ℕ) (s : Bytes) → length s ≤ f → steps_of f s ≢ err out_of_fuel
unfolding steps_of
steps_of-ne-fuel f [] l h = cc
steps_of-ne-fuel zero (c ∷ s) l h = absurd (omega arith)
steps_of-ne-fuel (suc f) (c ∷ s) l h = elim (Result-cases (next_step c s)) [
  | inl ((st, rest), e) ↦
      let short : length rest ≤ f = omega (arith, next_step-shorter c s rest e) in
      elim (Result-cases (steps_of f rest)) [
        | inl (ss, k) ↦ cc (rw (e, k) at h)
        | inr (x, k) ↦ steps_of-ne-fuel f rest short (k ∙ cc (rw (e, k) at h))
      ]
  | inr (x, e) ↦ next_step-ne-fuel c s (e ∙ cc (rw e at h))
]

-- A path parses to these steps exactly when it is a dollar sign with a text behind it that spells
-- them; and whatever the path is, the loop of the parser comes to its end.
pub parse_path_iff :
    (p : Bytes) (ss : List PathStep)
    → ((parse_path p ≡ ok ss) ↔ ((s : Bytes) × (p ≡ b'$' ∷ s) × Spells ss s))
      × (parse_path p ≢ err out_of_fuel)
unfolding parse_path
parse_path_iff [] ss = ((λ h. cc, λ (s, e, sp). cc), λ h. cc)
parse_path_iff (c ∷ p) ss = elim (Bool-cases (c == b'$')) [
  | inl d ↦
      let lead : c ≡ b'$' = ground arith in
      rw d (
        (
          λ h. (p, cc, steps_of_sound (length p) p h),
          λ (s, e, sp).
              steps_of-Spells (length p) p (subst (λ x. Spells ss x) (ground arith) sp)
                (omega arith),
        ),
        steps_of-ne-fuel (length p) p (omega arith),
      )
  | inr d ↦ rw d ((λ h. cc, λ (s, e, sp). absurd (ground arith)), λ h. cc)
]

-- ===== src/Jsonval/Path/Grammar.antt =====
-- A grammar of JSON paths, as a relation between steps and text.
use mathlib.Core.Logic.{inl, inr}
use postgrest_conformance.Base.{
  ℕ, Bool, true, false, not, ◌||◌, List, [], ◌∷◌, ◌++◌, some, ◌≡◌, ◌≢◌, refl, arith, ◌==◌, any, all,
  Option-cases,
}
use postgrest_conformance.Base.Text.{Bytes}
use postgrest_conformance.Base.Decimal.{atoi}
use postgrest_conformance.Base.Int.{pos}
use postgrest_conformance.Jsonval.Path.{
  PathStep, key, idx, dot, open_bracket, close_bracket, quote, backslash, member, bracket, unquote,
}

abbrev pub in_name : ℕ → Bool
in_name c = not (c == dot || c == open_bracket)

abbrev pub in_bracket : ℕ → Bool
in_bracket c = not (c == close_bracket)

abbrev pub is_escape : ℕ → Bool
is_escape c = c == quote || c == backslash

-- The text spells the steps, one behind the other: `.name`, `['name']` or `[number]`.
pub data Spells : List PathStep → Bytes → Type 0 where
  done : Spells [] []
  dotted :
      (name rest : Bytes) {ss : List PathStep} {s : Bytes}
      → name ≢ []
      → all in_name name ≡ true
      → Spells ss rest
      → s ≡ dot ∷ (name ++ rest)
      → Spells (key name ∷ ss) s
  quoted :
      (k rest : Bytes) {ss : List PathStep} {s : Bytes}
      → any is_escape k ≡ false
      → all in_bracket k ≡ true
      → Spells ss rest
      → s ≡ open_bracket ∷ (quote ∷ (k ++ quote ∷ []) ++ close_bracket ∷ rest)
      → Spells (key k ∷ ss) s
  indexed :
      (digits rest : Bytes) (n : ℕ) {ss : List PathStep} {s : Bytes}
      → atoi digits ≡ some (pos n)
      → all in_bracket digits ≡ true
      → Spells ss rest
      → s ≡ open_bracket ∷ (digits ++ close_bracket ∷ rest)
      → Spells (idx n ∷ ss) s

pub member_lem :
    (s : Bytes) → (s ≡ (member s).0 ++ (member s).1) × (all in_name (member s).0 ≡ true)
unfolding member
member_lem [] = (refl, refl)
member_lem (c ∷ s) = let (e, a) = member_lem s in (ground arith, ground arith)

abbrev pub Ends : Bytes → Type 0
Ends [] = Unit
Ends (c ∷ s) = in_name c ≡ false

pub Spells-Ends : {ss : List PathStep} (s : Bytes) → Spells ss s → Ends s
Spells-Ends [] h = tt
Spells-Ends (c ∷ s) (dotted name rest _ _ _ e) = ground arith
Spells-Ends (c ∷ s) (quoted k rest _ _ _ e) = ground arith
Spells-Ends (c ∷ s) (indexed d rest n _ _ _ e) = ground arith

pub member-append :
    (name rest : Bytes) → all in_name name ≡ true → Ends rest → member (name ++ rest) ≡ (name, rest)
unfolding member
member-append [] [] a e = refl
member-append [] (c ∷ rest) a e = ground arith
member-append (c ∷ name) rest a e = ground (arith, member-append name rest)

pub bracket_lem :
    (s inner rest : Bytes)
    → bracket s ≡ some (inner, rest)
    → (s ≡ inner ++ close_bracket ∷ rest) × (all in_bracket inner ≡ true)
unfolding bracket
bracket_lem [] inner rest h = cc
bracket_lem (c ∷ s) inner rest h = elim (Option-cases (bracket s)) [
  | inl e ↦ ground arith
  | inr ((i, r), e) ↦ let f = bracket_lem s i r e in (ground arith, ground arith)
]

pub bracket-append :
    (inner rest : Bytes)
    → all in_bracket inner ≡ true
    → bracket (inner ++ close_bracket ∷ rest) ≡ some (inner, rest)
unfolding bracket
bracket-append [] rest a = refl
bracket-append (c ∷ inner) rest a = ground (arith, bracket-append inner rest)

pub unquote_lem : (s k : Bytes) → unquote s ≡ some k → s ≡ k ++ quote ∷ []
unfolding unquote
unquote_lem [] k h = cc
unquote_lem (c ∷ []) k h = ground arith
unquote_lem (c ∷ d ∷ s) k h = elim (Option-cases (unquote (d ∷ s))) [
  | inl e ↦ ground arith
  | inr (j, e) ↦ let f = unquote_lem (d ∷ s) j e in ground arith
]

pub unquote-append : (k : Bytes) → unquote (k ++ quote ∷ []) ≡ some k
unfolding unquote
unquote-append [] = refl
unquote-append (c ∷ []) = refl
unquote-append (c ∷ d ∷ k) = rw (unquote-append (d ∷ k), unquote)

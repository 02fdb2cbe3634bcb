-- ===== src/Assert/Processes.antt =====
-- The checks of assert.go on a process, and what each asks for.
use postgrest_conformance.Base.{
  Bool, true, false, [], ◌∷◌, Option, none, some, ◌≡◌, refl, sym, ap, ◌↔◌, inl, inr, Bool-cases,
  subst, if◌then◌else◌,
}
use postgrest_conformance.Base.Text.{Bytes, codes, str_eq, str_eq_iff}
use postgrest_conformance.Base.Int.{ℤ, pos, int_eq, int_eq_iff}
use postgrest_conformance.Value.{
  Value, null, bool, int, int64, uint64, float64, string, number, array, object, any_map, other,
  Golib,
}
use postgrest_conformance.Assert.{CliResult, Failure, to_int}
use postgrest_conformance.Assert.Commands.{
  exit_equals, check_exit_code, check_substrings, redump_equals, check_dump_reparse_stable,
}
use postgrest_conformance.Assert.Semantics.{if_iff, ↔-trans, check_substrings_iff}
use postgrest_conformance.Assert.Texts.{
  texts_of, to_string_list-texts, whole, refused, same_text_iff, ContainsAll,
}

pub output_contains_iff :
    (go : Golib) (key output : Bytes) (v : Value)
    → (check_substrings go key output v ≡ []) ↔ ContainsAll output (texts_of go v)
output_contains_iff go key output v =
    subst (λ ss. (check_substrings go key output v ≡ []) ↔ ContainsAll output ss)
      (to_string_list-texts go v)
      (check_substrings_iff go
        (record {
          status_code = pos 0;
          reason = [];
          header = [];
          body = [];
          content_length = pos 0;
        })
        key output v).1

abbrev pub ExitAsk : Golib → CliResult → Value → Type 0
ExitAsk go r (string s) = (s ≡ codes "nonzero") × (int_eq r.exit_code (pos 0) ≡ false)
ExitAsk go r v = whole go v ≡ some r.exit_code

pub exit_equals_iff : (got : ℤ) (o : Option ℤ) → (exit_equals got o ≡ []) ↔ (o ≡ some got)
unfolding exit_equals
exit_equals_iff got none = (λ h. cc, λ h. cc)
exit_equals_iff got (some want) = (
  λ h. ap some (sym ((int_eq_iff got want).0 ((if_iff (int_eq got want) _).0 h))),
  λ h. (if_iff (int_eq got want) _).1 ((int_eq_iff got want).1 (cc h)),
)

pub nonzero_iff :
    (s : Bytes) (zero' : Bool) (f g : Failure)
    → ((if str_eq s (codes "nonzero") then (if zero' then f ∷ [] else []) else g ∷ []) ≡ [])
      ↔ ((s ≡ codes "nonzero") × (zero' ≡ false))
nonzero_iff s zero' f g = elim (Bool-cases (str_eq s (codes "nonzero"))) [
  | inl same ↦
      rw same (λ h. ((str_eq_iff s (codes "nonzero")).0 same, by_code zero' h), λ h. rw (h.1) refl)
  | inr differs ↦ rw differs (λ h. cc, λ h. let yes' = (str_eq_iff s (codes "nonzero")).1 h.0 in cc)
]
  where
    by_code : (b : Bool) → (if b then f ∷ [] else []) ≡ [] → b ≡ false
    by_code true h = cc
    by_code false h = refl

pub exit_code_iff :
    (go : Golib) (r : CliResult) (v : Value) → (check_exit_code go r v ≡ []) ↔ ExitAsk go r v
unfolding check_exit_code to_int
exit_code_iff go r (string s) = nonzero_iff s (int_eq r.exit_code (pos 0)) _ _
exit_code_iff go r null = exit_equals_iff r.exit_code _
exit_code_iff go r (bool b) = exit_equals_iff r.exit_code _
exit_code_iff go r (int n) = exit_equals_iff r.exit_code _
exit_code_iff go r (int64 n) = exit_equals_iff r.exit_code _
exit_code_iff go r (uint64 n) = exit_equals_iff r.exit_code _
exit_code_iff go r (float64 n) = exit_equals_iff r.exit_code _
exit_code_iff go r (number t) = exit_equals_iff r.exit_code _
exit_code_iff go r (array vs) = exit_equals_iff r.exit_code _
exit_code_iff go r (object m) = exit_equals_iff r.exit_code _
exit_code_iff go r (any_map ps) = exit_equals_iff r.exit_code _
exit_code_iff go r (other t) = exit_equals_iff r.exit_code _

abbrev pub ReparseAsk : CliResult → Value → Type 0
ReparseAsk r (bool true) = r.redump ≡ some r.stdout
ReparseAsk r (bool false) = Unit
ReparseAsk r _ = ⊥

pub redump_equals_iff :
    (out : Bytes) (o : Option Bytes) → (redump_equals out o ≡ []) ↔ (o ≡ some out)
unfolding redump_equals
redump_equals_iff out none = (λ h. cc, λ h. cc)
redump_equals_iff out (some again) =
    ↔-trans (same_text_iff out again _) (λ h. ap some (sym h), λ h. cc h)

pub reparse_iff :
    (r : CliResult) (v : Value) → (check_dump_reparse_stable r v ≡ []) ↔ ReparseAsk r v
unfolding check_dump_reparse_stable
reparse_iff r (bool true) = redump_equals_iff r.stdout r.redump
reparse_iff r (bool false) = (λ _. tt, λ _. refl)
reparse_iff r null = refused _
reparse_iff r (int n) = refused _
reparse_iff r (int64 n) = refused _
reparse_iff r (uint64 n) = refused _
reparse_iff r (float64 n) = refused _
reparse_iff r (string s) = refused _
reparse_iff r (number t) = refused _
reparse_iff r (array vs) = refused _
reparse_iff r (object m) = refused _
reparse_iff r (any_map ps) = refused _
reparse_iff r (other t) = refused _

-- ===== src/System/Scripts.antt =====
-- Sequences of psql calls, as they end: every call made and none failed, or all up to the first that
-- failed.
use postgrest_conformance.Base.{List, [], ◌∷◌, Option, none, some, ◌≡◌, refl, ◌⊎◌, inl, inr}
use postgrest_conformance.Base.Text.{Bytes}
use postgrest_conformance.Base.Result.{Result, ok, err}
use postgrest_conformance.System.{
  History, PsqlCall, Os, Failure, Act, psql_failed, call_psql, ◌>>>◌, run_psql,
}

-- How calls that are made in order, from a history on, end: with an answer and a history.
unfoldable pub Ran : Os → List PsqlCall → History → Result Failure (Unit {0}) × History → Type 0
Ran os [] h end = end ≡ (ok tt, h)
Ran os (c ∷ cs) h end =
    ((e : Bytes) × (os.psql_error h c ≡ some e) × (end ≡ (err (psql_failed e), call_psql c ∷ h)))
    ⊎ ((os.psql_error h c ≡ none) × Ran os cs (call_psql c ∷ h) end)

pub Option-cases : (o : Option Bytes) → ((e : Bytes) × (o ≡ some e)) ⊎ (o ≡ none)
Option-cases none = inr refl
Option-cases (some e) = inl (e, refl)

module _ (os : Os) where
  -- One call in front of others.
  pub Ran-run_psql :
      (c : PsqlCall) (cs : List PsqlCall) (rest : Act (Unit {0}))
      → ((h : History) → Ran os cs h (rest h))
      → (h : History) → Ran os (c ∷ cs) h ((run_psql os c >>> rest) h)
  unfolding ◌>>>◌ run_psql Ran
  Ran-run_psql c cs rest later h = elim (Option-cases (os.psql_error h c)) [
    | inl (e, failed) ↦ inl (e, failed, rw failed refl)
    | inr passed ↦ inr (passed, rw passed (later (call_psql c ∷ h)))
  ]

  -- The last call.
  pub Ran-last : (c : PsqlCall) (h : History) → Ran os (c ∷ []) h (run_psql os c h)
  unfolding run_psql Ran
  Ran-last c h = elim (Option-cases (os.psql_error h c)) [
    | inl (e, failed) ↦ inl (e, failed, rw failed refl)
    | inr passed ↦ inr (passed, rw passed refl)
  ]

  -- No call.
  pub Ran-none : (h : History) → Ran os [] h (ok tt, h)
  unfolding Ran
  Ran-none h = refl

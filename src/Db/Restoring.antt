-- ===== src/Db/Restoring.antt =====
-- Lemmas on putting sequences back, and on the names of databases.
use postgrest_conformance.Base.{
  ℕ, [], all, leb, arith, ◌==◌, Bool, true, false, not, ◌∷◌, Option, none, some, if◌then◌else◌, ◌≡◌,
  refl, inl, inr, ◌∙◌, Bool-cases, length, is_empty, ◌⊎◌, ◌||◌, ◌&&◌,
}
use postgrest_conformance.Base.Text.{Bytes}
use postgrest_conformance.Base.Int.{ℤ, pos, int_eq}
use postgrest_conformance.Base.Decimal.{atoi}
use postgrest_conformance.Base.Result.{Result, ok, err, is_ok}
use postgrest_conformance.System.{
  PsqlCall, Os, History, invalid_dbname, call_psql, ◌>>>=◌, ◌>>>◌, query_psql,
}
use postgrest_conformance.Db.{restore_sql}
use postgrest_conformance.Db.Server.{PgEnv, is_name_byte, validate_dbname, setup, teardown}
use postgrest_conformance.Db.Baselines.{
  SequenceBaseline, Codec, trim_newlines, oid_sql, query_call, psql_query, check_oid, check_count,
  put_back, restore_sequences, capture_sequences,
}

-- The OID that a query answered is the one asked for.
unfoldable pub is_oid : ℤ → Result Bytes Bytes → Bool
is_oid oid (err e) = false
is_oid oid (ok out) = elim (atoi (trim_newlines out)) [ none ↦ false | some live ↦ int_eq live oid ]

abbrev pub oid_call : Os → PgEnv → SequenceBaseline → PsqlCall
oid_call os p b = query_call os p b.database oid_sql

abbrev pub set_call : Os → Codec → PgEnv → SequenceBaseline → PsqlCall
set_call os codec p b = query_call os p b.database (restore_sql (codec.write_states b.sequences))

module _ (os : Os) (codec : Codec) (p : PgEnv) (b : SequenceBaseline) where
  -- The statement is answered with the number of the sequences.
  unfoldable pub are_set : History → Bool
  are_set h =
      is_empty b.sequences
      || is_oid (pos (length b.sequences)) (os.query_answer h (set_call os codec p b))

  Answer-cases {ℓ} :
      {A : Type ℓ} (m : Result Bytes A) → ((a : A) × (m ≡ ok a)) ⊎ ((e : Bytes) × (m ≡ err e))
  Answer-cases (ok a) = inl (a, refl)
  Answer-cases (err e) = inr (e, refl)

  is_ok-check_count :
      (out : Bytes) (o : Option ℤ) (h : History)
      → (is_ok (check_count os codec b out o h).0
          ≡ elim o [ none ↦ false | some n ↦ int_eq n (pos (length b.sequences)) ])
        × ((check_count os codec b out o h).1 ≡ h)
  unfolding check_count
  is_ok-check_count out none h = (refl, refl)
  is_ok-check_count out (some n) h = elim (Bool-cases (int_eq n (pos (length b.sequences)))) [
    | inl same ↦ (rw same refl, rw same refl)
    | inr differs ↦ (rw differs refl, rw differs refl)
  ]

  put_back_lem :
      (h : History)
      → (is_ok (put_back os codec p b h).0 ≡ are_set h)
        × ((put_back os codec p b h).1
            ≡ (if is_empty b.sequences then h else call_psql (set_call os codec p b) ∷ h))
  unfolding put_back are_set psql_query query_psql ◌>>>=◌ is_oid
  put_back_lem h = elim (Bool-cases (is_empty b.sequences)) [
    | inl empty ↦ (rw empty refl, rw empty refl)
    | inr left ↦ elim (Answer-cases (os.query_answer h (set_call os codec p b))) [
      | inl (out, answered) ↦
          let k =
            is_ok-check_count (trim_newlines out) (atoi (trim_newlines out))
              (call_psql (set_call os codec p b) ∷ h) in
          (rw (left, answered) k.0, rw (left, answered) k.1)
      | inr (e, failed) ↦ (rw (left, failed) refl, rw (left, failed) refl)
    ]
  ]

  flip {ℓ} : {A : Type ℓ} (t : Bool) (x y : A) → (if t then x else y) ≡ (if not t then y else x)
  flip true x y = refl
  flip false x y = refl

  finish :
      (out : Bytes) (o : Option ℤ) (h : History) (live : Bool)
      → (elim o [ none ↦ false | some n ↦ int_eq n b.database_oid ]) ≡ live
      → (is_ok ((check_oid os codec b out o >>> put_back os codec p b) h).0 ≡ (live && are_set h))
        × (((check_oid os codec b out o >>> put_back os codec p b) h).1 ≡ (
            if live && not (is_empty b.sequences)
            then call_psql (set_call os codec p b) ∷ h
            else h))
  unfolding check_oid ◌>>>◌
  finish out none h true e = cc
  finish out none h false e = (refl, refl)
  finish out (some n) h true e =
      (rw e (put_back_lem h).0, rw e ((put_back_lem h).1 ∙ flip (is_empty b.sequences) _ _))
  finish out (some n) h false e = (rw e refl, rw e refl)

  -- With a valid name, `RestoreSequences` first asks for the OID of the live database. It sends the
  -- statement that sets the sequences just when the answer is the recorded OID and there are sequences,
  -- and sends nothing else; it ends without an error just when the OID was right and the statement,
  -- where there are sequences, was answered with their number.
  pub restore_sequences_lem :
      (h : History)
      → validate_dbname b.database ≡ true
      → let live = is_oid b.database_oid (os.query_answer h (oid_call os p b)) in
        let asked = call_psql (oid_call os p b) ∷ h in
        (is_ok (restore_sequences os codec p b h).0 ≡ (live && are_set asked))
        × ((restore_sequences os codec p b h).1 ≡ (
            if live && not (is_empty b.sequences)
            then call_psql (set_call os codec p b) ∷ asked
            else asked))
  unfolding restore_sequences psql_query query_psql ◌>>>=◌ is_oid
  restore_sequences_lem h valid = elim (Answer-cases (os.query_answer h (oid_call os p b))) [
    | inl (out, answered) ↦
        let k =
          finish (trim_newlines out) (atoi (trim_newlines out)) (call_psql (oid_call os p b) ∷ h) _
            refl in
        (rw (valid, answered) k.0, rw (valid, answered) k.1)
    | inr (e, failed) ↦ (rw (valid, failed) refl, rw (valid, failed) refl)
  ]

-- A byte of a bare identifier: a digit, a capital, an underscore or a small letter.
abbrev pub is_bare_byte : ℕ → Bool
is_bare_byte c =
    (leb 48 c && leb c 57) || (leb 65 c && leb c 90) || c == 95 || (leb 97 c && leb c 122)

abbrev pub is_bare : Bytes → Bool
is_bare name = not (is_empty name) && all is_bare_byte name

all-same : (p q : ℕ → Bool) (l : Bytes) → ((c : ℕ) → p c ≡ q c) → all p l ≡ all q l
all-same p q [] h = refl
all-same p q (c ∷ l) h = rw (h c, all-same p q l h) refl

validate_dbname-bare : (name : Bytes) → validate_dbname name ≡ is_bare name
unfolding validate_dbname
validate_dbname-bare name = rw (all-same is_name_byte is_bare_byte name (λ c. ground arith)) refl

-- With a name that is empty or has a byte other than an ASCII letter, a digit or an underscore, none of
-- `Setup`, `Teardown`, `CaptureSequences` and `RestoreSequences` does anything: each ends with the
-- error of the name.
pub invalid_dbname_lem :
    (os : Os) (codec : Codec) (p : PgEnv) (b : SequenceBaseline) (dir : Bytes) (h : History)
    → is_bare b.database ≡ false
    → (setup os p b.database dir h ≡ (err invalid_dbname, h))
      × (teardown os p b.database h ≡ (err invalid_dbname, h))
      × (capture_sequences os codec p b.database h ≡ (err invalid_dbname, h))
      × (restore_sequences os codec p b h ≡ (err invalid_dbname, h))
unfolding setup teardown capture_sequences restore_sequences
invalid_dbname_lem os codec p b dir h bad =
    rw (validate_dbname-bare b.database, bad) (refl, refl, refl, refl)

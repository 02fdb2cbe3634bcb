-- ===== src/Validate/CliShape/Reading.antt =====
-- Lemmas on the reading of the documents that claims are about.
use postgrest_conformance.Base.{
  Bool, true, List, [], ◌∷◌, none, some, ◌≡◌, refl, ◌∙◌, all, Bool-cases, inl, inr, Option-cases,
  sym, and_true, ap, All,
}
use postgrest_conformance.Base.Text.{Bytes, str_eq, str_eq_refl, str_eq_iff}
use postgrest_conformance.Base.Assoc.{Assoc, lookup, insert, lookup-insert}
use postgrest_conformance.Base.Result.{Result, ok, err, is_ok}
use postgrest_conformance.Validate.CliShape.{CliClaim, text_of, read_doc, read_docs}

abbrev pub text_read : Result Bytes Bytes → Bytes
text_read (ok t) = t
text_read (err e) = []

-- The texts that are known of documents are those that they are read as.
abbrev Known : (Bytes → Result Bytes Bytes) → Assoc Bytes → Type 0
Known read texts = (doc t : Bytes) → lookup doc texts ≡ some t → read doc ≡ ok t

-- What is known of the documents of claims once the first loop has read them.
abbrev Reads :
    (Bytes → Result Bytes Bytes) → List CliClaim → Assoc Bytes → Result Bytes (Assoc Bytes) → Type 0
Reads read claims texts r =
    (out : Assoc Bytes) × (r ≡ ok out)
    × ((doc t : Bytes) → lookup doc texts ≡ some t → lookup doc out ≡ some t)
    × All (λ c. text_of (lookup c.doc out) ≡ text_read (read c.doc)) claims

abbrev pub is_read : (Bytes → Result Bytes Bytes) → CliClaim → Bool
is_read read c = is_ok (read c.doc)

insert-Known :
    (read : Bytes → Result Bytes Bytes) (doc t : Bytes) (texts : Assoc Bytes)
    → read doc ≡ ok t
    → Known read texts
    → Known read (insert doc t texts)
insert-Known read doc t texts r known j u there = elim (Bool-cases (str_eq doc j)) [
  | inl same ↦
      let e = rw (lookup-insert doc j t texts, same) at there in
      let doc_is : doc ≡ j = (str_eq_iff doc j).0 same in rw (← doc_is) (r ∙ cc e)
  | inr other ↦ known j u (rw (lookup-insert doc j t texts, other) at there)
]

insert-keeps :
    (doc t : Bytes) (texts : Assoc Bytes)
    → lookup doc texts ≡ none
    → (j u : Bytes) → lookup j texts ≡ some u
    → lookup j (insert doc t texts) ≡ some u
insert-keeps doc t texts fresh j u there = elim (Bool-cases (str_eq doc j)) [
  | inl same ↦ let e = rw ((str_eq_iff doc j).0 same) at fresh in cc
  | inr other ↦ lookup-insert doc j t texts ∙ rw other there
]

ok-cases : (r : Result Bytes Bytes) → is_ok r ≡ true → (t : Bytes) × (r ≡ ok t)
ok-cases (ok t) h = (t, refl)
ok-cases (err e) h = cc

read_doc_lem :
    (read : Bytes → Result Bytes Bytes) (doc : Bytes) (texts : Assoc Bytes)
    → Known read texts
    → is_ok (read doc) ≡ true
    → (more : Assoc Bytes) × (read_doc read doc texts (lookup doc texts) ≡ ok more)
      × Known read more
      × (lookup doc more ≡ some (text_read (read doc)))
      × ((j t : Bytes) → lookup j texts ≡ some t → lookup j more ≡ some t)
read_doc_lem read doc texts known fine = elim (Option-cases (lookup doc texts)) [
  | inr (t, e) ↦ (
    texts,
    rw e refl,
    known,
    e ∙ ap (λ r. some (text_read r)) (sym (known doc t e)),
    λ j u there. there,
  )
  | inl e ↦
      let (t, r) = ok-cases (read doc) fine in
      (
        insert doc t texts,
        rw (e, r) refl,
        insert-Known read doc t texts r known,
        lookup-insert doc doc t texts ∙ rw (str_eq_refl doc) (ap (λ a. some (text_read a)) (sym r)),
        insert-keeps doc t texts e,
      )
]

pub read_docs-Reads :
    (read : Bytes → Result Bytes Bytes) (claims : List CliClaim) (texts : Assoc Bytes)
    → Known read texts
    → all (is_read read) claims ≡ true
    → Reads read claims texts (read_docs read claims texts)
unfolding read_docs
read_docs-Reads read [] texts known fine = (texts, refl, λ doc t there. there, tt)
read_docs-Reads read (c ∷ cs) texts known fine =
    let (mine, later) = and_true (is_read read c) (all (is_read read) cs) fine in
    let (more, reads, known', here, keeps) = read_doc_lem read c.doc texts known mine in
    let (out, rest, keeps', others) = read_docs-Reads read cs more known' later in
    (
      out,
      rw reads rest,
      λ doc t there. keeps' doc t (keeps doc t there),
      (ap text_of (keeps' c.doc (text_read (read c.doc)) here), others),
    )

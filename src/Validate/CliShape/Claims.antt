-- ===== src/Validate/CliShape/Claims.antt =====
-- Lemmas on the documents' claims about the cases of the command line.
use postgrest_conformance.Base.{
  Bool, true, false, ◌&&◌, List, [], ◌∷◌, ◌++◌, Option, none, some, ◌≡◌, refl, ◌∙◌, if◌then◌else◌,
  is_empty, length, all, arith, Bool-cases, inl, inr, Option-cases, All, not, ◌||◌, ltb, ◌-◌, ◌^◌,
}
use postgrest_conformance.Base.Text.{Bytes, codes, str_eq, trim_space, join}
use postgrest_conformance.Base.Assoc.{Assoc, lookup, lookup-nil}
use postgrest_conformance.Base.Int.{ℤ, pos, int_le, int_eq}
use postgrest_conformance.Base.Decimal.{atoi}
use postgrest_conformance.Base.Sort.{sort, insert_sorted}
use postgrest_conformance.Base.Result.{Result, ok, err}
use postgrest_conformance.Run.{int_in}
use postgrest_conformance.Validate.CliShape.{
  CliClaim, CliFacts, Finding, flag_groups, parse_cli_band, find_nums, clamped, band_pieces,
  lacking, part, omits, names_others, set_diff, is_number, or_zero, verify_flag, verify_group,
  verify, checked, text_of, check_claims, check_cli_shape,
}
use postgrest_conformance.Validate.CliShape.Reading.{text_read, is_read, read_docs-Reads}

-- Two lists of ids with the same members.
abbrev pub same_ids : List ℤ → List ℤ → Bool
same_ids ns ms = all (λ n. int_in n ms) ns && all (λ m. int_in m ns) ms

is_empty-insert_sorted : (n : ℤ) (ns : List ℤ) → is_empty (insert_sorted int_le n ns) ≡ false
unfolding insert_sorted
is_empty-insert_sorted n [] = refl
is_empty-insert_sorted n (m ∷ ns) = elim (Bool-cases (int_le n m)) [
  | inl low ↦ rw low refl
  | inr high ↦ rw high refl
]

is_empty-lacking : (ns ms : List ℤ) → is_empty (lacking ns ms) ≡ all (λ n. int_in n ms) ns
unfolding lacking sort
is_empty-lacking [] ms = refl
is_empty-lacking (n ∷ ns) ms = elim (Bool-cases (int_in n ms)) [
  | inl there ↦ rw there (is_empty-lacking ns ms)
  | inr absent ↦ rw absent (is_empty-insert_sorted n _)
]

is_empty-parts :
    (ns ms : List ℤ)
    → is_empty (join (part omits ns ++ part names_others ms) (codes "; "))
      ≡ (is_empty ns && is_empty ms)
unfolding join
is_empty-parts [] [] = refl
is_empty-parts [] (m ∷ ms) = refl
is_empty-parts (n ∷ ns) [] = refl
is_empty-parts (n ∷ ns) (m ∷ ms) = refl

and_comm : (a b : Bool) → (a && b) ≡ (b && a)
and_comm a b = ground arith

-- No difference is described just when the two sets are one.
set_diff-same :
    (claimed actual : List ℤ) → is_empty (set_diff claimed actual) ≡ same_ids claimed actual
unfolding set_diff
set_diff-same claimed actual =
    is_empty-parts (lacking actual claimed) (lacking claimed actual)
    ∙ rw (is_empty-lacking actual claimed, is_empty-lacking claimed actual)
        (and_comm (all (λ n. int_in n claimed) actual) (all (λ n. int_in n actual) claimed))

-- A text that is a number, the one wanted.
abbrev pub says : Option ℤ → ℤ → Bool
says none want = false
says (some n) want = int_eq n want

is_number-says : (got : Bytes) (want : ℤ) → is_number got want ≡ says (atoi got) want
unfolding is_number
is_number-says got want = elim (Option-cases (atoi got)) [
  | inl e ↦ rw e refl
  | inr (n, e) ↦ rw e refl
]

-- The number of the cases with a flag.
abbrev pub with_flag : CliFacts → Bytes → ℤ
with_flag facts flag = or_zero (lookup flag facts.flags)

-- What a group of another name than the two for all cases says is right: the number of the cases with the
-- flag that the group is named for, if it is one of the three.
abbrev pub flag_right : CliFacts → Bytes → Bytes → Bool
flag_right facts got name =
    if str_eq (codes "dumpconfig") name
    then says (atoi got) (with_flag facts (codes "--dump-config"))
    else if str_eq (codes "ready") name
    then says (atoi got) (with_flag facts (codes "--ready"))
    else if str_eq (codes "example") name
    then says (atoi got) (with_flag facts (codes "--example"))
    else true

-- What a group of a claim says is right: the number of the cases, their ids, or the number of those
-- with a flag; other groups say nothing.
abbrev pub group_right : CliFacts → Bytes × Bytes → Bool
group_right facts (name, text) =
    if is_empty name
    then true
    else if str_eq name (codes "count")
    then says (atoi (trim_space text)) (pos (length facts.ids))
    else if str_eq name (codes "ids")
    then same_ids (parse_cli_band (trim_space text)) facts.ids
    else flag_right facts (trim_space text) name

abbrev found_right : CliFacts → Option (List (Bytes × Bytes)) → Bool
found_right facts none = false
found_right facts (some groups) = all (group_right facts) groups

-- A claim that is found in its document, and right in each group.
abbrev pub claim_right : (Bytes → Result Bytes Bytes) → CliFacts → CliClaim → Bool
claim_right read facts c = found_right facts (c.re (text_read (read c.doc)))

pub is_empty-if {ℓ} : {A : Type ℓ} (t : Bool) (x : A) → is_empty (if t then [] else x ∷ []) ≡ t
is_empty-if true x = refl
is_empty-if false x = refl

pub is_empty-append {ℓ} :
    {A : Type ℓ} (xs ys : List A) → is_empty (xs ++ ys) ≡ (is_empty xs && is_empty ys)
is_empty-append [] ys = refl
is_empty-append (x ∷ xs) ys = refl

verify_flag-says :
    (c : CliClaim) (facts : CliFacts) (got flag : Bytes)
    → is_empty (verify_flag c facts got (some flag)) ≡ says (atoi got) (with_flag facts flag)
verify_flag-says c facts got flag =
    is_empty-if (is_number got (with_flag facts flag)) _ ∙ is_number-says got (with_flag facts flag)

verify_flag-right :
    (c : CliClaim) (facts : CliFacts) (got name : Bytes)
    → is_empty (verify_flag c facts got (lookup name flag_groups)) ≡ flag_right facts got name
unfolding lookup
verify_flag-right c facts got name = elim (Bool-cases (str_eq (codes "dumpconfig") name)) [
  | inl dump ↦ rw dump (verify_flag-says c facts got (codes "--dump-config"))
  | inr other ↦ elim (Bool-cases (str_eq (codes "ready") name)) [
    | inl ready ↦ rw (other, ready) (verify_flag-says c facts got (codes "--ready"))
    | inr more ↦ elim (Bool-cases (str_eq (codes "example") name)) [
      | inl example ↦ rw (other, more, example) (verify_flag-says c facts got (codes "--example"))
      | inr unknown ↦ rw (other, more, unknown) refl
    ]
  ]
]

verify_group-right :
    (c : CliClaim) (facts : CliFacts) (name text : Bytes)
    → is_empty (if is_empty name then [] else verify_group c facts name (trim_space text))
      ≡ group_right facts (name, text)
unfolding verify_group
verify_group-right c facts name text = elim (Bool-cases (is_empty name)) [
  | inl plain ↦ rw plain refl
  | inr named ↦ elim (Bool-cases (str_eq name (codes "count"))) [
    | inl count ↦
        rw (named, count)
          (is_empty-if (is_number (trim_space text) (pos (length facts.ids))) _
            ∙ is_number-says (trim_space text) (pos (length facts.ids)))
    | inr other ↦ elim (Bool-cases (str_eq name (codes "ids"))) [
      | inl ids ↦
          rw (named, other, ids)
            (is_empty-if (is_empty (set_diff (parse_cli_band (trim_space text)) facts.ids)) _
              ∙ set_diff-same (parse_cli_band (trim_space text)) facts.ids)
      | inr flag ↦ rw (named, other, flag) (verify_flag-right c facts (trim_space text) name)
    ]
  ]
]

verify-right :
    (c : CliClaim) (facts : CliFacts) (groups : List (Bytes × Bytes))
    → is_empty (verify c facts groups) ≡ all (group_right facts) groups
unfolding verify
verify-right c facts [] = refl
verify-right c facts ((name, text) ∷ groups) =
    is_empty-append _ (verify c facts groups)
    ∙ rw (verify_group-right c facts name text, verify-right c facts groups) refl

checked-right :
    (c : CliClaim) (facts : CliFacts) (found : Option (List (Bytes × Bytes)))
    → is_empty (checked c facts found) ≡ found_right facts found
checked-right c facts none = refl
checked-right c facts (some groups) = verify-right c facts groups

check_claims-right :
    (read : Bytes → Result Bytes Bytes) (cs : List CliClaim) (facts : CliFacts)
    (texts : Assoc Bytes)
    → All (λ c. text_of (lookup c.doc texts) ≡ text_read (read c.doc)) cs
    → is_empty (check_claims cs facts texts) ≡ all (claim_right read facts) cs
unfolding check_claims
check_claims-right read [] facts texts h = refl
check_claims-right read (c ∷ cs) facts texts h =
    is_empty-append (checked c facts (c.re (text_of (lookup c.doc texts))))
      (check_claims cs facts texts)
    ∙ rw
        (
          checked-right c facts (c.re (text_of (lookup c.doc texts))),
          h.0,
          check_claims-right read cs facts texts h.1,
        )
        refl

abbrev pub reports_none : Result Bytes (List Finding) → Bool
reports_none (ok fs) = is_empty fs
reports_none (err e) = false

-- Every number in a band of a claim is below the largest int, at which the loop of `parseCLIBand` would
-- not end.
abbrev pub group_bounded : Bytes × Bytes → Bool
group_bounded (name, text) =
    not (str_eq name (codes "ids"))
    || all (λ p. all (λ n. ltb (clamped n) (2 ^ 63 - 1)) (find_nums false p))
        (band_pieces (trim_space text))

abbrev groups_bounded : Option (List (Bytes × Bytes)) → Bool
groups_bounded none = true
groups_bounded (some groups) = all group_bounded groups

abbrev pub claim_bounded : (Bytes → Result Bytes Bytes) → CliClaim → Bool
claim_bounded read c = groups_bounded (c.re (text_read (read c.doc)))

-- Where there are cases of the command line, every document of a claim can be read, and no band has a number
-- as large as the largest int, `checkCLIShape` reports nothing just when every claim is found in its
-- document and each of its groups is right: the number of the cases, the set of the ids that
-- `parseCLIBand` reads, and for dumpconfig, ready and example the number of the cases with the flag.
pub check_cli_shape_lem :
    (read : Bytes → Result Bytes Bytes) (claims : List CliClaim) (facts : CliFacts)
    → is_empty facts.ids ≡ false
    → all (is_read read) claims ≡ true
    → all (claim_bounded read) claims ≡ true
    → reports_none (check_cli_shape read claims facts) ≡ all (claim_right read facts) claims
unfolding check_cli_shape
check_cli_shape_lem read claims facts some_ids fine _ =
    let (texts, were_read, _, known) =
      read_docs-Reads read claims [] (λ doc t there. cc (there, lookup-nil {V = Bytes} doc)) fine in
    rw (some_ids, were_read) (check_claims-right read claims facts texts known)

-- ===== src/Run/Flags.antt =====
-- The filters of run.go as the command line gives them: `-cases` and `-areas`.
use postgrest_conformance.Base.{
  Bool, false, not, ◌&&◌, ◌||◌, List, [], ◌∷◌, Option, none, some, ◌≡◌, refl, if◌then◌else◌,
  is_empty, all, any, arith, Bool-cases, inl, inr, is_some, Option-cases, ◌∙◌,
}
use postgrest_conformance.Base.Text.{Bytes, trim_space, split_on, str_eq}
use postgrest_conformance.Base.Assoc.{mem}
use postgrest_conformance.Base.Int.{ℤ, int_eq}
use postgrest_conformance.Base.Decimal.{atoi}
use postgrest_conformance.Base.Result.{Result, ok, err, is_ok, ◌>>=◌}
use postgrest_conformance.Run.{RunError, invalid_id, int_in, wanted_id, wanted_area}

abbrev pub is_blank : Bytes → Bool
is_blank s = is_empty (trim_space s)

-- a number in front of the set, or the error of a piece that is none
abbrev pub add_id : Bytes → Option ℤ → List ℤ → Result RunError (List ℤ)
add_id part none ids = err (invalid_id part)
add_id part (some n) ids = ok (n ∷ ids)

-- the loop over the pieces, which stops at the first that is no number; `ids` are those before it
unfoldable pub add_ids : List Bytes → List ℤ → Result RunError (List ℤ)
unfolding trim_space atoi
add_ids [] ids = ok ids
add_ids (part ∷ parts) ids =
    if is_blank part
    then add_ids parts ids
    else (add_id (trim_space part) (atoi (trim_space part)) ids >>= λ more. add_ids parts more)

-- `parseIDSet`; the nil set is none
unfoldable pub parse_id_set : Bytes → Result RunError (Option (List ℤ))
unfolding add_ids split_on
parse_id_set s =
    if is_blank s then ok none else (add_ids (split_on b',' s) [] >>= λ ids. ok (some ids))

unfoldable pub add_names : List Bytes → List Bytes
unfolding trim_space
add_names [] = []
add_names (part ∷ parts) =
    if is_blank part then add_names parts else trim_space part ∷ add_names parts

-- `parseStringSet`
unfoldable pub parse_string_set : Bytes → Option (List Bytes)
unfolding add_names split_on
parse_string_set s = if is_blank s then none else some (add_names (split_on b',' s))

-- A piece that is blank, or reads as a number.
abbrev pub is_id_piece : Bytes → Bool
is_id_piece part = is_blank part || is_some (atoi (trim_space part))

abbrev pub reads_as : ℤ → Option ℤ → Bool
reads_as n none = false
reads_as n (some m) = int_eq m n

-- A piece that is not blank and reads as this number.
abbrev pub is_piece_of : ℤ → Bytes → Bool
is_piece_of n part = not (is_blank part) && reads_as n (atoi (trim_space part))

-- A piece that is not blank and is this name.
abbrev pub names : Bytes → Bytes → Bool
names a part = not (is_blank part) && str_eq (trim_space part) a

abbrev pub lists_id : Result RunError (Option (List ℤ)) → ℤ → Bool
lists_id (err e) n = false
lists_id (ok ids) n = wanted_id ids n

module _ (n : ℤ) where
  abbrev has : Result RunError (List ℤ) → Bool
  has (err e) = false
  has (ok ids) = int_in n ids

  has-add_ids :
      (parts : List Bytes) (ids : List ℤ)
      → (is_ok (add_ids parts ids) ≡ all is_id_piece parts)
        × (has (add_ids parts ids)
            ≡ (all is_id_piece parts && (int_in n ids || any (is_piece_of n) parts)))
  unfolding add_ids
  has-add_ids [] ids = (refl, ground arith)
  has-add_ids (part ∷ parts) ids = elim (Bool-cases (is_blank part)) [
    | inl blank ↦ rw blank (has-add_ids parts ids)
    | inr full ↦ elim (Option-cases (atoi (trim_space part))) [
      | inl bad ↦ rw (full, bad) (refl, refl)
      | inr (m, good) ↦
          let rest = has-add_ids parts (m ∷ ids) in
          rw (full, good) (rest.0, rest.1 ∙ unfold int_in in ground arith)
    ]
  ]

mem-add_names : (a : Bytes) (parts : List Bytes) → mem a (add_names parts) ≡ any (names a) parts
unfolding add_names
mem-add_names a [] = refl
mem-add_names a (part ∷ parts) = ground (arith, mem-add_names a parts)

wrapped :
    (n : ℤ) (r : Result RunError (List ℤ))
    → (is_ok (r >>= λ ids. ok (some ids)) ≡ is_ok r)
      × (lists_id (r >>= λ ids. ok (some ids)) n ≡ has n r)
wrapped n (ok ids) = (refl, refl)
wrapped n (err e) = (refl, refl)

-- The filters are read from their texts. `-cases` is refused just when the text is not blank and one
-- of its pieces between commas is neither blank nor a number; otherwise it admits every id if the text is
-- blank, and else those that a piece reads as. `-areas` admits every area if the text is blank, and
-- else those that are, without the white space around it, a piece.
pub parse_filters_lem :
    (s : Bytes) (n : ℤ) (a : Bytes)
    → (is_ok (parse_id_set s) ≡ (is_blank s || all is_id_piece (split_on b',' s)))
      × (lists_id (parse_id_set s) n ≡ (
          is_blank s
          || (all is_id_piece (split_on b',' s) && any (is_piece_of n) (split_on b',' s))))
      × (wanted_area (parse_string_set s) a ≡ (is_blank s || any (names a) (split_on b',' s)))
unfolding parse_id_set parse_string_set
parse_filters_lem s n a = elim (Bool-cases (is_blank s)) [
  | inl blank ↦ rw blank (refl, refl, refl)
  | inr full ↦
      let ids = add_ids (split_on b',' s) [] in
      let (same_ok, same_has) = wrapped n ids in
      let (oks, hass) = has-add_ids n (split_on b',' s) [] in
      rw full
        (same_ok ∙ oks, same_has ∙ hass ∙ unfold int_in in refl, mem-add_names a (split_on b',' s))
]

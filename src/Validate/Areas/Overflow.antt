-- ===== src/Validate/Areas/Overflow.antt =====
-- Lemmas on the note on areas that overflow.
use postgrest_conformance.Base.{
  map, Bool, true, false, ◌&&◌, List, [], ◌∷◌, ◌++◌, Option, none, some, ◌≡◌, refl, ◌∙◌, sym, ap,
  if◌then◌else◌, is_empty, length, keep, all, arith, Bool-cases, inl, inr, is_some,
}
use postgrest_conformance.Base.Text.{Bytes, str_le, str_eq, to_lower}
use postgrest_conformance.Base.Assoc.{Assoc, lookup, keys}
use postgrest_conformance.Base.Int.{ℤ, pos, int_eq, int_le, int_le_total, int_le_antisymm}
use postgrest_conformance.Base.Sort.{sort, sort_strings, insert_sorted}
use postgrest_conformance.Validate.CliShape.Claims.{is_empty-if, is_empty-append}
use postgrest_conformance.Validate.Areas.{
  IdRange, AreaClaim, Note, note_count, band_differs, check_band, check_wanted, check_over,
  check_named, check_overflow_note, wanted_areas, lowest_over, lower, put_area, number_word,
}

all-insert_sorted :
    (p : Bytes → Bool) (k : Bytes) (ks : List Bytes)
    → all p (insert_sorted str_le k ks) ≡ (p k && all p ks)
unfolding insert_sorted
all-insert_sorted p k [] = refl
all-insert_sorted p k (j ∷ ks) = elim (Bool-cases (str_le k j)) [
  | inl low ↦ rw low refl
  | inr high ↦ rw (high, all-insert_sorted p k ks) (swap (p j) (p k) (all p ks))
]
  where
    swap : (a b c : Bool) → (a && (b && c)) ≡ (b && (a && c))
    swap a b c = ground arith

pub all-sort : (p : Bytes → Bool) (ks : List Bytes) → all p (sort_strings ks) ≡ all p ks
unfolding sort
all-sort p [] = refl
all-sort p (k ∷ ks) = all-insert_sorted p k (sort_strings ks) ∙ rw (all-sort p ks) refl

abbrev first : List ℤ → Option ℤ
first [] = none
first (n ∷ ns) = some n

-- The least of the ids from 10000 on that ranges start with.
abbrev pub least_over : List IdRange → Option ℤ
least_over ranges =
    first (sort int_le (keep (λ lo. int_le (pos 10000) lo) (map (λ r. r.lo) ranges)))

abbrev pub marked : Bytes → Option ℤ → Assoc ℤ → Assoc ℤ
marked area none rest = rest
marked area (some lo) rest = (area, lo) ∷ rest

-- The areas of a table that start a band from 10000 on, each with the least start of such a band.
abbrev pub overflows : Assoc AreaClaim → Assoc ℤ
overflows [] = []
overflows ((area, claim) ∷ declared) = marked area (least_over claim.ranges) (overflows declared)

first-insert_sorted : (a : ℤ) (l : List ℤ) → first (insert_sorted int_le a l) ≡ lower a (first l)
unfolding insert_sorted
first-insert_sorted a [] = refl
first-insert_sorted a (b ∷ l) = elim (Bool-cases (int_le a b)) [
  | inr high ↦ rw (high, int_le_total a b high) refl
  | inl low ↦ elim (Bool-cases (int_le b a)) [
    | inl both ↦ rw (low, both) (ap some (int_le_antisymm a b low both))
    | inr less ↦ rw (low, less) refl
  ]
]

lowest_over-least : (ranges : List IdRange) → lowest_over ranges ≡ least_over ranges
unfolding lowest_over sort
lowest_over-least [] = refl
lowest_over-least (r ∷ ranges) = elim (Bool-cases (int_le (pos 10000) r.lo)) [
  | inl over ↦
      rw over (ap (lower r.lo) (lowest_over-least ranges) ∙ sym (first-insert_sorted r.lo _))
  | inr under ↦ rw under (lowest_over-least ranges)
]

put_area-marked :
    (area : Bytes) (o : Option ℤ) (rest : Assoc ℤ) → put_area area o rest ≡ marked area o rest
put_area-marked area none rest = refl
put_area-marked area (some lo) rest = refl

pub wanted_areas-overflows :
    (declared : Assoc AreaClaim) → wanted_areas declared ≡ overflows declared
unfolding wanted_areas
wanted_areas-overflows [] = refl
wanted_areas-overflows ((area, claim) ∷ declared) =
    put_area-marked area (lowest_over claim.ranges) (wanted_areas declared)
    ∙ rw (lowest_over-least claim.ranges, wanted_areas-overflows declared) refl

-- The band of an area is right: the note gives it where the table wants one.
abbrev pub band_right : Option ℤ → Option ℤ → Bool
band_right none got = true
band_right (some want) none = false
band_right (some want) (some got) = int_eq got want

-- The note is there, with the word for the number of the areas that overflow by the table, the band of
-- each of them, and no other area.
abbrev pub note_right : Option Note → Assoc ℤ → Bool
note_right none wanted = false
note_right (some note) wanted =
    str_eq (to_lower note.word) (number_word (length wanted))
    && (all (λ area. band_right (lookup area wanted) (lookup area note.named)) (keys wanted)
        && all (λ area. is_some (lookup area wanted)) (keys note.named))

check_band-right :
    (area : Bytes) (want got : Option ℤ) → is_empty (check_band area want got) ≡ band_right want got
check_band-right area none got = refl
check_band-right area (some want) none = refl
check_band-right area (some want) (some got) =
    is_empty-if (int_eq got want) (band_differs area got want)

check_wanted-right :
    (wanted named : Assoc ℤ) (areas : List Bytes)
    → is_empty (check_wanted wanted named areas)
      ≡ all (λ area. band_right (lookup area wanted) (lookup area named)) areas
unfolding check_wanted
check_wanted-right wanted named [] = refl
check_wanted-right wanted named (area ∷ areas) =
    is_empty-append (check_band area (lookup area wanted) (lookup area named))
      (check_wanted wanted named areas)
    ∙ rw
        (
          check_band-right area (lookup area wanted) (lookup area named),
          check_wanted-right wanted named areas,
        )
        refl

check_over-right : (area : Bytes) (o : Option ℤ) → is_empty (check_over area o) ≡ is_some o
check_over-right area none = refl
check_over-right area (some want) = refl

check_named-right :
    (wanted : Assoc ℤ) (areas : List Bytes)
    → is_empty (check_named wanted areas) ≡ all (λ area. is_some (lookup area wanted)) areas
unfolding check_named
check_named-right wanted [] = refl
check_named-right wanted (area ∷ areas) =
    is_empty-append (check_over area (lookup area wanted)) (check_named wanted areas)
    ∙ rw (check_over-right area (lookup area wanted), check_named-right wanted areas) refl

pub check_overflow_note-right :
    (note : Option Note) (declared : Assoc AreaClaim)
    → is_empty (check_overflow_note note declared) ≡ note_right note (wanted_areas declared)
unfolding check_overflow_note
check_overflow_note-right none declared = refl
check_overflow_note-right (some note) declared =
    let wanted = wanted_areas declared in
    let bands = check_wanted wanted note.named (sort_strings (keys wanted)) in
    let names = check_named wanted (sort_strings (keys note.named)) in
    let word = str_eq (to_lower note.word) (number_word (length wanted)) in
    let differs = note_count (to_lower note.word) (length wanted) in
    is_empty-append (if word then [] else differs ∷ []) (bands ++ names)
    ∙ rw
        (
          is_empty-if word differs,
          is_empty-append bands names,
          check_wanted-right wanted note.named (sort_strings (keys wanted)),
          check_named-right wanted (sort_strings (keys note.named)),
          all-sort (λ area. band_right (lookup area wanted) (lookup area note.named)) (keys wanted),
          all-sort (λ area. is_some (lookup area wanted)) (keys note.named),
        )
        refl

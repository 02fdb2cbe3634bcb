-- ===== src/Validate/Areas.antt =====
-- tools/oracle/internal/validate/validate.go: the tables of areas, ids and counts of the documents, against the
-- cases. The expressions that find a row and the closing line in a text are not modelled: what they
-- matched is the input.
pub mod Overflow
pub mod Right
use postgrest_conformance.Base.{
  ℕ, ◌+◌, ◌%◌, ◌^◌, Bool, true, false, not, ◌&&◌, ◌||◌, List, [], ◌∷◌, ◌++◌, Option, none, some,
  if◌then◌else◌, is_empty, length, keep, take, any, ◌==◌, get_elem?,
}
use postgrest_conformance.Base.Text.{Bytes, codes, str_le, str_eq, to_lower}
use postgrest_conformance.Base.Assoc.{Assoc, lookup, keys}
use postgrest_conformance.Base.Int.{ℤ, pos, int_le, int_eq}
use postgrest_conformance.Base.Sort.{sort, sort_strings}
use postgrest_conformance.Base.Decimal.{itoa}

-- `idRange`
pub record IdRange : Type 0 where
  pub lo : ℤ
  pub hi : ℤ

-- `areaClaim`
pub record AreaClaim : Type 0 where
  pub count : ℕ
  pub ranges : List IdRange

pub data AreaFinding : Type 0 where
  no_rows : AreaFinding
  no_row : Bytes → ℕ → AreaFinding
  count_differs : Bytes → ℕ → ℕ → AreaFinding
  out_of_band : Bytes → List IdRange → List ℤ → AreaFinding
  no_cases : Bytes → AreaFinding
  sum_differs : ℕ → ℕ → AreaFinding
  no_total_line no_total_count : AreaFinding
  no_note : AreaFinding
  note_count : Bytes → ℕ → AreaFinding
  not_named : Bytes → ℤ → AreaFinding
  band_differs : Bytes → ℤ → ℤ → AreaFinding
  not_over : Bytes → AreaFinding
  total_differs areas_differ breakdown_differs breakdown_wrong : ℕ → ℕ → AreaFinding

-- the inner loop over the ranges of a claim
unfoldable pub is_in_band : List IdRange → ℤ → Bool
unfolding int_le
is_in_band ranges id = any (λ r. int_le r.lo id && int_le id r.hi) ranges

abbrev pub band_finding : Bytes → List IdRange → List ℤ → List AreaFinding
band_finding area ranges [] = []
band_finding area ranges (n ∷ ns) = out_of_band area ranges (take 10 (sort int_le (n ∷ ns))) ∷ []

abbrev pub check_claim : Bytes → List ℤ → Option AreaClaim → List AreaFinding
check_claim area ids none = no_row area (length ids) ∷ []
check_claim area ids (some claim) =
    (if length ids == claim.count then [] else count_differs area claim.count (length ids) ∷ [])
    ++ band_finding area claim.ranges (keep (λ id. not (is_in_band claim.ranges id)) ids)

abbrev pub ids_of_area : Option (List ℤ) → List ℤ
ids_of_area none = []
ids_of_area (some ids) = ids

-- the loop over the areas on disk
unfoldable pub check_on_disk : Assoc AreaClaim → Assoc (List ℤ) → List Bytes → List AreaFinding
unfolding lookup is_in_band sort
check_on_disk declared area_ids [] = []
check_on_disk declared area_ids (area ∷ areas) =
    check_claim area (ids_of_area (lookup area area_ids)) (lookup area declared)
    ++ check_on_disk declared area_ids areas

abbrev pub check_there : Bytes → Option (List ℤ) → List AreaFinding
check_there area none = no_cases area ∷ []
check_there area (some ids) = []

-- the loop over the declared areas
unfoldable pub check_declared : Assoc (List ℤ) → List Bytes → List AreaFinding
unfolding lookup
check_declared area_ids [] = []
check_declared area_ids (area ∷ areas) =
    check_there area (lookup area area_ids) ++ check_declared area_ids areas

-- `declaredTotal`, whose sum wraps around in 64 bits; here and in `sum_of` the bits are read without a
-- sign, so that a sum is equal to a number of cases just when the two ints are
unfoldable pub declared_total : Assoc AreaClaim → ℕ
declared_total [] = 0
declared_total ((area, claim) ∷ declared) = (claim.count + declared_total declared) % 2 ^ 64

-- What is read of a "Total:" line: the number of cases, the number of areas where it has one, and the
-- addends of a breakdown with the total that it states.
pub record TotalLine : Type 0 where
  pub cases : Option ℕ
  pub areas : Option ℕ
  pub breakdown : Option (List ℕ × ℕ)

unfoldable pub sum_of : List ℕ → ℕ
sum_of [] = 0
sum_of (n ∷ ns) = (n + sum_of ns) % 2 ^ 64

abbrev pub check_cases : ℕ → Option ℕ → List AreaFinding
check_cases total none = no_total_count ∷ []
check_cases total (some n) = if n == total then [] else total_differs n total ∷ []

abbrev pub check_areas : ℕ → Option ℕ → List AreaFinding
check_areas areas none = []
check_areas areas (some n) = if n == areas then [] else areas_differ n areas ∷ []

abbrev pub check_breakdown : ℕ → Option (List ℕ × ℕ) → List AreaFinding
check_breakdown total none = []
check_breakdown total (some (addends, stated)) =
    if not (sum_of addends == stated)
    then breakdown_differs (sum_of addends) stated ∷ []
    else if not (stated == total)
    then breakdown_wrong stated total ∷ []
    else []

-- `checkTotalLine`
unfoldable pub check_total_line : Option TotalLine → ℕ → ℕ → List AreaFinding
unfolding sum_of
check_total_line none areas total = no_total_line ∷ []
check_total_line (some line) areas total =
    check_cases total line.cases
    ++ (check_areas areas line.areas ++ check_breakdown total line.breakdown)

-- `numberWords`
abbrev pub number_words : List Bytes
number_words =
    codes "zero"
    ∷ codes "one"
    ∷ codes "two"
    ∷ codes "three"
    ∷ codes "four"
    ∷ codes "five"
    ∷ codes "six"
    ∷ codes "seven"
    ∷ codes "eight"
    ∷ codes "nine"
    ∷ codes "ten"
    ∷ codes "eleven"
    ∷ codes "twelve"
    ∷ codes "thirteen"
    ∷ codes "fourteen"
    ∷ codes "fifteen"
    ∷ codes "sixteen"
    ∷ codes "seventeen"
    ∷ codes "eighteen"
    ∷ codes "nineteen"
    ∷ codes "twenty"
    ∷ []

abbrev or_digits : ℕ → Option Bytes → Bytes
or_digits n none = itoa n
or_digits n (some word) = word

-- `numberWord`
unfoldable pub number_word : ℕ → Bytes
unfolding itoa
number_word n = or_digits n (get_elem? number_words n)

-- What is read of the note on areas that overflow: the word for their number, and the areas that the
-- note names, each with its band.
pub record Note : Type 0 where
  pub word : Bytes
  pub named : Assoc ℤ

-- `overflowBand`
abbrev pub overflow_band : ℤ
overflow_band = pos 10000

abbrev pub lower : ℤ → Option ℤ → Option ℤ
lower lo none = some lo
lower lo (some least) = if int_le least lo then some least else some lo

-- the lowest start of a range that is not below the band
unfoldable pub lowest_over : List IdRange → Option ℤ
unfolding int_le
lowest_over [] = none
lowest_over (r ∷ ranges) =
    let rest = lowest_over ranges in if int_le overflow_band r.lo then lower r.lo rest else rest

abbrev pub put_area : Bytes → Option ℤ → Assoc ℤ → Assoc ℤ
put_area area none wanted = wanted
put_area area (some lo) wanted = (area, lo) ∷ wanted

-- `wantAreas`
unfoldable pub wanted_areas : Assoc AreaClaim → Assoc ℤ
unfolding lowest_over
wanted_areas [] = []
wanted_areas ((area, claim) ∷ declared) =
    put_area area (lowest_over claim.ranges) (wanted_areas declared)

abbrev pub check_band : Bytes → Option ℤ → Option ℤ → List AreaFinding
check_band area none got = []
check_band area (some want) none = not_named area want ∷ []
check_band area (some want) (some got) =
    if int_eq got want then [] else band_differs area got want ∷ []

-- the loop over the areas that overflow by the table
unfoldable pub check_wanted : Assoc ℤ → Assoc ℤ → List Bytes → List AreaFinding
unfolding int_eq lookup
check_wanted wanted named [] = []
check_wanted wanted named (area ∷ areas) =
    check_band area (lookup area wanted) (lookup area named) ++ check_wanted wanted named areas

abbrev pub check_over : Bytes → Option ℤ → List AreaFinding
check_over area none = not_over area ∷ []
check_over area (some want) = []

-- the loop over the areas that the note names
unfoldable pub check_named : Assoc ℤ → List Bytes → List AreaFinding
unfolding lookup
check_named wanted [] = []
check_named wanted (area ∷ areas) = check_over area (lookup area wanted) ++ check_named wanted areas

-- `checkOverflowNote`
unfoldable pub check_overflow_note : Option Note → Assoc AreaClaim → List AreaFinding
unfolding wanted_areas check_wanted check_named number_word sort str_le str_eq
check_overflow_note none declared = no_note ∷ []
check_overflow_note (some note) declared =
    let wanted = wanted_areas declared in
    (if str_eq (to_lower note.word) (number_word (length wanted))
      then []
      else note_count (to_lower note.word) (length wanted) ∷ [])
    ++ (check_wanted wanted note.named (sort_strings (keys wanted))
        ++ check_named wanted (sort_strings (keys note.named)))

-- `checkAreaTable` of the document's name, and of the rows, the line and the note that were found in it
unfoldable pub check_area_table :
    Bytes → Option Note → Assoc AreaClaim → Option TotalLine → Assoc (List ℤ) → ℕ → List AreaFinding
unfolding check_overflow_note str_eq check_on_disk check_declared declared_total check_total_line
    sort str_le
check_area_table doc note declared line area_ids total =
    (if is_empty declared then no_rows ∷ [] else [])
    ++ (check_on_disk declared area_ids (sort_strings (keys area_ids))
        ++ (check_declared area_ids (sort_strings (keys declared))
            ++ ((if declared_total declared == total
                  then []
                  else sum_differs (declared_total declared) total ∷ [])
                ++ (check_total_line line (length area_ids) total
                    ++ (if str_eq doc (codes "HARNESS.md")
                        then check_overflow_note note declared
                        else [])))))

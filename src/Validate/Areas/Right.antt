-- ===== src/Validate/Areas/Right.antt =====
-- Lemmas on the tables of areas.
use postgrest_conformance.Base.{
  ℕ, ◌+◌, ◌%◌, ◌^◌, Bool, true, false, ◌&&◌, List, [], ◌∷◌, Option, none, some, length, all, ◌==◌,
  is_some,
}
use postgrest_conformance.Base.Text.{Bytes}
use postgrest_conformance.Base.Assoc.{Assoc, lookup}
use postgrest_conformance.Base.Int.{ℤ}
use postgrest_conformance.Validate.Areas.{AreaClaim, TotalLine, is_in_band, ids_of_area}

abbrev pub claim_right : List ℤ → Option AreaClaim → Bool
claim_right ids none = false
claim_right ids (some claim) = length ids == claim.count && all (is_in_band claim.ranges) ids

-- The area has a row, with the number of its cases and bands that have all its ids.
abbrev pub area_right : Assoc AreaClaim → Assoc (List ℤ) → Bytes → Bool
area_right declared area_ids area =
    claim_right (ids_of_area (lookup area area_ids)) (lookup area declared)

abbrev pub says : Option ℕ → Bool → ℕ → Bool
says none missing total = missing
says (some n) missing total = n == total

-- The plain sum of numbers.
abbrev pub sum : List ℕ → ℕ
sum [] = 0
sum (n ∷ ns) = n + sum ns

abbrev pub count_of : Bytes × AreaClaim → ℕ
count_of (area, claim) = claim.count

abbrev pub adds_up : Option (List ℕ × ℕ) → ℕ → Bool
adds_up none total = true
adds_up (some (addends, stated)) total = sum addends % 2 ^ 64 == stated && stated == total

-- The closing line is there, with the number of the cases; the number of the areas and the breakdown are
-- right where it has them.
abbrev pub line_right : Option TotalLine → ℕ → ℕ → Bool
line_right none areas total = false
line_right (some line) areas total =
    says line.cases false total && (says line.areas true areas && adds_up line.breakdown total)

abbrev pub is_on_disk : Assoc (List ℤ) → Bytes → Bool
is_on_disk area_ids area = is_some (lookup area area_ids)

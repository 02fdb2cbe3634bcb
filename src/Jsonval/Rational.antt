-- ===== src/Jsonval/Rational.antt =====
-- math/big's Rat as far as jsonval.go uses it: the rational of a decimal number's text, and the test
-- `Cmp(…) == 0`.
use postgrest_conformance.Base.{
  ℕ, suc, ◌+◌, ◌-◌, ◌*◌, ◌^◌, Bool, true, false, ◌&&◌, ◌||◌, [], ◌∷◌, Option, none, some, ◌≡◌, refl,
  ltb, leb, ◌==◌, if◌then◌else◌,
}
use postgrest_conformance.Base.Text.{Bytes, codes}
use postgrest_conformance.Base.Int.{ℤ, pos, negsuc}

-- `num / (den_pred + 1)`
pub record Rat : Type 0 where
  pub num : ℤ
  pub den_pred : ℕ

-- `SetInt64`, `SetUint64`
abbrev pub whole : ℤ → Rat
whole n = record { num = n; den_pred = 0 }

-- `a.Cmp(b) == 0`, by cross multiplication
equal_over : ℤ → ℕ → ℤ → ℕ → Bool
equal_over (pos a) d (pos b) e = a * e == b * d
equal_over (negsuc a) d (negsuc b) e = suc a * e == suc b * d
equal_over (pos a) d (negsuc b) e = false
equal_over (negsuc a) d (pos b) e = false

unfoldable pub rat_eq : Rat → Rat → Bool
unfolding equal_over
rat_eq r s = equal_over r.num (suc r.den_pred) s.num (suc s.den_pred)

abbrev is_digit : ℕ → Bool
is_digit c = leb b'0' c && leb c b'9'

-- The digits at the front of a text: their value after `acc`, how many, and the rest.
unfoldable pub scan_digits : Bytes → ℕ → ℕ → ℕ × ℕ × Bytes
scan_digits [] acc n = (acc, n, [])
scan_digits (c ∷ s) acc n =
    let more = scan_digits s (acc * 10 + (c - b'0')) (n + 1) in
    if is_digit c then more else (acc, n, c ∷ s)

abbrev negate_if : Bool → ℕ → ℤ
negate_if true (suc n) = negsuc n
negate_if _ n = pos n

-- the mantissa times 10 to the power `up - down`, as SetString answers it: an exponent past a
-- million is refused
unfoldable pub scaled : Bool → ℕ → ℕ → ℕ → Option Rat
scaled neg m up down =
    if m == 0
    then some (whole (pos 0))
    else if ltb 1000000 (up - down) || ltb 1000000 (down - up)
    then none
    else if leb down up
    then some (whole (negate_if neg (m * 10 ^ (up - down))))
    else some (record { num = negate_if neg m; den_pred = 10 ^ (down - up) - 1 })

-- behind the exponent's sign: at least one digit, and nothing more
exponent : Bool → Bool → ℕ → ℕ → Bytes → Option Rat
unfolding scan_digits
exponent neg eneg m frac s =
    let (e, n, rest) = scan_digits s 0 0 in
    elim rest [
      | [] ↦
          if n == 0 then none else if eneg then scaled neg m 0 (frac + e) else scaled neg m e frac
      | c ∷ r ↦ none
    ]

exponent_sign : Bool → ℕ → ℕ → Bytes → Option Rat
unfolding exponent
exponent_sign neg m frac [] = none
exponent_sign neg m frac (c ∷ s) =
    if c == b'-'
    then exponent neg true m frac s
    else if c == b'+'
    then exponent neg false m frac s
    else exponent neg false m frac (c ∷ s)

-- behind the mantissa
after_mantissa : Bool → ℕ → ℕ → Bytes → Option Rat
unfolding exponent_sign
after_mantissa neg m frac [] = scaled neg m 0 frac
after_mantissa neg m frac (c ∷ s) =
    if c == b'e' || c == b'E' then exponent_sign neg m frac s else none

-- behind the whole part, which has `n` digits
fraction : Bool → ℕ → ℕ → Bytes → Option Rat
unfolding scan_digits after_mantissa
fraction neg m n [] = if n == 0 then none else after_mantissa neg m 0 []
fraction neg m n (c ∷ s) =
    let (m', k, rest) = scan_digits s m 0 in
    if c == b'.'
    then (if n + k == 0 then none else after_mantissa neg m' k rest)
    else if n == 0
    then none
    else after_mantissa neg m 0 (c ∷ s)

mantissa : Bool → Bytes → Option Rat
unfolding scan_digits fraction
mantissa neg s = let (m, n, rest) = scan_digits s 0 0 in fraction neg m n rest

-- `SetString` on decimal notation, the only one that JSON and `%v` of a float64 have
unfoldable pub set_string : Bytes → Option Rat
unfolding mantissa scaled
set_string [] = none
set_string (c ∷ s) =
    if c == b'-'
    then mantissa true s
    else if c == b'+'
    then mantissa false s
    else mantissa false (c ∷ s)

half_of : set_string (codes "-12.50e1") ≡ some (record { num = negsuc 1249; den_pred = 9 })
unfolding set_string
half_of = refl

million : set_string (codes "1e+06") ≡ some (whole (pos 1000000))
unfolding set_string
million = refl

not_a_number : (set_string (codes "NaN") ≡ none) × (set_string (codes "1.5x") ≡ none)
unfolding set_string
not_a_number = (refl, refl)

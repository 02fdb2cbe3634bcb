-- ===== src/Base/Decimal.antt =====
-- `strconv.Itoa` on natural numbers and `strconv.Atoi`.
use postgrest_conformance.Base.Tests.{ltb, leb, ◌==◌, if◌then◌else◌, Bool-cases, ◌>>=◌}
use postgrest_conformance.Base.Text.{Bytes, codes}
use postgrest_conformance.Base.Int.{ℤ, pos, negsuc}
use Prim.Native.Nat.{ℕ, zero, suc, ◌+◌, ◌-◌, ◌*◌, ◌/◌, ◌%◌, ◌^◌, ◌<◌}
use mathlib.Core.Path.{◌≡◌, refl, ◌∙◌}
use mathlib.Core.Logic.{inl, inr}
use mathlib.Core.Bool.{Bool, true, false, ◌&&◌}
use mathlib.Core.List.{[], ◌∷◌}
use mathlib.Core.Option.{Option, none, some}
use native.Mathlib.Omega.{arith}

abbrev pub is_digit : ℕ → Bool
is_digit c = leb b'0' c && leb c b'9'

-- the digits of `n` in front of `out`, on fuel
digits_onto : ℕ → ℕ → Bytes → Bytes
digits_onto zero n out = out
digits_onto (suc f) n out =
    let more = digits_onto f (n / 10) ((b'0' + n % 10) ∷ out) in
    if ltb n 10 then (b'0' + n) ∷ out else more

-- a number has fewer digits than itself plus two
unfoldable pub itoa : ℕ → Bytes
unfolding digits_onto
itoa n = digits_onto (suc n) n []

-- `%v` of a signed integer
unfoldable pub int_text : ℤ → Bytes
unfolding itoa
int_text (pos n) = itoa n
int_text (negsuc n) = b'-' ∷ itoa (n + 1)

-- the value of a text of digits behind those of `acc`
read_digits : Bytes → ℕ → Option ℕ
read_digits [] acc = some acc
read_digits (c ∷ s) acc = if is_digit c then read_digits s (acc * 10 + (c - b'0')) else none

-- the range of `int`: 64 bits
in_range : Bool → ℕ → Option ℤ
in_range true zero = some (pos 0)
in_range true (suc n) = if ltb n (2 ^ 63) then some (negsuc n) else none
in_range false n = if ltb n (2 ^ 63) then some (pos n) else none

unsigned : Bool → Bytes → Option ℤ
unfolding read_digits in_range
unsigned neg [] = none
unsigned neg (c ∷ s) = read_digits (c ∷ s) 0 >>= in_range neg

-- `none` is an error: no digit, another byte, or a value out of range
unfoldable pub atoi : Bytes → Option ℤ
unfolding unsigned
atoi [] = none
atoi (c ∷ s) =
    if c == b'-'
    then unsigned true s
    else if c == b'+'
    then unsigned false s
    else unsigned false (c ∷ s)

-- the digits of a number are read back, whatever follows them
read_digits-digits_onto :
    (f n : ℕ) (out : Bytes) → n < f → read_digits (digits_onto f n out) 0 ≡ read_digits out n
unfolding digits_onto
read_digits-digits_onto zero n out h = absurd (omega arith)
read_digits-digits_onto (suc f) n out h = elim (Bool-cases (ltb n 10)) [
  | inl small ↦ rw small (unfold read_digits in ground arith)
  | inr large ↦ rw large (
      read_digits-digits_onto f (n / 10) ((b'0' + n % 10) ∷ out) (ground arith)
      ∙ unfold read_digits in ground arith)
]

-- The text starts with a digit.
abbrev pub StartsWithDigit : Bytes → Type 0
StartsWithDigit [] = ⊥
StartsWithDigit (c ∷ s) = is_digit c ≡ true

digits_onto-starts : (f n : ℕ) (out : Bytes) → n < f → StartsWithDigit (digits_onto f n out)
unfolding digits_onto
digits_onto-starts zero n out h = absurd (omega arith)
digits_onto-starts (suc f) n out h = elim (Bool-cases (ltb n 10)) [
  | inl small ↦ rw small (ground arith)
  | inr large ↦ rw large (digits_onto-starts f (n / 10) ((b'0' + n % 10) ∷ out) (ground arith))
]

pub itoa-starts : (n : ℕ) → StartsWithDigit (itoa n)
unfolding itoa
itoa-starts n = digits_onto-starts (suc n) n [] (omega arith)

atoi_of_digits :
    (s : Bytes) (n : ℕ)
    → StartsWithDigit s
    → read_digits s 0 ≡ some n
    → n < 2 ^ 63
    → atoi s ≡ some (pos n)
unfolding unsigned in_range
atoi_of_digits [] n d e h = absurd d
atoi_of_digits (c ∷ s) n d e h = unfold atoi in ground arith

-- A number in the range of `int` is read back from its text.
pub atoi-itoa : (n : ℕ) → n < 2 ^ 63 → atoi (itoa n) ≡ some (pos n)
atoi-itoa n h =
    atoi_of_digits (itoa n) n (itoa-starts n)
      (unfold itoa in
        (read_digits-digits_onto (suc n) n [] (omega arith) ∙ unfold read_digits in refl))
      h

itoa_120 : itoa 120 ≡ codes "120"
unfolding itoa
itoa_120 = refl

atoi_signs : (atoi (codes "-7") ≡ some (negsuc 6)) × (atoi (codes "+7") ≡ some (pos 7))
unfolding atoi
atoi_signs = (refl, refl)

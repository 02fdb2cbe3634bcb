-- ===== src/Httpexec/PathEncoding/Laws.antt =====
-- Lemmas on the bytes of an encoded path.
use mathlib.Core.Logic.{inl, inr}
use postgrest_conformance.Base.{
  ℕ, ◌/◌, ◌%◌, ◌<◌, Bool, true, false, not, ◌&&◌, ◌||◌, [], ◌∷◌, ◌++◌, ◌≡◌, refl, arith, ltb, leb,
  ◌==◌, All, All-append, Bool-cases, and_true, and_intro,
}
use postgrest_conformance.Base.Text.{Bytes}
use postgrest_conformance.Httpexec.PathEncoding.{
  is_hex, hex_digit, percent, escape_follows, is_delimiter, encode_byte, encode_raw_path,
}

-- A byte that may stand in a request target: visible ASCII, no delimiter.
abbrev pub is_plain : ℕ → Bool
is_plain c = ltb b' ' c && ltb c 0x7f && not (is_delimiter c)

-- every percent sign starts an escape
abbrev pub escapes_whole : Bytes → Bool
escapes_whole [] = true
escapes_whole (c ∷ s) = (not (c == b'%') || escape_follows s) && escapes_whole s

pub hex_digit-is_hex : (n : ℕ) → n < 16 → is_hex (hex_digit n) ≡ true
hex_digit-is_hex n h = ground arith

hex_digit-is_plain : (n : ℕ) → n < 16 → is_plain (hex_digit n) ≡ true
hex_digit-is_plain n h = ground arith

percent-plain : (c : ℕ) → c < 256 → All (λ b. is_plain b ≡ true) (percent c)
percent-plain c h =
    let high : is_plain (hex_digit (c / 16)) ≡ true = hex_digit-is_plain (c / 16) (omega arith) in
    let low : is_plain (hex_digit (c % 16)) ≡ true = hex_digit-is_plain (c % 16) (omega arith) in
    (refl, (high, (low, tt)))

encode_byte-plain : (c : ℕ) (s : Bytes) → c < 256 → All (λ b. is_plain b ≡ true) (encode_byte c s)
unfolding encode_byte
encode_byte-plain c s h = elim (Bool-cases (c == b'%')) [
  | inl p ↦ rw p (ground arith)
  | inr p ↦ elim (Bool-cases (leb c b' ' || leb 0x7f c || is_delimiter c)) [
    | inl e ↦ rw (p, e) (percent-plain c h)
    | inr e ↦ rw (p, e) (ground arith, tt)
  ]
]

hex-encode_byte : (c : ℕ) (s : Bytes) → is_hex c ≡ true → encode_byte c s ≡ c ∷ []
unfolding encode_byte
hex-encode_byte c s h = ground arith

pub encode-cons :
    (c : ℕ) (s : Bytes) → encode_raw_path (c ∷ s) ≡ encode_byte c s ++ encode_raw_path s
unfolding encode_raw_path
encode-cons c s = refl

-- hexadecimal digits behind each other are left alone
pub encode_hex :
    (a : ℕ) (s : Bytes) → is_hex a ≡ true → encode_raw_path (a ∷ s) ≡ a ∷ encode_raw_path s
encode_hex a s h = rw (encode-cons a s, hex-encode_byte a s h)

escape_follows-encode_raw_path :
    (s : Bytes) → escape_follows s ≡ true → escape_follows (encode_raw_path s) ≡ true
escape_follows-encode_raw_path [] h = cc
escape_follows-encode_raw_path (a ∷ []) h = cc
escape_follows-encode_raw_path (a ∷ b ∷ s) h =
    let (ha, hb) = and_true (is_hex a) (is_hex b) h in
    rw (encode_hex a (b ∷ s) ha, encode_hex b s hb) h

hex_digit-ne-percent : (n : ℕ) → n < 16 → (hex_digit n == b'%') ≡ false
hex_digit-ne-percent n h = ground arith

percent-whole :
    (c : ℕ) (s : Bytes) → c < 256 → escapes_whole s ≡ true → escapes_whole (percent c ++ s) ≡ true
percent-whole c s h w = ground (
  arith,
  hex_digit-is_hex (c / 16) (omega arith),
  hex_digit-is_hex (c % 16) (omega arith),
  hex_digit-ne-percent (c / 16) (omega arith),
  hex_digit-ne-percent (c % 16) (omega arith),
)

encode_byte-whole :
    (c : ℕ) (s r : Bytes)
    → c < 256
    → escapes_whole r ≡ true
    → (escape_follows s ≡ true → escape_follows r ≡ true)
    → escapes_whole (encode_byte c s ++ r) ≡ true
unfolding encode_byte
encode_byte-whole c s r h w f = elim (Bool-cases (c == b'%')) [
  | inl p ↦ elim (Bool-cases (escape_follows s)) [
    | inl e ↦ rw (p, e) (and_intro _ _ (ground (arith, f e)) w)
    | inr e ↦ rw (p, e) w
  ]
  | inr p ↦ elim (Bool-cases (leb c b' ' || leb 0x7f c || is_delimiter c)) [
    | inl e ↦ rw (p, e) (percent-whole c r h w)
    | inr e ↦ rw (p, e) (rw p w)
  ]
]

encode-whole : (s : Bytes) → All (λ c. c < 256) s → escapes_whole (encode_raw_path s) ≡ true
encode-whole [] h = unfold encode_raw_path in refl
encode-whole (c ∷ s) h =
    rw (encode-cons c s)
      (encode_byte-whole c s _ h.0 (encode-whole s h.1) (escape_follows-encode_raw_path s))

encode-plain : (s : Bytes) → All (λ c. c < 256) s → All (λ b. is_plain b ≡ true) (encode_raw_path s)
encode-plain [] h = unfold encode_raw_path in tt
encode-plain (c ∷ s) h =
    rw (encode-cons c s)
      (All-append _ (encode_byte c s) _ (encode_byte-plain c s h.0) (encode-plain s h.1))

plain-encode_byte :
    (c : ℕ) (s : Bytes)
    → is_plain c ≡ true
    → (not (c == b'%') || escape_follows s) ≡ true
    → encode_byte c s ≡ c ∷ []
unfolding encode_byte
plain-encode_byte c s h w = ground arith

encode_plain :
    (s : Bytes) → All (λ b. is_plain b ≡ true) s → escapes_whole s ≡ true → encode_raw_path s ≡ s
encode_plain [] h w = unfold encode_raw_path in refl
encode_plain (c ∷ s) h w =
    let (here, later) = and_true _ (escapes_whole s) w in
    rw (encode-cons c s, plain-encode_byte c s h.0 here, encode_plain s h.1 later)

-- The encoding of bytes is visible ASCII with no delimiter in it, every percent sign in it starts an
-- escape, and encoding it again changes nothing.
pub encode_raw_path-plain :
    (s : Bytes)
    → All (λ c. c < 256) s
    → All (λ b. is_plain b ≡ true) (encode_raw_path s)
      × (escapes_whole (encode_raw_path s) ≡ true)
      × (encode_raw_path (encode_raw_path s) ≡ encode_raw_path s)
encode_raw_path-plain s h = (
  encode-plain s h,
  encode-whole s h,
  encode_plain (encode_raw_path s) (encode-plain s h) (encode-whole s h),
)

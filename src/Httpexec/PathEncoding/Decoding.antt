-- ===== src/Httpexec/PathEncoding/Decoding.antt =====
-- The encoding of pathenc.go and a decoder of percent escapes.
use postgrest_conformance.Base.{
  ℕ, ◌+◌, ◌-◌, ◌*◌, ◌/◌, ◌%◌, ◌<◌, true, false, ◌&&◌, ◌||◌, [], ◌∷◌, ◌++◌, ◌≡◌, refl, ap, ◌∙◌,
  arith, leb, ◌==◌, if◌then◌else◌, All, Bool-cases, and_true, and_intro, inl, inr,
}
use postgrest_conformance.Base.Text.{Bytes}
use postgrest_conformance.Httpexec.PathEncoding.{
  is_hex, hex_digit, percent, escape_follows, is_delimiter, encode_byte, encode_raw_path,
}
use postgrest_conformance.Httpexec.PathEncoding.Laws.{hex_digit-is_hex, encode-cons, encode_hex}

abbrev pub hex_value : ℕ → ℕ
hex_value c =
    if leb b'0' c && leb c b'9'
    then c - b'0'
    else if leb b'a' c && leb c b'f'
    then c - b'a' + 10
    else c - b'A' + 10

-- What a percent-decoder makes of a text; a percent sign that starts no escape stands for itself.
pub percent_decode : Bytes → Bytes
percent_decode [] = []
percent_decode (c ∷ []) = c ∷ []
percent_decode (c ∷ a ∷ []) = c ∷ a ∷ []
percent_decode (c ∷ a ∷ b ∷ s) =
    let escaped = percent_decode s in
    let plain = percent_decode (a ∷ b ∷ s) in
    if c == b'%' && (is_hex a && is_hex b)
    then (hex_value a * 16 + hex_value b) ∷ escaped
    else c ∷ plain

hex_value-hex_digit : (n : ℕ) → n < 16 → hex_value (hex_digit n) ≡ n
hex_value-hex_digit n h = ground arith

decode_literal :
    (c : ℕ) (s : Bytes)
    → (c == b'%' && escape_follows s) ≡ false
    → percent_decode (c ∷ s) ≡ c ∷ percent_decode s
unfolding percent_decode
decode_literal c [] h = refl
decode_literal c (a ∷ []) h = refl
decode_literal c (a ∷ b ∷ s) h = rw h

decode_escape :
    (a b : ℕ) (s : Bytes)
    → (is_hex a && is_hex b) ≡ true
    → percent_decode (b'%' ∷ a ∷ b ∷ s) ≡ (hex_value a * 16 + hex_value b) ∷ percent_decode s
unfolding percent_decode
decode_escape a b s h = rw h

decode_percent :
    (c : ℕ) (s : Bytes) → c < 256 → percent_decode (percent c ++ s) ≡ c ∷ percent_decode s
decode_percent c s h =
    let high : c / 16 < 16 = omega arith in
    let low : c % 16 < 16 = omega arith in
    rw
      (
        decode_escape (hex_digit (c / 16)) (hex_digit (c % 16)) s
            (and_intro _ _ (hex_digit-is_hex _ high) (hex_digit-is_hex _ low)),
        hex_value-hex_digit (c / 16) high,
        hex_value-hex_digit (c % 16) low,
      )
      (ap (λ n. n ∷ percent_decode s) (omega arith))

-- a byte that does not start an escape is decoded to itself, however it is written
decode_encode_byte :
    (c : ℕ) (s r : Bytes)
    → c < 256
    → (c == b'%' && escape_follows s) ≡ false
    → percent_decode (encode_byte c s ++ r) ≡ c ∷ percent_decode r
unfolding encode_byte
decode_encode_byte c s r h n = elim (Bool-cases (c == b'%')) [
  | inl p ↦
      let e : escape_follows s ≡ false = ground arith in
      let lead : c ≡ b'%' = ground arith in rw (p, e, lead) (decode_percent b'%' r (omega arith))
  | inr p ↦ elim (Bool-cases (leb c b' ' || leb 0x7f c || is_delimiter c)) [
    | inl e ↦ rw (p, e) (decode_percent c r h)
    | inr e ↦ rw (p, e) (decode_literal c r (rw p refl))
  ]
]

decode_step :
    (c : ℕ) (s : Bytes)
    → c < 256
    → (c == b'%' && escape_follows s) ≡ false
    → percent_decode (encode_raw_path s) ≡ percent_decode s
    → percent_decode (encode_raw_path (c ∷ s)) ≡ percent_decode (c ∷ s)
decode_step c s h n e =
    rw (encode-cons c s, decode_encode_byte c s (encode_raw_path s) h n, decode_literal c s n, e)

decode_kept :
    (a b : ℕ) (s : Bytes)
    → (is_hex a && is_hex b) ≡ true
    → percent_decode (encode_raw_path s) ≡ percent_decode s
    → percent_decode (encode_raw_path (b'%' ∷ a ∷ b ∷ s)) ≡ percent_decode (b'%' ∷ a ∷ b ∷ s)
decode_kept a b s h e =
    let (ha, hb) = and_true (is_hex a) (is_hex b) h in
    let kept : encode_byte b'%' (a ∷ b ∷ s) ≡ b'%' ∷ [] = unfold encode_byte in rw h in
    rw (encode-cons b'%' (a ∷ b ∷ s), kept, encode_hex a (b ∷ s) ha, encode_hex b s hb)
      (decode_escape a b (encode_raw_path s) h ∙ rw (e, decode_escape a b s h))

-- Decoding the encoded path gives what decoding the path itself gives, for every text of bytes:
-- escapes already present are kept, and no other byte changes its meaning.
pub decode-encode :
    (s : Bytes) → All (λ c. c < 256) s → percent_decode (encode_raw_path s) ≡ percent_decode s
decode-encode [] h = unfold encode_raw_path in refl
decode-encode (c ∷ []) h = decode_step c [] h.0 (ground arith) (decode-encode [] tt)
decode-encode (c ∷ a ∷ []) h =
    decode_step c (a ∷ []) h.0 (ground arith) (decode-encode (a ∷ []) h.1)
decode-encode (c ∷ a ∷ b ∷ s) h = elim (Bool-cases (c == b'%' && (is_hex a && is_hex b))) [
  | inl k ↦
      let (p, hex) = and_true (c == b'%') (is_hex a && is_hex b) k in
      let lead : c ≡ b'%' = ground arith in
      rw lead (decode_kept a b s hex (decode-encode s h.1.1.1))
  | inr k ↦ decode_step c (a ∷ b ∷ s) h.0 k (decode-encode (a ∷ b ∷ s) h.1)
]

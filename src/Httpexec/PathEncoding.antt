-- ===== src/Httpexec/PathEncoding.antt =====
-- tools/oracle/internal/httpexec/pathenc.go: a case's path made fit for a request line.
pub mod Laws
pub mod Decoding
use postgrest_conformance.Base.{
  ℕ, ◌+◌, ◌-◌, ◌/◌, ◌%◌, Bool, true, false, ◌&&◌, ◌||◌, List, [], ◌∷◌, ◌++◌, ◌≡◌, refl, ltb, leb,
  ◌==◌, if◌then◌else◌, any,
}
use postgrest_conformance.Base.Text.{Bytes, codes}

-- `isHex`
abbrev pub is_hex : ℕ → Bool
is_hex c = leb b'0' c && leb c b'9' || leb b'a' c && leb c b'f' || leb b'A' c && leb c b'F'

-- a digit of `%02X`
abbrev pub hex_digit : ℕ → ℕ
hex_digit n = if ltb n 10 then b'0' + n else b'A' + (n - 10)

-- `fmt.Fprintf(&b, "%%%02X", c)` of a byte
abbrev pub percent : ℕ → Bytes
percent c = b'%' ∷ hex_digit (c / 16) ∷ hex_digit (c % 16) ∷ []

-- `i+2 < len(p) && isHex(p[i+1]) && isHex(p[i+2])`, on what follows the byte at `i`
abbrev pub escape_follows : Bytes → Bool
escape_follows [] = false
escape_follows (a ∷ []) = false
escape_follows (a ∷ b ∷ s) = is_hex a && is_hex b

-- `"<>\^`{}|`
abbrev pub is_delimiter : ℕ → Bool
is_delimiter c =
    c == 0x22
    || c == 0x3c
    || c == 0x3e
    || c == 0x5c
    || c == 0x5e
    || c == 0x60
    || c == 0x7b
    || c == 0x7d
    || c == 0x7c

-- what is written for the byte `c` in front of `s`
unfoldable pub encode_byte : ℕ → Bytes → Bytes
encode_byte c s =
    if c == b'%'
    then (if escape_follows s then c ∷ [] else b'%' ∷ b'2' ∷ b'5' ∷ [])
    else if leb c b' ' || leb 0x7f c || is_delimiter c
    then percent c
    else c ∷ []

-- `EncodeRawPath`
unfoldable pub encode_raw_path : Bytes → Bytes
unfolding encode_byte
encode_raw_path [] = []
encode_raw_path (c ∷ s) = encode_byte c s ++ encode_raw_path s

keeps_escapes :
    encode_raw_path (codes "/a b?x=%20&y=100%&z={1}") ≡ codes "/a%20b?x=%20&y=100%25&z=%7B1%7D"
unfolding encode_raw_path
keeps_escapes = refl

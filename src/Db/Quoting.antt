-- ===== src/Db/Quoting.antt =====
-- Quoting of sequences.go and a reader of quoted SQL tokens.
use postgrest_conformance.Base.{
  ℕ, Bool, true, false, not, [], ◌∷◌, ◌++◌, Option, none, some, ◌≡◌, ◌∙◌, if◌then◌else◌, ◌==◌,
  ==_refl, ==_iff, arith, Bool-cases, inl, inr, append_assoc,
}
use postgrest_conformance.Base.Text.{Bytes, replace_all}
use postgrest_conformance.Db.{quote_with, quote_ident, quote_literal}

abbrev add_byte : ℕ → Option (Bytes × Bytes) → Option (Bytes × Bytes)
add_byte c none = none
add_byte c (some (s, rest)) = some (c ∷ s, rest)

-- What stands in front of the closing quote, with two quotes read as one, and what stands behind it.
unfoldable pub read_to_quote : ℕ → Bytes → Option (Bytes × Bytes)
read_to_quote q [] = none
read_to_quote q (c ∷ []) = if c == q then some ([], []) else none
read_to_quote q (c ∷ d ∷ s) =
    if c == q
    then (if d == q then add_byte q (read_to_quote q s) else some ([], d ∷ s))
    else add_byte c (read_to_quote q (d ∷ s))

-- The quoted token that a text starts with, and the rest of the text.
unfoldable pub read_quoted : ℕ → Bytes → Option (Bytes × Bytes)
unfolding read_to_quote
read_quoted q [] = none
read_quoted q (c ∷ s) = if c == q then read_to_quote q s else none

-- A text that does not go on with the quote.
abbrev pub starts_elsewhere : ℕ → Bytes → Bool
starts_elsewhere q [] = true
starts_elsewhere q (c ∷ s) = not (c == q)

read_other :
    (q c : ℕ) (s : Bytes)
    → (c == q) ≡ false
    → read_to_quote q (c ∷ s) ≡ add_byte c (read_to_quote q s)
unfolding read_to_quote
read_other q c [] h = rw h
read_other q c (d ∷ s) h = rw h

read_doubled : (q : ℕ) (s : Bytes) → read_to_quote q (q ∷ q ∷ s) ≡ add_byte q (read_to_quote q s)
unfolding read_to_quote
read_doubled q s = rw (==_refl q)

read_end :
    (q : ℕ) (rest : Bytes)
    → starts_elsewhere q rest ≡ true
    → read_to_quote q (q ∷ rest) ≡ some ([], rest)
unfolding read_to_quote
read_end q [] h = rw (==_refl q)
read_end q (d ∷ rest) h = let e : (d == q) ≡ false = ground (arith, h) in rw (==_refl q, e)

replace_all-cons :
    (c q : ℕ) (s r : Bytes)
    → replace_all (c ∷ s) q r ≡ (if c == q then r ++ replace_all s q r else c ∷ replace_all s q r)
unfolding replace_all
replace_all-cons c q s r = elim (Bool-cases (c == q)) [
  | inl doubled ↦ rw doubled
  | inr plain ↦ rw plain
]

read-replaced :
    (q : ℕ) (s rest : Bytes)
    → starts_elsewhere q rest ≡ true
    → read_to_quote q (replace_all s q (q ∷ q ∷ []) ++ q ∷ rest) ≡ some (s, rest)
read-replaced q [] rest h = unfold replace_all in read_end q rest h
read-replaced q (c ∷ s) rest h = elim (Bool-cases (c == q)) [
  | inl doubled ↦
      let same : c ≡ q = (==_iff c q).0 doubled in
      rw (replace_all-cons c q s (q ∷ q ∷ []), doubled)
        (read_doubled q (replace_all s q (q ∷ q ∷ []) ++ q ∷ rest)
          ∙ rw (read-replaced q s rest h, same))
  | inr plain ↦
      rw (replace_all-cons c q s (q ∷ q ∷ []), plain)
        (read_other q c (replace_all s q (q ∷ q ∷ []) ++ q ∷ rest) plain
          ∙ rw (read-replaced q s rest h))
]

read_quoted-quote_with :
    (q : ℕ) (s rest : Bytes)
    → starts_elsewhere q rest ≡ true
    → read_quoted q (quote_with q s ++ rest) ≡ some (s, rest)
unfolding quote_with read_quoted
read_quoted-quote_with q s rest h = rw (==_refl q, append_assoc) (read-replaced q s rest h)

-- A quoted identifier and a quoted literal are read back as the text that was quoted, whatever bytes
-- it has, with what follows left over, if that starts with neither kind of quote.
pub read_quoted-quote :
    (s rest : Bytes)
    → starts_elsewhere b'"' rest ≡ true
    → starts_elsewhere b'\'' rest ≡ true
    → (read_quoted b'"' (quote_ident s ++ rest) ≡ some (s, rest))
      × (read_quoted b'\'' (quote_literal s ++ rest) ≡ some (s, rest))
unfolding quote_ident quote_literal
read_quoted-quote s rest h k =
    (read_quoted-quote_with b'"' s rest h, read_quoted-quote_with b'\'' s rest k)

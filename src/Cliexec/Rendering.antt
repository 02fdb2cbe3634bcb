-- ===== src/Cliexec/Rendering.antt =====
-- The configuration file of cliexec.go and a reader of such files: `key = "value"` lines, with a
-- backslash in front of a quote or a backslash of a value.
use postgrest_conformance.Base.{
  ℕ, zero, suc, Bool, true, false, not, List, [], ◌∷◌, ◌++◌, Option, none, some, ◌≡◌, refl, ◌∙◌, ap,
  if◌then◌else◌, ◌==◌, ==_iff, arith, Bool-cases, inl, inr, append_assoc, length, all, map,
  is_empty, drop, ◌>>=◌, All,
}
use postgrest_conformance.Base.Text.{Bytes, codes, replace_all, has_prefix, str_eq, str_eq_refl}
use postgrest_conformance.Base.Assoc.{Assoc, lookup, keys, mem}
use postgrest_conformance.Base.Sort.{sort_strings, All-sort}
use postgrest_conformance.Base.Result.{ok}
use postgrest_conformance.Value.{Value, string, Golib}
use postgrest_conformance.Cliexec.{escape, render_config_value, render_lines, render_config_file}

abbrev pub put_byte : ℕ → Option (Bytes × Bytes) → Option (Bytes × Bytes)
put_byte c none = none
put_byte c (some (s, rest)) = some (c ∷ s, rest)

-- What stands in front of the closing quote, without the escapes, and what stands behind it.
unfoldable pub read_escaped : Bytes → Option (Bytes × Bytes)
read_escaped [] = none
read_escaped (c ∷ []) = if c == b'"' then some ([], []) else none
read_escaped (c ∷ d ∷ s) =
    let escaped = read_escaped s in
    let rest = read_escaped (d ∷ s) in
    if c == b'"'
    then some ([], d ∷ s)
    else if c == b'\\'
    then put_byte d escaped
    else put_byte c rest

-- What stands in front of the first space, and what stands behind it.
unfoldable pub read_key : Bytes → Option (Bytes × Bytes)
read_key [] = none
read_key (c ∷ s) = let rest = read_key s in if c == b' ' then some ([], s) else put_byte c rest

abbrev pub end_line : Bytes → Option (Bytes × Bytes) → Option ((Bytes × Bytes) × Bytes)
end_line key none = none
end_line key (some (v, [])) = none
end_line key (some (v, c ∷ rest)) = if c == b'\n' then some ((key, v), rest) else none

-- An equals sign, a space, a quoted value and the end of the line.
abbrev pub end_entry : Option (Bytes × Bytes) → Option ((Bytes × Bytes) × Bytes)
end_entry none = none
end_entry (some (key, s)) =
    if has_prefix s (codes "= \"") then end_line key (read_escaped (drop 3 s)) else none

-- The entry that a text starts with, and the lines behind it.
unfoldable pub read_line : Bytes → Option ((Bytes × Bytes) × Bytes)
unfolding read_key read_escaped has_prefix
read_line s = end_entry (read_key s)

-- A text of as many lines as are asked for.
unfoldable pub read_lines : ℕ → Bytes → Option (Assoc Bytes)
unfolding read_line
read_lines zero s = if is_empty s then some [] else none
read_lines (suc n) s =
    read_line s >>= λ entry. (read_lines n entry.1 >>= λ entries. some (entry.0 ∷ entries))

escape-cons :
    (c : ℕ) (s : Bytes)
    → escape (c ∷ s) ≡ (
        if c == b'"'
        then b'\\' ∷ b'"' ∷ escape s
        else if c == b'\\'
        then b'\\' ∷ b'\\' ∷ escape s
        else c ∷ escape s)
unfolding escape replace_all
escape-cons c s = elim (Bool-cases (c == b'\\')) [
  | inl back ↦ let same : c ≡ b'\\' = (==_iff c b'\\').0 back in rw same refl
  | inr other ↦ elim (Bool-cases (c == b'"')) [
    | inl quote ↦ let same : c ≡ b'"' = (==_iff c b'"').0 quote in rw same refl
    | inr plain ↦ rw (other, plain) refl
  ]
]

read_end : (rest : Bytes) → read_escaped (b'"' ∷ rest) ≡ some ([], rest)
unfolding read_escaped
read_end [] = refl
read_end (d ∷ rest) = refl

read_plain :
    (c : ℕ) (s : Bytes)
    → (c == b'"') ≡ false
    → (c == b'\\') ≡ false
    → read_escaped (c ∷ s) ≡ put_byte c (read_escaped s)
unfolding read_escaped
read_plain c [] h k = rw h refl
read_plain c (d ∷ s) h k = rw (h, k) refl

read_backslash : (d : ℕ) (s : Bytes) → read_escaped (b'\\' ∷ d ∷ s) ≡ put_byte d (read_escaped s)
unfolding read_escaped
read_backslash d s = refl

-- A value is read back as it was, with what stands behind it.
read_escaped-escape : (s rest : Bytes) → read_escaped (escape s ++ b'"' ∷ rest) ≡ some (s, rest)
read_escaped-escape [] rest = unfold escape replace_all in read_end rest
read_escaped-escape (c ∷ s) rest = elim (Bool-cases (c == b'"')) [
  | inl quote ↦
      let same : c ≡ b'"' = (==_iff c b'"').0 quote in
      rw (escape-cons c s, same)
        (read_backslash b'"' (escape s ++ b'"' ∷ rest) ∙ rw (read_escaped-escape s rest) refl)
  | inr other ↦ elim (Bool-cases (c == b'\\')) [
    | inl back ↦
        let same : c ≡ b'\\' = (==_iff c b'\\').0 back in
        rw (escape-cons c s, same)
          (read_backslash b'\\' (escape s ++ b'"' ∷ rest) ∙ rw (read_escaped-escape s rest) refl)
    | inr plain ↦
        rw (escape-cons c s, other, plain)
          (read_plain c (escape s ++ b'"' ∷ rest) other plain
            ∙ rw (read_escaped-escape s rest) refl)
  ]
]

read_key-append :
    (k s : Bytes) → all (λ c. not (c == b' ')) k ≡ true → read_key (k ++ b' ' ∷ s) ≡ some (k, s)
unfolding read_key
read_key-append [] s h = refl
read_key-append (c ∷ k) s h =
    let other : (c == b' ') ≡ false = ground (arith, h) in
    let rest : all (λ x. not (x == b' ')) k ≡ true = ground (arith, h) in
    rw (other, read_key-append k s rest) refl

-- A map of texts, as configuration values.
abbrev pub strings : Assoc Bytes → Assoc Value
strings [] = []
strings ((k, s) ∷ m) = (k, string s) ∷ strings m

abbrev as_text : Option Bytes → Bytes
as_text none = []
as_text (some s) = s

-- The text of a key.
abbrev pub text_at : Assoc Bytes → Bytes → Bytes
text_at m k = as_text (lookup k m)

-- The entries of a map in the order of some keys.
abbrev pub entries_at : Assoc Bytes → List Bytes → Assoc Bytes
entries_at m ks = map (λ k. (k, text_at m k)) ks

abbrev pub has_no_space : Bytes → Bool
has_no_space k = all (λ c. not (c == b' ')) k

abbrev IsReadable : Assoc Bytes → Bytes → Type 0
IsReadable m k = (mem k (keys m) ≡ true) × (has_no_space k ≡ true)

lookup-strings :
    (k : Bytes) (m : Assoc Bytes)
    → mem k (keys m) ≡ true
    → lookup k (strings m) ≡ some (string (text_at m k))
unfolding lookup
lookup-strings k [] h = cc
lookup-strings k ((j, s) ∷ m) h = elim (Bool-cases (str_eq j k)) [
  | inl here ↦ rw here refl
  | inr later ↦ rw later (lookup-strings k m (ground (arith, h, later)))
]

line : Bytes → Bytes → Bytes → Bytes
line k s rest = k ++ (codes " = " ++ ((b'"' ∷ (escape s ++ b'"' ∷ [])) ++ (b'\n' ∷ rest)))

read_line-line :
    (k s rest : Bytes) → has_no_space k ≡ true → read_line (line k s rest) ≡ some ((k, s), rest)
unfolding line read_line has_prefix
read_line-line k s rest h =
    rw
      (
        read_key-append k (codes "= " ++ ((b'"' ∷ (escape s ++ b'"' ∷ [])) ++ (b'\n' ∷ rest))) h,
        append_assoc (escape s) (b'"' ∷ []) (b'\n' ∷ rest),
        read_escaped-escape s (b'\n' ∷ rest),
      )
      refl

read-render_lines :
    (go : Golib) (m : Assoc Bytes) (ks : List Bytes)
    → All (IsReadable m) ks
    → (text : Bytes) × (render_lines go (strings m) ks ≡ ok text)
      × (read_lines (length ks) text ≡ some (entries_at m ks))
unfolding read_lines render_lines render_config_value line
read-render_lines go m [] h = ([], refl, refl)
read-render_lines go m (k ∷ ks) h =
    let (text, made, back) = read-render_lines go m ks h.1 in
    (
      line k (text_at m k) text,
      (rw (lookup-strings k m h.0.0, made) refl),
      rw (read_line-line k (text_at m k) text h.0.1, back) refl,
    )

All-mem-cons :
    (j : Bytes) (ks is : List Bytes)
    → All (λ k. mem k ks ≡ true) is
    → All (λ k. mem k (j ∷ ks) ≡ true) is
All-mem-cons j ks [] h = tt
All-mem-cons j ks (i ∷ is) h = (ground (arith, h.0), All-mem-cons j ks is h.1)

All-mem : (ks : List Bytes) → All (λ k. mem k ks ≡ true) ks
All-mem [] = tt
All-mem (k ∷ ks) = (rw (str_eq_refl k) refl, All-mem-cons k ks ks (All-mem ks))

All-IsReadable :
    (m : Assoc Bytes) (ks : List Bytes)
    → All (λ k. mem k (keys m) ≡ true) ks
    → all has_no_space ks ≡ true
    → All (IsReadable m) ks
All-IsReadable m [] h plain = tt
All-IsReadable m (k ∷ ks) h plain =
    ((h.0, ground (arith, plain)), All-IsReadable m ks h.1 (ground (arith, plain)))

keys-strings : (m : Assoc Bytes) → keys (strings m) ≡ keys m
keys-strings [] = refl
keys-strings ((k, s) ∷ m) = ap (λ ks. k ∷ ks) (keys-strings m)

-- A configuration of texts, whatever bytes they have, quotes, backslashes and line ends included, is
-- rendered without a panic, and the rendered text is read back as the same entries in the order of their
-- keys, if no key has a space.
pub read_lines-render_config_file :
    (go : Golib) (m : Assoc Bytes)
    → all has_no_space (keys m) ≡ true
    → (text : Bytes) × (render_config_file go (strings m) ≡ ok text)
      × (read_lines (length (sort_strings (keys m))) text
          ≡ some (entries_at m (sort_strings (keys m))))
unfolding render_config_file
read_lines-render_config_file go m plain = rw (keys-strings m) (
    read-render_lines go m (sort_strings (keys m))
      (All-sort _ _ (keys m) (All-IsReadable m (keys m) (All-mem (keys m)) plain)))

-- ===== src/Validate/CliShape.antt =====
-- tools/oracle/internal/validate/clishape.go: what the documents say of the cases of the command line, against
-- the cases themselves. The expressions that find a claim in a document are parameters, one for each
-- claim; the three small ones that read a band of ids are written out.
pub mod Reading
pub mod Claims
use postgrest_conformance.Base.{
  ℕ, suc, zero, ◌+◌, ◌-◌, ◌*◌, ◌^◌, Bool, true, false, not, ◌&&◌, ◌||◌, List, [], ◌∷◌, ◌++◌, Option,
  none, some, if◌then◌else◌, is_empty, length, keep, drop, map, leb, ltb, ◌==◌,
}
use postgrest_conformance.Base.Text.{Bytes, codes, str_eq, has_prefix, trim_space, join}
use postgrest_conformance.Base.Assoc.{Assoc, lookup, insert}
use postgrest_conformance.Base.Int.{ℤ, pos, int_eq, int_le}
use postgrest_conformance.Base.Decimal.{atoi, int_text, is_digit}
use postgrest_conformance.Base.Result.{Result, ok, err, ◌>>=◌}
use postgrest_conformance.Base.Sort.{sort}
use postgrest_conformance.Run.{int_in}

-- `cliClaim`; `re` finds the claim in a text, and gives the names of its groups with what they matched
pub record CliClaim : Type 0 where
  pub doc : Bytes
  pub what : Bytes
  pub re : Bytes → Option (List (Bytes × Bytes))

-- `cliFacts`; the ids are a set
pub record CliFacts : Type 0 where
  pub ids : List ℤ
  pub flags : Assoc ℤ

pub data Finding : Type 0 where
  not_found : Bytes → Bytes → Finding
  wrong_count : Bytes → Bytes → Bytes → ℤ → Finding
  wrong_ids : Bytes → Bytes → Bytes → Bytes → Finding
  wrong_flag : Bytes → Bytes → Bytes → Bytes → ℤ → Finding

-- `flagGroups`
abbrev pub flag_groups : Assoc Bytes
flag_groups =
    (codes "dumpconfig", codes "--dump-config")
    ∷ (codes "ready", codes "--ready")
    ∷ (codes "example", codes "--example")
    ∷ []

abbrev pub has_byte : ℕ → Bytes → Bool
has_byte b [] = false
has_byte b (c ∷ s) = c == b || has_byte b s

-- `cliParenRe` replaced by nothing; the flag says that a parenthesis is open
unfoldable pub strip_parens : Bool → Bytes → Bytes
strip_parens is_open [] = []
strip_parens true (c ∷ s) =
    let out = strip_parens false s in let on = strip_parens true s in if c == b')' then out else on
strip_parens false (c ∷ s) =
    let out = strip_parens false s in
    let on = strip_parens true s in if c == b'(' && has_byte b')' s then on else c ∷ out

abbrev pub is_word_byte : ℕ → Bool
is_word_byte c = is_digit c || (leb b'A' c && leb c b'Z') || (leb b'a' c && leb c b'z') || c == b'_'

abbrev pub starts_word : Bytes → Bool
starts_word [] = false
starts_word (c ∷ s) = is_word_byte c

abbrev pub put_byte : ℕ → List Bytes → List Bytes
put_byte c [] = (c ∷ []) ∷ []
put_byte c (p ∷ ps) = (c ∷ p) ∷ ps

-- `plus` between two boundaries of words, of whether a word goes on to here
abbrev pub is_plus : Bool → Bytes → Bool
is_plus in_word s = not in_word && has_prefix s (codes "plus") && not (starts_word (drop 4 s))

-- the pieces that `cliPieceRe` splits into, of the bytes of a separator that are still to come
unfoldable pub split_band : ℕ → Bool → Bytes → List Bytes
unfolding has_prefix
split_band left in_word [] = [] ∷ []
split_band (suc left) in_word (c ∷ s) = split_band left (is_word_byte c) s
split_band zero in_word (c ∷ s) =
    let plain = split_band zero false s in
    let word = split_band 3 true s in
    let same = split_band zero (is_word_byte c) s in
    if c == b',' || c == b'+'
    then [] ∷ plain
    else if is_plus in_word (c ∷ s)
    then [] ∷ word
    else put_byte c same

-- the runs of digits that `cliNumRe` finds, of whether a run goes on to here
unfoldable pub find_nums : Bool → Bytes → List Bytes
find_nums inside [] = if inside then [] ∷ [] else []
find_nums inside (c ∷ s) =
    let inner = find_nums true s in
    let outer = find_nums false s in
    if is_digit c then put_byte c inner else if inside then [] ∷ outer else outer

-- `strconv.Atoi` of digits, without its error: the value, and the largest int where it is too large
unfoldable pub digits_value : ℕ → Bytes → ℕ
digits_value acc [] = acc
digits_value acc (c ∷ s) = digits_value (acc * 10 + (c - b'0')) s

unfoldable pub clamped : Bytes → ℕ
unfolding digits_value
clamped s = if ltb (digits_value 0 s) (2 ^ 63) then digits_value 0 s else 2 ^ 63 - 1

-- so many ids from one on
unfoldable pub ids_from : ℕ → ℕ → List ℤ
ids_from lo zero = []
ids_from lo (suc n) = pos lo ∷ ids_from (suc lo) n

-- the ids of one piece, of its numbers; the source's loop does not end where the upper bound is the
-- largest int
unfoldable pub piece_ids : List Bytes → List ℤ
unfolding ids_from clamped
piece_ids (lo ∷ hi ∷ []) = ids_from (clamped lo) (suc (clamped hi) - clamped lo)
piece_ids (n ∷ []) = pos (clamped n) ∷ []
piece_ids _ = []

unfoldable pub band_ids : List Bytes → List ℤ
unfolding piece_ids find_nums
band_ids [] = []
band_ids (p ∷ ps) = piece_ids (find_nums false p) ++ band_ids ps

abbrev pub band_pieces : Bytes → List Bytes
band_pieces s = split_band zero false (strip_parens false s)

-- `parseCLIBand`
unfoldable pub parse_cli_band : Bytes → List ℤ
unfolding band_ids split_band strip_parens
parse_cli_band s = band_ids (band_pieces s)

-- `joinInts`
unfoldable pub join_ints : List ℤ → Bytes
unfolding join int_text
join_ints ns = join (map int_text ns) (codes ", ")

-- the ids of the first set that are not in the second, sorted
unfoldable pub lacking : List ℤ → List ℤ → List ℤ
unfolding int_in sort int_le
lacking ns ms = sort int_le (keep (λ n. not (int_in n ms)) ns)

abbrev pub part : Bytes → List ℤ → List Bytes
part label [] = []
part label (n ∷ ns) = (label ++ join_ints (n ∷ ns)) ∷ []

abbrev pub omits : Bytes
omits = codes "omits CLI cases on disk: "

abbrev pub names_others : Bytes
names_others = codes "names ids that are not CLI cases: "

-- `setDiff`
unfoldable pub set_diff : List ℤ → List ℤ → Bytes
unfolding join lacking join_ints
set_diff claimed actual =
    join (part omits (lacking actual claimed) ++ part names_others (lacking claimed actual))
      (codes "; ")

-- a number that a document says, against the number of the tree
unfoldable pub is_number : Bytes → ℤ → Bool
unfolding atoi int_eq
is_number got want = same (atoi got)
  where
    same : Option ℤ → Bool
    same none = false
    same (some n) = int_eq n want

-- a missing flag counts 0
abbrev pub or_zero : Option ℤ → ℤ
or_zero none = pos 0
or_zero (some n) = n

abbrev pub verify_flag : CliClaim → CliFacts → Bytes → Option Bytes → List Finding
verify_flag c facts got none = []
verify_flag c facts got (some flag) =
    let want = or_zero (lookup flag facts.flags) in
    if is_number got want then [] else wrong_flag c.doc c.what got flag want ∷ []

-- one turn of the loop of `verify`
unfoldable pub verify_group : CliClaim → CliFacts → Bytes → Bytes → List Finding
unfolding str_eq is_number parse_cli_band set_diff lookup
verify_group c facts name got =
    let want : ℤ = pos (length facts.ids) in
    let diff = set_diff (parse_cli_band got) facts.ids in
    if str_eq name (codes "count")
    then (if is_number got want then [] else wrong_count c.doc c.what got want ∷ [])
    else if str_eq name (codes "ids")
    then (if is_empty diff then [] else wrong_ids c.doc c.what got diff ∷ [])
    else verify_flag c facts got (lookup name flag_groups)

-- `verify`
unfoldable pub verify : CliClaim → CliFacts → List (Bytes × Bytes) → List Finding
unfolding verify_group trim_space
verify c facts [] = []
verify c facts ((name, text) ∷ groups) =
    (if is_empty name then [] else verify_group c facts name (trim_space text))
    ++ verify c facts groups

abbrev pub checked : CliClaim → CliFacts → Option (List (Bytes × Bytes)) → List Finding
checked c facts none = not_found c.doc c.what ∷ []
checked c facts (some groups) = verify c facts groups

abbrev pub text_of : Option Bytes → Bytes
text_of none = []
text_of (some t) = t

-- the second loop of `checkCLIShape`
unfoldable pub check_claims : List CliClaim → CliFacts → Assoc Bytes → List Finding
unfolding verify lookup
check_claims [] facts texts = []
check_claims (c ∷ cs) facts texts =
    checked c facts (c.re (text_of (lookup c.doc texts))) ++ check_claims cs facts texts

-- the text of a document, and the texts that are known then
abbrev pub read_doc :
    (Bytes → Result Bytes Bytes) → Bytes → Assoc Bytes → Option Bytes → Result Bytes (Assoc Bytes)
read_doc read doc texts (some t) = ok texts
read_doc read doc texts none = read doc >>= λ t. ok (insert doc t texts)

-- the first loop, which reads each document once
unfoldable pub read_docs :
    (Bytes → Result Bytes Bytes) → List CliClaim → Assoc Bytes → Result Bytes (Assoc Bytes)
unfolding lookup insert
read_docs read [] texts = ok texts
read_docs read (c ∷ cs) texts =
    read_doc read c.doc texts (lookup c.doc texts) >>= λ more. read_docs read cs more

-- `checkCLIShape`, of the claims and of the reading of a document
unfoldable pub check_cli_shape :
    (Bytes → Result Bytes Bytes) → List CliClaim → CliFacts → Result Bytes (List Finding)
unfolding read_docs check_claims
check_cli_shape read claims facts =
    if is_empty facts.ids
    then ok []
    else (read_docs read claims [] >>= λ texts. ok (check_claims claims facts texts))

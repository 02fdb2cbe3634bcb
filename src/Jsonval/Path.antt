-- ===== src/Jsonval/Path.antt =====
-- tools/oracle/internal/jsonval/jsonpath.go: the subset of JSONPath that the cases use.
pub mod Grammar
pub mod Decides
pub mod Select
use postgrest_conformance.Base.{
  ℕ, zero, suc, ◌+◌, ◌-◌, Bool, true, false, not, ◌&&◌, ◌||◌, List, [], ◌∷◌, ◌++◌, Option, none,
  some, ◌≡◌, refl, ◌==◌, if◌then◌else◌, length, any, get_elem?,
}
use postgrest_conformance.Base.Text.{Bytes, codes}
use postgrest_conformance.Base.Decimal.{atoi}
use postgrest_conformance.Base.Assoc.{lookup}
use postgrest_conformance.Base.Int.{ℤ, pos, negsuc}
use postgrest_conformance.Base.Result.{Result, ok, err, ◌>>=◌}
use postgrest_conformance.Value.{Value, array, object, to_list, entries}

-- `pathStep`: its flag `isIndex` tells the two apart
pub data PathStep : Type 0 where
  key : Bytes → PathStep
  idx : ℕ → PathStep

-- The messages of `parsePath`; `out_of_fuel` is no message, and is never answered.
pub data PathError : Type 0 where
  no_dollar descent empty_member unclosed escapes out_of_fuel : PathError
  selector : Bytes → PathError
  unexpected : ℕ → PathError

abbrev pub dot : ℕ
dot = b'.'

abbrev pub open_bracket : ℕ
open_bracket = b'['

abbrev pub close_bracket : ℕ
close_bracket = b']'

abbrev pub quote : ℕ
quote = b'\''

abbrev pub backslash : ℕ
backslash = b'\\'

-- `rest[:end]` and `rest[end:]` for the `end` of `strings.IndexAny(rest, ".[")`
unfoldable pub member : Bytes → Bytes × Bytes
member [] = ([], [])
member (c ∷ s) =
    let (name, rest) = member s in
    if c == dot || c == open_bracket then ([], c ∷ s) else (c ∷ name, rest)

-- what stands before and behind the first `]`
unfoldable pub bracket : Bytes → Option (Bytes × Bytes)
bracket [] = none
bracket (c ∷ s) =
    if c == close_bracket
    then some ([], s)
    else elim (bracket s) [ none ↦ none | some (inner, rest) ↦ some (c ∷ inner, rest) ]

-- `inner[1 : len(inner)-1]` where `inner`, behind its first quote, ends in a quote
unfoldable pub unquote : Bytes → Option Bytes
unquote [] = none
unquote (c ∷ []) = if c == quote then some [] else none
unquote (c ∷ d ∷ s) = elim (unquote (d ∷ s)) [ none ↦ none | some k ↦ some (c ∷ k) ]

abbrev is_escape : ℕ → Bool
is_escape c = c == quote || c == backslash

quoted_step : Bytes → Result PathError PathStep
quoted_step k = if any is_escape k then err escapes else ok (key k)

index_of : Bytes → Option ℤ → Result PathError PathStep
index_of inner (some (pos n)) = ok (idx n)
index_of inner _ = err (selector inner)

quoted_or_index : Bytes → Option Bytes → Result PathError PathStep
unfolding quoted_step index_of
quoted_or_index inner (some k) = quoted_step k
quoted_or_index inner none = index_of inner (atoi inner)

-- the step that the text inside brackets stands for
unfoldable pub selector_step : Bytes → Result PathError PathStep
unfolding quoted_or_index unquote
selector_step [] = quoted_or_index [] none
selector_step (c ∷ s) = quoted_or_index (c ∷ s) (if c == quote then unquote s else none)

-- one turn of the loop on a text that is not empty: a step and the rest, or an error
unfoldable pub next_step : ℕ → Bytes → Result PathError (PathStep × Bytes)
unfolding member bracket
next_step c s =
    if c == dot
    then elim s [
      | [] ↦ err empty_member
      | d ∷ r ↦
          if d == dot
          then err descent
          else if d == open_bracket
          then err empty_member
          else ok (key (member (d ∷ r)).0, (member (d ∷ r)).1)
    ]
    else if c == open_bracket
    then elim (bracket s) [
      | none ↦ err unclosed
      | some (inner, rest) ↦ selector_step inner >>= λ step. ok (step, rest)
    ]
    else err (unexpected c)

-- `for len(rest) > 0`, on fuel: each turn takes a byte at least
unfoldable pub steps_of : ℕ → Bytes → Result PathError (List PathStep)
steps_of f [] = ok []
steps_of zero (c ∷ s) = err out_of_fuel
steps_of (suc f) (c ∷ s) =
    next_step c s >>= λ (step, rest). steps_of f rest >>= λ steps. ok (step ∷ steps)

unfoldable pub parse_path : Bytes → Result PathError (List PathStep)
unfolding steps_of next_step selector_step
parse_path [] = err no_dollar
parse_path (c ∷ rest) = if c == b'$' then steps_of (length rest) rest else err no_dollar

-- one step from the value at hand; `none` where the value has no such member or element
unfoldable pub select : PathStep → Value → Option Value
select (idx n) (array xs) = get_elem? (to_list xs) n
select (idx n) _ = none
select (key k) (object fs) = lookup k (entries fs)
select (key k) _ = none

unfoldable pub select_all : List PathStep → Value → Option Value
unfolding select
select_all [] v = some v
select_all (s ∷ ss) v = elim (select s v) [ none ↦ none | some w ↦ select_all ss w ]

-- `EvalPath`: an error, or the value if it is found
unfoldable pub eval_path : Value → Bytes → Result PathError (Option Value)
unfolding parse_path select_all
eval_path doc path = parse_path path >>= λ steps. ok (select_all steps doc)

two_steps :
    parse_path (codes "$.a['b c'][12]") ≡ ok (key (codes "a") ∷ key (codes "b c") ∷ idx 12 ∷ [])
unfolding parse_path atoi
two_steps = refl

refused :
    (parse_path (codes "a") ≡ err no_dollar)
    × (parse_path (codes "$..a") ≡ err descent)
    × (parse_path (codes "$.[0]") ≡ err empty_member)
    × (parse_path (codes "$[-1]") ≡ err (selector (codes "-1")))
    × (parse_path (codes "$[0") ≡ err unclosed)
    × (parse_path (codes "$a") ≡ err (unexpected b'a'))
unfolding parse_path atoi
refused = (refl, refl, refl, refl, refl, refl)

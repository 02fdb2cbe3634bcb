-- ===== src/Tests/Paths.antt =====
-- Examples of the JSON paths, the comparison of documents and the paths of requests.
use postgrest_conformance.Base.{◌<◌, true, List, [], ◌∷◌, some, ◌≡◌, ◌≢◌, refl, ◌↔◌, All, arith}
use postgrest_conformance.Base.Text.{Bytes, codes, str_eq}
use postgrest_conformance.Base.Result.{ok, err}
use postgrest_conformance.Value.{
  Value, number, string, array, nil, cons, object, Fields, end, field, entries,
}
use postgrest_conformance.Jsonval.{deep_equal}
use postgrest_conformance.Jsonval.Objects.{Agree, deep_equal-objects}
use postgrest_conformance.Jsonval.Path.{
  PathStep, key, out_of_fuel, parse_path, select_all, eval_path,
}
use postgrest_conformance.Jsonval.Path.Grammar.{Spells, done, dotted}
use postgrest_conformance.Jsonval.Path.Decides.{parse_path_iff}
use postgrest_conformance.Jsonval.Path.Select.{Reaches, eval_path_iff}
use postgrest_conformance.Httpexec.PathEncoding.{encode_raw_path}
use postgrest_conformance.Httpexec.PathEncoding.Laws.{
  is_plain, escapes_whole, encode_raw_path-plain,
}
use postgrest_conformance.Httpexec.PathEncoding.Decoding.{percent_decode, decode-encode}
use postgrest_conformance.Base.Assoc.{lookup}
use postgrest_conformance.Assert.Body.{check_entry, check_body_jsonpath}
use postgrest_conformance.Assert.Predicates.{check_entry_iff, check_body_jsonpath_iff}
use postgrest_conformance.Tests.Samples.{library, ok_response}

abbrev steps : List PathStep
steps = key (codes "a") ∷ []

abbrev doc : Value
doc = object (field (codes "a") (number (codes "1.50")) end)

steps-Spells : Spells steps (codes ".a")
steps-Spells = dotted (codes "a") [] (λ h. cc) refl done refl

parse_path_iff_example :
    ((parse_path (codes "$.a") ≡ ok steps)
      ↔ ((s : Bytes) × (codes "$.a" ≡ b'$' ∷ s) × Spells steps s))
    × (parse_path (codes "$.a") ≢ err out_of_fuel)
parse_path_iff_example = parse_path_iff (codes "$.a") steps

eval_path_iff_example :
    (eval_path doc (b'$' ∷ codes ".a") ≡ ok (select_all steps doc))
    × ((w : Value) → (eval_path doc (b'$' ∷ codes ".a") ≡ ok (some w)) ↔ Reaches doc steps w)
eval_path_iff_example = eval_path_iff doc (codes ".a") steps steps-Spells

abbrev one_entry : Fields
one_entry = field (codes "a") (number (codes "1.50")) end

deep_equal-objects_example :
    (deep_equal library (object one_entry) (object one_entry) ≡ true)
    ↔ ((k : Bytes) → Agree library (lookup k (entries one_entry)) (lookup k (entries one_entry)))
deep_equal-objects_example = deep_equal-objects library one_entry one_entry refl refl

-- `/a b%2F`
abbrev raw : Bytes
raw = codes "/a b%2F"

raw-bytes : All (λ c. c < 256) raw
raw-bytes = (
  omega arith,
  (omega arith, (omega arith, (omega arith, (omega arith, (omega arith, (omega arith, tt)))))),
)

encode_raw_path-plain_example :
    All (λ b. is_plain b ≡ true) (encode_raw_path raw)
    × (escapes_whole (encode_raw_path raw) ≡ true)
    × (encode_raw_path (encode_raw_path raw) ≡ encode_raw_path raw)
encode_raw_path-plain_example = encode_raw_path-plain raw raw-bytes

decode-encode_example : percent_decode (encode_raw_path raw) ≡ percent_decode raw
decode-encode_example = decode-encode raw raw-bytes

abbrev entry : Fields
entry =
    field (codes "path") (string (codes "$.a")) (field (codes "equals") (number (codes "1.5")) end)

path_found : lookup (codes "path") (entries entry) ≡ some (string (b'$' ∷ codes ".a"))
unfolding lookup str_eq
path_found = refl

equals_found : lookup (codes "equals") (entries entry) ≡ some (number (codes "1.5"))
unfolding lookup str_eq
equals_found = refl

check_entry_iff_example : (check_entry library doc (object entry) ≡ []) ↔ (
    (got : Value) × Reaches doc steps got × (deep_equal library got (number (codes "1.5")) ≡ true))
check_entry_iff_example =
    check_entry_iff library doc entry (codes ".a") steps (number (codes "1.5")) path_found
      steps-Spells equals_found

check_body_jsonpath_iff_example :
    (check_body_jsonpath library ok_response (array (cons (object entry) nil)) ≡ []) ↔ (
      (d : Value) × (library.decode_json ok_response.body ≡ some d)
      × All (λ e. check_entry library d e ≡ []) (object entry ∷ []))
check_body_jsonpath_iff_example =
    check_body_jsonpath_iff library ok_response (cons (object entry) nil)

-- ===== src/Assert/Body.antt =====
-- The checks of assert.go on the body of a response.
use postgrest_conformance.Base.{
  Bool, true, false, ◌||◌, List, [], ◌∷◌, Option, none, some, if◌then◌else◌, is_empty, length,
}
use postgrest_conformance.Base.Text.{Bytes, codes, str_eq, contains}
use postgrest_conformance.Base.Assoc.{lookup}
use postgrest_conformance.Base.Result.{Result, ok, err}
use postgrest_conformance.Value.{Value, null, string, array, object, Items, Fields, entries, Golib}
use postgrest_conformance.Jsonval.{deep_equal}
use postgrest_conformance.Jsonval.Path.{PathError, eval_path}
use postgrest_conformance.Assert.{
  HttpResponse, Failure, bad_expectation, text_differs, body_not_empty, invalid_json, value_differs,
  not_contained, entry_not_mapping, path_refused, path_missing, path_differs, path_present,
  no_predicate, to_string_list, truthy, for_items, for_texts,
}

-- `v == nil || v == ""`
abbrev pub wants_empty : Value → Bool
wants_empty null = true
wants_empty (string []) = true
wants_empty _ = false

unfoldable pub equals_json : Golib → Bytes → Value → Option Value → List Failure
unfolding deep_equal
equals_json go key v none = invalid_json key ∷ []
equals_json go key v (some got) = if deep_equal go got v then [] else value_differs key got v ∷ []

-- `checkBodyExact`
unfoldable pub check_body_exact : Golib → Bytes → Bytes → Value → List Failure
unfolding equals_json
check_body_exact go key body v =
    if wants_empty v
    then (if is_empty body then [] else body_not_empty key (length body) ∷ [])
    else equals_json go key v (go.decode_json body)

-- `checkBodyContains`
unfoldable pub check_body_contains : Golib → HttpResponse → Value → List Failure
unfolding to_string_list for_texts contains
check_body_contains go r v =
    for_texts (λ s. if contains r.body s then [] else not_contained (codes "body_contains") s ∷ [])
      (to_string_list go v)

-- `checkBodyRaw`
unfoldable pub check_body_raw : HttpResponse → Value → List Failure
unfolding str_eq
check_body_raw r (string want) =
    if str_eq r.body want then [] else text_differs (codes "body_raw") r.body want ∷ []
check_body_raw r v = bad_expectation (codes "body_raw") ∷ []

-- `path, _ := entry["path"].(string)`
abbrev pub path_of : Option Value → Bytes
path_of (some (string s)) = s
path_of _ = []

-- `equals`
unfoldable pub found_equals : Golib → Bytes → Value → Option Value → List Failure
unfolding deep_equal
found_equals go path want none = path_missing path ∷ []
found_equals go path want (some got) =
    if deep_equal go got want then [] else path_differs path got want ∷ []

-- `present` and `exists`
unfoldable pub found_present : Bytes → Option Value → List Failure
found_present path none = path_missing path ∷ []
found_present path (some got) = []

-- `absent`
unfoldable pub found_absent : Bytes → Option Value → List Failure
found_absent path none = []
found_absent path (some got) = path_present path got ∷ []

-- an entry with no `equals`
unfoldable pub other_predicate : Fields → Bytes → Option Value → List Failure
unfolding found_present found_absent truthy lookup
other_predicate entry path found =
    if truthy (lookup (codes "present") (entries entry))
      || truthy (lookup (codes "exists") (entries entry))
    then found_present path found
    else if truthy (lookup (codes "absent") (entries entry))
    then found_absent path found
    else no_predicate path ∷ []

-- the predicate of an entry, on what its path found
unfoldable pub predicate : Golib → Fields → Bytes → Option Value → Option Value → List Failure
unfolding found_equals other_predicate
predicate go entry path (some want) found = found_equals go path want found
predicate go entry path none found = other_predicate entry path found

unfoldable pub evaluated : Golib → Fields → Bytes → Result PathError (Option Value) → List Failure
unfolding predicate lookup
evaluated go entry path (err e) = path_refused path e ∷ []
evaluated go entry path (ok found) =
    predicate go entry path (lookup (codes "equals") (entries entry)) found

-- one turn of the loop over the entries
unfoldable pub check_entry : Golib → Value → Value → List Failure
unfolding evaluated eval_path lookup
check_entry go doc (object entry) =
    let path = path_of (lookup (codes "path") (entries entry)) in
    evaluated go entry path (eval_path doc path)
check_entry go doc v = entry_not_mapping ∷ []

entries_on : Golib → Items → Option Value → List Failure
unfolding check_entry for_items
entries_on go es none = invalid_json (codes "body_jsonpath") ∷ []
entries_on go es (some doc) = for_items (check_entry go doc) es

-- `checkBodyJSONPath`
unfoldable pub check_body_jsonpath : Golib → HttpResponse → Value → List Failure
unfolding entries_on
check_body_jsonpath go r (array es) = entries_on go es (go.decode_json r.body)
check_body_jsonpath go r v = bad_expectation (codes "body_jsonpath") ∷ []

-- ===== src/Assert/Commands.antt =====
-- The checks of assert.go on a process of the command line.
use postgrest_conformance.Base.{true, false, List, [], ◌∷◌, Option, none, some, if◌then◌else◌}
use postgrest_conformance.Base.Text.{Bytes, codes, str_eq, contains}
use postgrest_conformance.Base.Int.{ℤ, pos, int_eq}
use postgrest_conformance.Value.{Value, bool, string, Golib}
use postgrest_conformance.Assert.{
  CliResult, Failure, bad_expectation, number_differs, exit_zero, not_contained, redump_missing,
  redump_differs, to_string_list, to_int, for_texts,
}

unfoldable pub exit_equals : ℤ → Option ℤ → List Failure
unfolding int_eq
exit_equals got none = bad_expectation (codes "exit_code") ∷ []
exit_equals got (some want) =
    if int_eq got want then [] else number_differs (codes "exit_code") got want ∷ []

-- `checkExitCode`
unfoldable pub check_exit_code : Golib → CliResult → Value → List Failure
unfolding exit_equals to_int str_eq
check_exit_code go r (string s) =
    if str_eq s (codes "nonzero")
    then (if int_eq r.exit_code (pos 0) then exit_zero ∷ [] else [])
    else bad_expectation (codes "exit_code") ∷ []
check_exit_code go r v = exit_equals r.exit_code (to_int go v)

-- `checkSubstrings`
unfoldable pub check_substrings : Golib → Bytes → Bytes → Value → List Failure
unfolding to_string_list for_texts contains
check_substrings go key output v =
    for_texts (λ s. if contains output s then [] else not_contained key s ∷ [])
      (to_string_list go v)

unfoldable pub redump_equals : Bytes → Option Bytes → List Failure
unfolding str_eq
redump_equals stdout none = redump_missing ∷ []
redump_equals stdout (some redump) =
    if str_eq stdout redump then [] else redump_differs redump stdout ∷ []

-- `checkDumpReparseStable`
unfoldable pub check_dump_reparse_stable : CliResult → Value → List Failure
unfolding redump_equals
check_dump_reparse_stable r (bool true) = redump_equals r.stdout r.redump
check_dump_reparse_stable r (bool false) = []
check_dump_reparse_stable r v = bad_expectation (codes "dump_reparse_stable") ∷ []

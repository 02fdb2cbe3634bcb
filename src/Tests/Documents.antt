-- ===== src/Tests/Documents.antt =====
-- Examples of the documents' claims and of the fetching of the binary.
use postgrest_conformance.Base.{
  Bool, true, is_empty, false, List, Option, [], ◌∷◌, none, some, ◌≡◌, refl, all, any,
}
use postgrest_conformance.Base.Text.{Bytes, codes, str_eq}
use postgrest_conformance.Base.Assoc.{Assoc}
use postgrest_conformance.Base.Int.{ℤ, pos, int_eq}
use postgrest_conformance.Base.Result.{Result, ok, is_ok}
use postgrest_conformance.Fetchbin.{Host, Scan, Entry, named, fetch}
use postgrest_conformance.Fetchbin.Trust.{is_trusted, Sound, Kept, fetch-Sound}
use postgrest_conformance.Value.{Value}
use postgrest_conformance.Cases.Load.{load_all}
use postgrest_conformance.Tests.Samples.{library, case_file}
use postgrest_conformance.Validate.Tree.{CaseFile, check_files}
use postgrest_conformance.Validate.Tree.Loadable.{documents, nothing_seen, is_ok-load_all}
use postgrest_conformance.Validate.Areas.{Note, AreaClaim, TotalLine, check_area_table, number_word}
use postgrest_conformance.Validate.CliShape.{
  clamped, split_band, strip_parens, CliClaim, CliFacts, find_nums, parse_cli_band, check_cli_shape,
}
use postgrest_conformance.Validate.CliShape.Claims.{claim_right, reports_none, check_cli_shape_lem}

abbrev band : Bytes
band = codes "102 (new 2026) plus 104-106"

reads_band : parse_cli_band band ≡ pos 102 ∷ pos 104 ∷ pos 105 ∷ pos 106 ∷ []
unfolding parse_cli_band
reads_band = refl

abbrev groups : List (Bytes × Bytes)
groups = ([], codes "whole") ∷ (codes "count", codes "2") ∷ (codes "ids", codes "7, 9") ∷ []

abbrev claim : CliClaim
claim = record { doc = codes "INDEX.md"; what = codes "the count"; re = λ text. some groups }

abbrev facts : CliFacts
facts = record { ids = pos 9 ∷ pos 7 ∷ []; flags = [] }

abbrev read : Bytes → Result Bytes Bytes
read path = ok (codes "text")

check_cli_shape_lem_example :
    reports_none (check_cli_shape read (claim ∷ []) facts)
    ≡ all (claim_right read facts) (claim ∷ [])
unfolding find_nums clamped split_band strip_parens str_eq
    postgrest_conformance.Base.Text.trim_space
check_cli_shape_lem_example = check_cli_shape_lem read (claim ∷ []) facts refl refl refl

abbrev pin : Scan
pin = record { lines = codes "postgrest: v1" ∷ []; failure = none }

abbrev sums : Scan
sums = record { lines = codes "ab  postgrest-v1-macos-aarch64.tar.xz" ∷ []; failure = none }

abbrev binary : Entry
binary = record { is_dir = false; name = codes "postgrest"; path = codes "/bin/postgrest" }

abbrev host : Host
host = record {
  pin = ok pin;
  sums = ok sums;
  goos = codes "darwin";
  goarch = codes "arm64";
  get = λ url. ok (pos 200, ok (codes "tarball"));
  store_error = λ content. none;
  stat_error = none;
  sha256_hex = λ content. codes "AB";
  mkdir_error = λ path. none;
  tar_error = λ content. none;
  walk = λ dir. ok (binary ∷ []);
  chmod_error = λ path. none;
}

fetch-Sound_example :
    Sound (is_trusted host (named host)) (fetch host none) × Kept none (fetch host none).cached
fetch-Sound_example = fetch-Sound host none

fetches : (fetch host none).answer ≡ ok (codes "/bin/postgrest")
unfolding fetch int_eq
fetches = refl

abbrev declared : Assoc AreaClaim
declared = (codes "rpc", record { count = 2; ranges = record { lo = pos 5; hi = pos 9 } ∷ [] }) ∷ []

abbrev closing : TotalLine
closing = record { cases = some 2; areas = some 1; breakdown = none }

abbrev area_ids : Assoc (List ℤ)
area_ids = (codes "rpc", pos 7 ∷ pos 9 ∷ []) ∷ []

abbrev note : Note
note = record { word = codes "Zero"; named = [] }

finds_nothing :
    check_area_table (codes "HARNESS.md") (some note) declared (some closing) area_ids 2 ≡ []
unfolding check_area_table str_eq postgrest_conformance.Base.Text.to_lower
finds_nothing = refl

spells : number_word 5 ≡ codes "five"
unfolding number_word
spells = refl

abbrev tree : List CaseFile
tree =
    record {
      path = codes "0007.yaml";
      rel = codes "cases/0007_limit.yaml";
      base = codes "0007_limit.yaml";
      document = ok case_file;
    }
    ∷ []

abbrev valid : Value → Option Bytes
valid v = none

abbrev pinned_anywhere : Bytes → Bool
pinned_anywhere s = true

checks_out : is_empty (check_files library valid pinned_anywhere tree nothing_seen).0 ≡ true
unfolding check_files
checks_out = refl

is_ok-load_all_example : is_ok (load_all library (documents tree)) ≡ true
is_ok-load_all_example = is_ok-load_all library valid pinned_anywhere tree checks_out

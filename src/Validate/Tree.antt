-- ===== src/Validate/Tree.antt =====
-- tools/oracle/internal/validate/validate.go, Tree: the loop over the case files. The schema's library and the
-- expression of a pinned source are parameters.
pub mod Loadable
use postgrest_conformance.Base.{
  ℕ, ◌+◌, Bool, true, false, not, ◌&&◌, List, [], ◌∷◌, ◌++◌, Option, none, some, if◌then◌else◌,
  ◌==◌,
}
use postgrest_conformance.Base.Text.{Bytes}
use postgrest_conformance.Base.Assoc.{Assoc, lookup, insert}
use postgrest_conformance.Base.Int.{ℤ, pos, int_eq}
use postgrest_conformance.Base.Decimal.{is_digit}
use postgrest_conformance.Base.Result.{Result, ok, err}
use postgrest_conformance.Value.{Value, Golib}
use postgrest_conformance.Cases.{Case, Kind, http, cli, LoadError}
use postgrest_conformance.Cases.Normalize.{normalize}
use postgrest_conformance.Cases.Load.{load}
use postgrest_conformance.Run.{int_in}
use postgrest_conformance.Validate.CliShape.{clamped}

-- A file under cases/: its path, its path from the root, its base name, and what yaml.v3 reads in it.
pub record CaseFile : Type 0 where
  pub path : Bytes
  pub rel : Bytes
  pub base : Bytes
  pub document : Result Bytes Value

pub data TreeFinding : Type 0 where
  unreadable bad_schema bad_source : Bytes → Bytes → TreeFinding
  not_loaded : Bytes → LoadError → TreeFinding
  duplicate : Bytes → ℤ → Bytes → TreeFinding
  bad_prefix : Bytes → ℤ → TreeFinding

-- `seen`, `areaIDs` and the two fields of `cli`
pub record Seen : Type 0 where
  pub paths : List (ℤ × Bytes)
  pub area_ids : Assoc (List ℤ)
  pub cli_ids : List ℤ
  pub cli_flags : Assoc ℕ

unfoldable pub path_at : ℤ → List (ℤ × Bytes) → Option Bytes
unfolding int_eq
path_at n [] = none
path_at n ((m, path) ∷ paths) = if int_eq n m then some path else path_at n paths

-- the digits that a name starts with, and what follows them
unfoldable pub leading_digits : Bytes → Bytes × Bytes
leading_digits [] = ([], [])
leading_digits (c ∷ s) =
    let rest = leading_digits s in if is_digit c then (c ∷ rest.0, rest.1) else ([], c ∷ s)

abbrev pub prefix_number : Bytes × Bytes → Option ℤ
prefix_number ([], rest) = none
prefix_number (d ∷ ds, []) = none
prefix_number (d ∷ ds, c ∷ rest) = if c == b'_' then some (pos (clamped (d ∷ ds))) else none

-- `filenameRe` and the number that it finds
unfoldable pub name_prefix : Bytes → Option ℤ
unfolding leading_digits clamped
name_prefix base = prefix_number (leading_digits base)

abbrev pub is_prefix : ℤ → Option ℤ → Bool
is_prefix id none = false
is_prefix id (some n) = int_eq n id

abbrev pub add_once : ℤ → List ℤ → List ℤ
add_once n ns = if int_in n ns then ns else n ∷ ns

abbrev pub ids_or_none : Option (List ℤ) → List ℤ
ids_or_none none = []
ids_or_none (some ns) = ns

abbrev pub count_or_zero : Option ℕ → ℕ
count_or_zero none = 0
count_or_zero (some n) = n

abbrev pub see_cli : Kind → Case → Seen → Seen
see_cli http c t = t
see_cli cli c t = record t {
  cli_ids = add_once c.id t.cli_ids;
  cli_flags =
      insert c.request.flag (count_or_zero (lookup c.request.flag t.cli_flags) + 1) t.cli_flags;
}

-- what is kept of a loaded case
unfoldable pub see : Bytes → Case → Seen → Seen
unfolding insert lookup int_in
see rel c t = see_cli c.request.kind c (record t {
  paths = (c.id, rel) ∷ t.paths;
  area_ids = insert c.area (add_once c.id (ids_or_none (lookup c.area t.area_ids))) t.area_ids;
})

abbrev pub duplicate_of : Bytes → ℤ → Option Bytes → List TreeFinding
duplicate_of rel id none = []
duplicate_of rel id (some previous) = duplicate rel id previous ∷ []

module _ (go : Golib) (schema_error : Value → Option Bytes) (is_pinned : Bytes → Bool) where
  -- the checks of a loaded case
  unfoldable pub check_case : CaseFile → Case → Seen → List TreeFinding
  unfolding path_at name_prefix int_eq
  check_case file c t =
      duplicate_of file.rel c.id (path_at c.id t.paths)
      ++ ((if is_prefix c.id (name_prefix file.base) then [] else bad_prefix file.rel c.id ∷ [])
          ++ (if is_pinned c.source then [] else bad_source file.rel c.source ∷ []))

  abbrev pub when_loaded : CaseFile → Result LoadError Case → Seen → List TreeFinding × Seen
  when_loaded file (err e) t = (not_loaded file.rel e ∷ [], t)
  when_loaded file (ok c) t = (check_case file c t, see file.rel c t)

  abbrev pub when_valid : CaseFile → Value → Option Bytes → Seen → List TreeFinding × Seen
  when_valid file doc (some e) t = (bad_schema file.rel e ∷ [], t)
  when_valid file doc none t = when_loaded file (load go file.path doc) t

  abbrev pub when_read : CaseFile → Result Bytes Value → Seen → List TreeFinding × Seen
  when_read file (err e) t = (unreadable file.rel e ∷ [], t)
  when_read file (ok doc) t = when_valid file doc (schema_error (normalize go doc)) t

  -- one turn of the loop
  unfoldable pub check_file : CaseFile → Seen → List TreeFinding × Seen
  unfolding check_case see load normalize
  check_file file t = when_read file file.document t

  abbrev pub put_findings : List TreeFinding → List TreeFinding × Seen → List TreeFinding × Seen
  put_findings fs (later, t) = (fs ++ later, t)

  -- the loop over the files of `Tree`
  unfoldable pub check_files : List CaseFile → Seen → List TreeFinding × Seen
  unfolding check_file
  check_files [] t = ([], t)
  check_files (file ∷ files) t =
      put_findings (check_file file t).0 (check_files files (check_file file t).1)

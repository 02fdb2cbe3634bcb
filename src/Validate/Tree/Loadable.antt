-- ===== src/Validate/Tree/Loadable.antt =====
-- Lemmas on the loop over the case files and on the loading of its files.
use postgrest_conformance.Base.{
  Bool, true, false, ◌||◌, List, [], ◌∷◌, ◌++◌, Option, none, some, ◌≡◌, refl, ◌∙◌, sym, ap,
  is_empty, is_some, arith, and_true,
}
use postgrest_conformance.Base.Text.{Bytes}
use postgrest_conformance.Base.Int.{ℤ, int_eq}
use postgrest_conformance.Base.Result.{Result, ok, err, is_ok, ◌>>=◌}
use postgrest_conformance.Value.{Value, null, Golib}
use postgrest_conformance.Cases.{Case, Kind, http, cli, LoadError}
use postgrest_conformance.Cases.Normalize.{normalize}
use postgrest_conformance.Cases.Load.Order.{has_id-append}
use postgrest_conformance.Cases.Load.{load, load_each, load_all, has_id}
use postgrest_conformance.Validate.CliShape.Claims.{is_empty-append}
use postgrest_conformance.Validate.Tree.{
  CaseFile, Seen, path_at, duplicate_of, see, see_cli, check_case, check_file, check_files,
  when_read, when_valid, when_loaded,
}

abbrev value_or_null : Result Bytes Value → Value
value_or_null (ok v) = v
value_or_null (err e) = null

-- The files with what they hold, as they are loaded.
abbrev pub documents : List CaseFile → List (Bytes × Value)
documents [] = []
documents (file ∷ files) = (file.path, value_or_null file.document) ∷ documents files

abbrev pub nothing_seen : Seen
nothing_seen = record { paths = []; area_ids = []; cli_ids = []; cli_flags = [] }

not_seen :
    (rel : Bytes) (id : ℤ) (o : Option Bytes) → is_empty (duplicate_of rel id o) ≡ true → o ≡ none
not_seen rel id none h = refl
not_seen rel id (some path) h = cc

paths-see_cli : (k : Kind) (c : Case) (t : Seen) → (see_cli k c t).paths ≡ t.paths
paths-see_cli http c t = refl
paths-see_cli cli c t = refl

paths-see : (rel : Bytes) (c : Case) (t : Seen) → (see rel c t).paths ≡ (c.id, rel) ∷ t.paths
unfolding see
paths-see rel c t = paths-see_cli c.request.kind c _

module _ (go : Golib) (schema_error : Value → Option Bytes) (is_pinned : Bytes → Bool) where
  -- A turn of the loop that gives no finding loaded a case with a new id, and keeps it.
  abbrev Fine : CaseFile → Result LoadError Case → Seen → Seen → Type 0
  Fine file loaded t after =
      (c : Case) × (loaded ≡ ok c) × (path_at c.id t.paths ≡ none) × (after ≡ see file.rel c t)

  loaded-Fine :
      (file : CaseFile) (r : Result LoadError Case) (t : Seen)
      → is_empty (when_loaded go schema_error is_pinned file r t).0 ≡ true
      → Fine file r t (when_loaded go schema_error is_pinned file r t).1
  unfolding check_case
  loaded-Fine file (err e) t h = cc
  loaded-Fine file (ok c) t h =
      let both = sym (is_empty-append (duplicate_of file.rel c.id (path_at c.id t.paths)) _) ∙ h in
      (c, refl, not_seen file.rel c.id (path_at c.id t.paths) (and_true _ _ both).0, refl)

  valid-Fine :
      (file : CaseFile) (doc : Value) (o : Option Bytes) (t : Seen)
      → is_empty (when_valid go schema_error is_pinned file doc o t).0 ≡ true
      → Fine file (load go file.path doc) t (when_valid go schema_error is_pinned file doc o t).1
  valid-Fine file doc (some e) t h = cc
  valid-Fine file doc none t h = loaded-Fine file (load go file.path doc) t h

  read-Fine :
      (file : CaseFile) (d : Result Bytes Value) (t : Seen)
      → is_empty (when_read go schema_error is_pinned file d t).0 ≡ true
      → Fine file
          (load go file.path (value_or_null d))
          t
          (when_read go schema_error is_pinned file d t).1
  read-Fine file (err e) t h = cc
  read-Fine file (ok doc) t h = valid-Fine file doc (schema_error (normalize go doc)) t h

  seen_after :
      (n : ℤ) (rel : Bytes) (c : Case) (t after : Seen)
      → after ≡ see rel c t
      → (is_some (path_at n t.paths) || int_eq n c.id) ≡ is_some (path_at n after.paths)
  unfolding path_at
  seen_after n rel c t after e =
      let same : after.paths ≡ (c.id, rel) ∷ t.paths = ap (λ x. x.paths) e ∙ paths-see rel c t in
      rw same (ground arith)

  is_ok-load_each :
      (files : List CaseFile) (t : Seen) (out : List Case)
      → ((n : ℤ) → has_id n out ≡ is_some (path_at n t.paths))
      → is_empty (check_files go schema_error is_pinned files t).0 ≡ true
      → is_ok (load_each go (documents files) out) ≡ true
  unfolding check_files check_file load_each
  is_ok-load_each [] t out same h = refl
  is_ok-load_each (file ∷ files) t out same h =
      let turn = when_read go schema_error is_pinned file file.document t in
      let both =
        sym (is_empty-append turn.0 (check_files go schema_error is_pinned files turn.1).0) ∙ h in
      let (mine, later) = and_true _ _ both in
      let (c, loaded, fresh, after) = read-Fine file file.document t mine in
      let new : has_id c.id out ≡ false = same c.id ∙ rw fresh refl in
      rw (loaded, new)
        (is_ok-load_each files turn.1 (out ++ c ∷ [])
          (λ n. has_id-append n out c ∙ rw (same n) (seen_after n file.rel c t turn.1 after)) later)

is_ok-bind :
    {E A B : Type 0} (r : Result E A) (f : A → B)
    → is_ok r ≡ true
    → is_ok (r >>= λ a. ok (f a)) ≡ true
is_ok-bind (ok a) f h = refl
is_ok-bind (err e) f h = cc

-- If the loop over the case files gives no finding, whatever the schema's library and the expression of a
-- pinned source accept, `LoadAll` loads the files without an error.
pub is_ok-load_all :
    (go : Golib) (schema_error : Value → Option Bytes) (is_pinned : Bytes → Bool)
    (files : List CaseFile)
    → is_empty (check_files go schema_error is_pinned files nothing_seen).0 ≡ true
    → is_ok (load_all go (documents files)) ≡ true
unfolding load_all
is_ok-load_all go schema_error is_pinned files h =
    is_ok-bind (load_each go (documents files) []) _ (
      is_ok-load_each go schema_error is_pinned files nothing_seen []
        (λ n. unfold has_id path_at in refl) h)

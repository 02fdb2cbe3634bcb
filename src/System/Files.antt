-- ===== src/System/Files.antt =====
-- The temporary files that exist after a history, and the actions that leave none behind.
use postgrest_conformance.Base.{List, [], ◌∷◌, ◌≡◌, refl, ◌∙◌, if◌then◌else◌, inl, inr}
use postgrest_conformance.Base.Text.{Bytes, str_eq, str_eq_refl}
use postgrest_conformance.Base.Result.{Result, ok, err, Result-cases}
use postgrest_conformance.System.{
  create_file, close_file, remove_file, write_file, call_psql, execute, start_server, poll_server,
  mark_stopped, terminate_server, kill_server, reap_server, send_request, bind_port, History,
  PsqlCall, Os, Failure, Act, pure, fail, resume, leave, ◌>>>=◌, ◌>>>◌, deferring, remove_temp,
  create_temp_file, write_to, close, run_psql,
}

unfoldable pub remove_one : Bytes → List Bytes → List Bytes
unfolding str_eq
remove_one p [] = []
remove_one p (q ∷ qs) = if str_eq q p then qs else q ∷ remove_one p qs

-- The temporary files that were created and not removed, the last first.
unfoldable pub temp_files : History → List Bytes
unfolding remove_one
temp_files [] = []
temp_files (create_file p ∷ h) = p ∷ temp_files h
temp_files (remove_file p ∷ h) = remove_one p (temp_files h)
temp_files (close_file p ∷ h) = temp_files h
temp_files (write_file p t ∷ h) = temp_files h
temp_files (call_psql c ∷ h) = temp_files h
temp_files (execute bin argv env ∷ h) = temp_files h
temp_files (start_server n bin env ∷ h) = temp_files h
temp_files (poll_server n ∷ h) = temp_files h
temp_files (mark_stopped n ∷ h) = temp_files h
temp_files (terminate_server n ∷ h) = temp_files h
temp_files (kill_server n ∷ h) = temp_files h
temp_files (reap_server n ∷ h) = temp_files h
temp_files (send_request n r ∷ h) = temp_files h
temp_files (bind_port ∷ h) = temp_files h

-- An action after which the temporary files are those from before it.
unfoldable pub LeavesNone {ℓ} : {A : Type ℓ} → Act A → Type 0
LeavesNone act = (h : History) → temp_files (act h).1 ≡ temp_files h

pub remove_one-first : (p : Bytes) (ps : List Bytes) → remove_one p (p ∷ ps) ≡ ps
unfolding remove_one
remove_one-first p ps = rw (str_eq_refl p)

abbrev pub answer_of {ℓ} : {A : Type ℓ} → Result Failure A × History → Result Failure A
answer_of (r, h) = r

-- The first action leaves the files as they are, and so does what follows it.
pub resume-LeavesNone {ℓ κ} :
    {A : Type ℓ} {B : Type κ} (came : Result Failure A × History) (next : A → Act B)
    → ((a : A) → LeavesNone (next a))
    → temp_files (resume came next).1 ≡ temp_files came.1
resume-LeavesNone (ok a, h) next keeps = unfold LeavesNone in keeps a h
resume-LeavesNone (err e, h) next keeps = refl

pub >>>=-LeavesNone {ℓ κ} :
    {A : Type ℓ} {B : Type κ} (first : Act A) (next : A → Act B)
    → LeavesNone first
    → ((a : A) → LeavesNone (next a))
    → LeavesNone (first >>>= next)
unfolding LeavesNone ◌>>>=◌
>>>=-LeavesNone first next k keeps h = resume-LeavesNone (first h) next keeps ∙ k h

pub >>>-LeavesNone {ℓ κ} :
    {A : Type ℓ} {B : Type κ} (first : Act A) (next : Act B)
    → LeavesNone first
    → LeavesNone next
    → LeavesNone (first >>> next)
unfolding LeavesNone ◌>>>◌
>>>-LeavesNone first next k keeps h = resume-LeavesNone (first h) (λ _. next) (λ _. keeps) ∙ k h

pub pure-LeavesNone {ℓ} : {A : Type ℓ} (a : A) → LeavesNone (pure a)
unfolding LeavesNone
pure-LeavesNone a h = refl

pub fail-LeavesNone {ℓ} : (A : Type ℓ) (e : Failure) → LeavesNone (fail {A = A} e)
unfolding LeavesNone
fail-LeavesNone A e h = refl

temp_files-leave {ℓ} :
    {A : Type ℓ} (path : Bytes) (came : Result Failure A × History) (kept : List Bytes)
    → temp_files came.1 ≡ path ∷ kept
    → temp_files (leave (remove_temp path) came).1 ≡ kept
temp_files-leave path (r, h) kept e = unfold temp_files in rw e (remove_one-first path kept)

module _ (os : Os) where
  pub write_to-LeavesNone : (path text : Bytes) → LeavesNone (write_to os path text)
  unfolding LeavesNone write_to temp_files
  write_to-LeavesNone path text h = refl

  pub close-LeavesNone : (path : Bytes) → LeavesNone (close os path)
  unfolding LeavesNone close temp_files
  close-LeavesNone path h = refl

  pub run_psql-LeavesNone : (call : PsqlCall) → LeavesNone (run_psql os call)
  unfolding LeavesNone run_psql temp_files
  run_psql-LeavesNone call h = refl

  -- A file that is created, used and removed by `defer`.
  pub create_temp_file-deferring {ℓ} :
      {A : Type ℓ} (pattern : Bytes) (use_file : Bytes → Act A)
      → ((path : Bytes) → LeavesNone (use_file path))
      → LeavesNone
          (create_temp_file os pattern >>>= λ path. deferring (remove_temp path) (use_file path))
  unfolding LeavesNone ◌>>>=◌ create_temp_file deferring temp_files
  create_temp_file-deferring pattern use_file keeps h =
      elim (Result-cases (os.create_temp h pattern)) [
        | inl (path, made) ↦ rw made (
            temp_files-leave path (use_file path (create_file path ∷ h)) (temp_files h)
              (keeps path (create_file path ∷ h)))
        | inr (e, failed) ↦ rw failed
      ]

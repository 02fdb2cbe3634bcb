-- ===== src/System.antt =====
-- What the oracle does to the world around it: temporary files, psql, processes and requests. The
-- operating system is a parameter, `Os`, whose answers may depend on all that was done before; an
-- action is a function of that history, and adds to it. It is the model of Go's calls with an
-- `error` beside the answer, of `defer`, and of a panic.
pub mod Files
pub mod Scripts
use postgrest_conformance.Base.{ℕ, Bool, List, [], ◌∷◌, Option, none, some}
use postgrest_conformance.Base.Text.{Bytes}
use postgrest_conformance.Base.Int.{ℤ}
use postgrest_conformance.Httpexec.Spec.{Spec}
use postgrest_conformance.Assert.{HttpResponse}
use postgrest_conformance.Base.Result.{Result, ok, err}

-- One call of psql: the database, the environment and the arguments.
pub record PsqlCall : Type 0 where
  pub database : Bytes
  pub env : List Bytes
  pub args : List Bytes

pub data Event : Type 0 where
  create_file close_file remove_file : Bytes → Event
  write_file : Bytes → Bytes → Event
  call_psql : PsqlCall → Event
  execute : Bytes → List Bytes → List Bytes → Event
  start_server : ℕ → Bytes → List Bytes → Event
  poll_server mark_stopped terminate_server kill_server reap_server : ℕ → Event
  bind_port : Event
  send_request : ℕ → Spec → Event

-- All that was done, the last first. A process is given by its number; `bind_port` is the binding of a free
-- port that is given up at once, `mark_stopped` is the setting of an
-- instance's `stopped`, and `reap_server` the return of `cmd.Wait`.
abbrev pub History : Type 0
History = List Event

-- How a process that was run to its end came out; `state` is the exit code, or the reason why the
-- process has no state.
pub record Outcome : Type 0 where
  pub stdout : Bytes
  pub stderr : Bytes
  pub deadline : Bool
  pub state : Result Bytes ℤ

-- The answers of the operating system and of the packages over it: `os.Getenv`, `os.CreateTemp` (the path
-- of the new file), writing and closing a file (an error or none), psql (the error or none) and what it
-- prints, a process that is run to its end, `os.LookupEnv`, a free TCP port, starting a process (its
-- number), the answer to a poll of a port, the polls that are left before a deadline, whether a process
-- ends soon after SIGTERM, the response to a request, whether the run's context is cancelled, `filepath.Glob` and `filepath.Join`.
pub record Os : Type 0 where
  pub getenv : Bytes → Bytes
  pub create_temp : History → Bytes → Result Bytes Bytes
  pub write_text : History → Bytes → Bytes → Option Bytes
  pub close_text : History → Bytes → Option Bytes
  pub psql_error : History → PsqlCall → Option Bytes
  pub outcome : History → Bytes → List Bytes → List Bytes → Outcome
  pub query_answer : History → PsqlCall → Result Bytes Bytes
  pub glob : History → Bytes → Result Bytes (List Bytes)
  pub lookup_env : Bytes → Option Bytes
  pub free_port : History → Result Bytes ℕ
  pub start_process : History → Bytes → List Bytes → Result Bytes ℕ
  pub ready_status : History → ℕ → Result Bytes ℤ
  pub polls_left : History → ℕ
  pub exits_in_time : History → ℕ → Bool
  pub response : History → ℕ → Spec → Result Bytes HttpResponse
  pub cancelled : History → Bool
  pub join_path : Bytes → Bytes → Bytes

-- Why an action ended early: an error, or a panic.
pub data Failure : Type 0 where
  create_failed write_failed close_failed psql_failed glob_failed timed_out not_started :
      Bytes → Failure
  query_failed parse_failed wrong_count no_port start_failed not_ready : Bytes → Failure
  invalid_dbname no_database stale_baseline : Failure
  panic : Bytes → Failure

abbrev pub Act {ℓ} : Type ℓ → Type ℓ
Act A = History → Result Failure A × History

abbrev pub pure {ℓ} : {A : Type ℓ} → A → Act A
pure a h = (ok a, h)

abbrev pub fail {ℓ} : {A : Type ℓ} → Failure → Act A
fail e h = (err e, h)

-- An answer that is an error, or is none.
abbrev pub pass_none {ℓ} : {A : Type ℓ} → Option A → (A → Failure) → Result Failure (Unit {0})
pass_none none wrap = ok tt
pass_none (some e) wrap = err (wrap e)

abbrev pub resume {ℓ κ} :
    {A : Type ℓ} {B : Type κ}
    → Result Failure A × History
    → (A → Act B)
    → Result Failure B × History
resume (ok a, h) next = next a h
resume (err e, h) next = (err e, h)

-- one call after another, unless the first ends early
infixl 5 ◌>>>=◌ ◌>>>◌
unfoldable pub ◌>>>=◌ {ℓ κ} : {A : Type ℓ} {B : Type κ} → Act A → (A → Act B) → Act B
(first >>>= next) h = resume (first h) next

unfoldable pub ◌>>>◌ {ℓ κ} : {A : Type ℓ} {B : Type κ} → Act A → Act B → Act B
(first >>> next) h = resume (first h) (λ _. next)

abbrev pub leave {ℓ} :
    {A : Type ℓ} → (History → History) → Result Failure A × History → Result Failure A × History
leave last (r, h) = (r, last h)

-- `defer last()`, which runs after an error and after a panic too
unfoldable pub deferring {ℓ} : {A : Type ℓ} → (History → History) → Act A → Act A
deferring last act h = leave last (act h)

abbrev pub rescue {ℓ} :
    {A : Type ℓ} → (History → History) → Result Failure A × History → Result Failure A × History
rescue last (ok a, h) = (ok a, h)
rescue last (err e, h) = (err e, last h)

-- `if err != nil { last(); return err }`
unfoldable pub or_else {ℓ} : {A : Type ℓ} → Act A → (History → History) → Act A
or_else act last h = rescue last (act h)

-- `os.Remove(path)`, whose error the program drops
abbrev pub remove_temp : Bytes → History → History
remove_temp path h = remove_file path ∷ h

abbrev pub close_quietly : Bytes → History → History
close_quietly path h = close_file path ∷ h

module _ (os : Os) where
  abbrev pub created : History → Result Bytes Bytes → Result Failure Bytes × History
  created h (ok path) = (ok path, create_file path ∷ h)
  created h (err e) = (err (create_failed e), h)

  unfoldable pub create_temp_file : Bytes → Act Bytes
  create_temp_file pattern h = created h (os.create_temp h pattern)

  unfoldable pub write_to : Bytes → Bytes → Act (Unit {0})
  write_to path text h =
      (pass_none (os.write_text h path text) write_failed, write_file path text ∷ h)

  unfoldable pub close : Bytes → Act (Unit {0})
  close path h = (pass_none (os.close_text h path) close_failed, close_file path ∷ h)

  -- `cmd.Run()` of psql
  unfoldable pub run_psql : PsqlCall → Act (Unit {0})
  run_psql call h = (pass_none (os.psql_error h call) psql_failed, call_psql call ∷ h)

  abbrev pub answered : Result Bytes Bytes → Result Failure Bytes
  answered (ok text) = ok text
  answered (err e) = err (query_failed e)

  -- `cmd.Run()` of psql, whose standard output is the answer
  unfoldable pub query_psql : PsqlCall → Act Bytes
  query_psql call h = (answered (os.query_answer h call), call_psql call ∷ h)

-- ===== src/Instance/Process.antt =====
-- tools/oracle/internal/instance/instance.go: starting a PostgREST process, waiting until it is ready, and
-- stopping it. The tail of its standard error stands only in the text of an error, which the model leaves out.
use postgrest_conformance.Base.{ℕ, zero, suc, Bool, true, false, List, [], ◌∷◌, if◌then◌else◌, ◌==◌}
use postgrest_conformance.Base.Text.{Bytes, codes}
use postgrest_conformance.Base.Assoc.{Assoc}
use postgrest_conformance.Base.Int.{ℤ, pos, int_eq}
use postgrest_conformance.Base.Result.{Result, ok, err}
use postgrest_conformance.Route.{Val}
use postgrest_conformance.System.{
  Os, Act, History, Failure, no_port, start_failed, not_ready, create_file, close_file, remove_file,
  write_file, call_psql, execute, start_server, poll_server, mark_stopped, terminate_server,
  kill_server, reap_server, send_request, bind_port, pure, ◌>>>=◌, ◌>>>◌, or_else,
}
use postgrest_conformance.Instance.{build_env}

-- `Instance`; its `cmd` is the number of the process
pub record Instance : Type 0 where
  pub port : ℕ
  pub admin_port : ℕ
  pub process : ℕ

-- the field `stopped` of the instance whose process has a number
unfoldable pub is_stopped : ℕ → History → Bool
is_stopped n [] = false
is_stopped n (start_server m bin env ∷ h) =
    let before = is_stopped n h in if m == n then false else before
is_stopped n (mark_stopped m ∷ h) = let before = is_stopped n h in if m == n then true else before
is_stopped n (create_file p ∷ h) = is_stopped n h
is_stopped n (close_file p ∷ h) = is_stopped n h
is_stopped n (remove_file p ∷ h) = is_stopped n h
is_stopped n (write_file p t ∷ h) = is_stopped n h
is_stopped n (call_psql c ∷ h) = is_stopped n h
is_stopped n (execute bin argv env ∷ h) = is_stopped n h
is_stopped n (poll_server m ∷ h) = is_stopped n h
is_stopped n (terminate_server m ∷ h) = is_stopped n h
is_stopped n (kill_server m ∷ h) = is_stopped n h
is_stopped n (reap_server m ∷ h) = is_stopped n h
is_stopped n (send_request m r ∷ h) = is_stopped n h
is_stopped n (bind_port ∷ h) = is_stopped n h

-- the answer to one poll is 200
abbrev pub is_ok_status : Result Bytes ℤ → Bool
is_ok_status (ok n) = int_eq n (pos 200)
is_ok_status (err e) = false

abbrev pub port_of : History → Result Bytes ℕ → Result Failure ℕ × History
port_of h (ok n) = (ok n, bind_port ∷ h)
port_of h (err e) = (err (no_port e), h)

module _ (os : Os) where
  -- after SIGTERM: the process ends within `stopWait`, or it is killed
  unfoldable pub await_exit : ℕ → History → History
  await_exit n h =
      if os.exits_in_time h n then reap_server n ∷ h else reap_server n ∷ kill_server n ∷ h

  -- `Stop`
  unfoldable pub stop : Instance → History → History
  unfolding is_stopped await_exit
  stop i h =
      if is_stopped i.process h
      then h
      else await_exit i.process (terminate_server i.process ∷ mark_stopped i.process ∷ h)

  -- `freePort`
  unfoldable pub free_port : Act ℕ
  free_port h = port_of h (os.free_port h)

  -- the loop of `waitReady`, of the polls after which the deadline is still ahead
  unfoldable pub poll : ℕ → ℕ → Act (Unit {0})
  poll zero port h =
      if is_ok_status (os.ready_status h port)
      then (ok tt, poll_server port ∷ h)
      else (err (not_ready (codes "timed out")), poll_server port ∷ h)
  poll (suc left) port h =
      let again = poll left port (poll_server port ∷ h) in
      if is_ok_status (os.ready_status h port) then (ok tt, poll_server port ∷ h) else again

  -- `waitReady`
  unfoldable pub wait_ready : ℕ → Act (Unit {0})
  unfolding poll
  wait_ready port h = poll (os.polls_left h) port h

  abbrev pub begun : Bytes → List Bytes → History → Result Bytes ℕ → Result Failure ℕ × History
  begun bin env h (ok n) = (ok n, start_server n bin env ∷ h)
  begun bin env h (err e) = (err (start_failed e), h)

  -- `cmd.Start()`
  unfoldable pub start_process : Bytes → List Bytes → Act ℕ
  start_process bin env h = begun bin env h (os.start_process h bin env)

  -- the process waited for, and stopped if it does not become ready
  unfoldable pub await_start : ℕ → ℕ → ℕ → Act Instance
  await_start port admin_port n =
      let inst : Instance = record { port = port; admin_port = admin_port; process = n } in
      or_else (wait_ready admin_port) (stop inst) >>> pure inst

  -- `Start`
  unfoldable pub start : Bytes → Assoc Bytes → Assoc Val → Bytes → Bool → Act Instance
  unfolding build_env
  start bin base overlay uri safe = free_port >>>= λ port.
      (free_port >>>= λ admin_port.
      (start_process bin
          (build_env base overlay uri safe port admin_port (os.lookup_env (codes "PATH")))
        >>>= await_start port admin_port))

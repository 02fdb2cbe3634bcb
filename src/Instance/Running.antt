-- ===== src/Instance/Running.antt =====
-- The PostgREST processes that run after a history.
use postgrest_conformance.Base.{
  ℕ, zero, suc, Bool, true, false, List, [], ◌∷◌, ◌≡◌, refl, ◌∙◌, if◌then◌else◌, ◌==◌, ==_refl,
  Bool-cases, inl, inr,
}
use postgrest_conformance.Base.Text.{Bytes, codes}
use postgrest_conformance.Base.Assoc.{Assoc}
use postgrest_conformance.Base.Result.{Result, ok, err, Result-cases}
use postgrest_conformance.Route.{Val}
use postgrest_conformance.System.{
  Os, History, Failure, create_file, close_file, remove_file, write_file, call_psql, execute,
  start_server, poll_server, mark_stopped, terminate_server, kill_server, reap_server, send_request,
  bind_port, ◌>>>=◌, ◌>>>◌, or_else, rescue, resume, pure,
}
use postgrest_conformance.Instance.{build_env}
use postgrest_conformance.Instance.Process.{
  Instance, is_stopped, await_exit, stop, free_port, poll, wait_ready, start_process, await_start,
  start, is_ok_status,
}

unfoldable pub drop_one : ℕ → List ℕ → List ℕ
drop_one n [] = []
drop_one n (m ∷ ms) = if m == n then ms else m ∷ drop_one n ms

-- The numbers of the processes that were started and not waited for to the end, the last first.
unfoldable pub running : History → List ℕ
unfolding drop_one
running [] = []
running (start_server n bin env ∷ h) = n ∷ running h
running (reap_server n ∷ h) = drop_one n (running h)
running (create_file p ∷ h) = running h
running (close_file p ∷ h) = running h
running (remove_file p ∷ h) = running h
running (write_file p t ∷ h) = running h
running (call_psql c ∷ h) = running h
running (execute bin argv env ∷ h) = running h
running (poll_server n ∷ h) = running h
running (mark_stopped n ∷ h) = running h
running (terminate_server n ∷ h) = running h
running (kill_server n ∷ h) = running h
running (send_request n r ∷ h) = running h
running (bind_port ∷ h) = running h

drop_one-first : (n : ℕ) (ms : List ℕ) → drop_one n (n ∷ ms) ≡ ms
unfolding drop_one
drop_one-first n ms = rw (==_refl n) refl

module _ (os : Os) where
  running-await_exit : (n : ℕ) (h : History) → running (await_exit os n h) ≡ drop_one n (running h)
  unfolding await_exit running
  running-await_exit n h = elim (Bool-cases (os.exits_in_time h n)) [
    | inl ends ↦ rw ends refl
    | inr lasts ↦ rw lasts refl
  ]

  is_stopped-await_exit : (n : ℕ) (h : History) → is_stopped n (await_exit os n h) ≡ is_stopped n h
  unfolding await_exit is_stopped
  is_stopped-await_exit n h = elim (Bool-cases (os.exits_in_time h n)) [
    | inl ends ↦ rw ends refl
    | inr lasts ↦ rw lasts refl
  ]

  -- Stopping an instance that was not stopped before ends its process.
  pub running-stop :
      (i : Instance) (h : History) (others : List ℕ)
      → is_stopped i.process h ≡ false
      → running h ≡ i.process ∷ others
      → running (stop os i h) ≡ others
  unfolding stop
  running-stop i h others fresh there =
      rw
        (
          fresh,
          running-await_exit i.process (terminate_server i.process ∷ mark_stopped i.process ∷ h),
        )
        (unfold running in rw there (drop_one-first i.process others))

  is_stopped-stop : (i : Instance) (h : History) → is_stopped i.process (stop os i h) ≡ true
  unfolding stop
  is_stopped-stop i h = elim (Bool-cases (is_stopped i.process h)) [
    | inl already ↦ rw already already
    | inr fresh ↦
        rw
          (
            fresh,
            is_stopped-await_exit i.process
                (terminate_server i.process ∷ mark_stopped i.process ∷ h),
          )
          (unfold is_stopped in rw (==_refl i.process) refl)
  ]

  stop_again : (i : Instance) (h : History) → is_stopped i.process h ≡ true → stop os i h ≡ h
  unfolding stop
  stop_again i h already = rw already refl

  -- Stopping an instance twice is stopping it once.
  pub stop-stop : (i : Instance) (h : History) → stop os i (stop os i h) ≡ stop os i h
  stop-stop i h = stop_again i (stop os i h) (is_stopped-stop i h)

  -- The processes, and the mark of one of them, are left as they are.
  record Quiet (n : ℕ) (g h : History) : Type 0 where
    same_running : running g ≡ running h
    same_mark : is_stopped n g ≡ is_stopped n h

  poll-Quiet : (n left port : ℕ) (h : History) → Quiet n (poll os left port h).1 h
  unfolding poll running is_stopped
  poll-Quiet n zero port h = elim (Bool-cases (is_ok_status (os.ready_status h port))) [
    | inl ready ↦ rw ready (record { same_running = refl; same_mark = refl })
    | inr late ↦ rw late (record { same_running = refl; same_mark = refl })
  ]
  poll-Quiet n (suc left) port h =
      let rest = poll-Quiet n left port (poll_server port ∷ h) in
      elim (Bool-cases (is_ok_status (os.ready_status h port))) [
        | inl ready ↦ rw ready (record { same_running = refl; same_mark = refl })
        | inr late ↦
            rw late (record { same_running = rest.same_running; same_mark = rest.same_mark })
      ]

  -- The processes that run when a start has ended: one more, which is not stopped, if it ended well.
  abbrev pub Started : Result Failure Instance × History → List ℕ → Type 0
  Started (ok i, h) before = (running h ≡ i.process ∷ before) × (is_stopped i.process h ≡ false)
  Started (err e, h) before = running h ≡ before

  await-Started :
      (i : Instance) (came : Result Failure (Unit {0}) × History) (before : List ℕ)
      → running came.1 ≡ i.process ∷ before
      → is_stopped i.process came.1 ≡ false
      → Started (resume (rescue (stop os i) came) (λ _. pure i)) before
  await-Started i (ok _, h) before there fresh = (there, fresh)
  await-Started i (err e, h) before there fresh = running-stop i h before fresh there

  await_start-Started :
      (port admin_port n : ℕ) (bin : Bytes) (env : List Bytes) (h : History)
      → Started (await_start os port admin_port n (start_server n bin env ∷ h)) (running h)
  unfolding await_start wait_ready or_else ◌>>>◌
  await_start-Started port admin_port n bin env h =
      let g = start_server n bin env ∷ h in
      let quiet = poll-Quiet n (os.polls_left g) admin_port g in
      await-Started (record { port = port; admin_port = admin_port; process = n })
        (poll os (os.polls_left g) admin_port g) (running h)
        (quiet.same_running ∙ unfold running in refl)
        (quiet.same_mark ∙ unfold is_stopped in rw (==_refl n) refl)

  -- A start that ends well leaves one more process running, which is not stopped; a start that ends with
  -- an error, whichever step it is in, leaves none behind, and the others as they were.
  pub start-Started :
      (bin : Bytes) (base : Assoc Bytes) (overlay : Assoc Val) (uri : Bytes) (safe : Bool)
      (h : History)
      → Started (start os bin base overlay uri safe h) (running h)
  unfolding start free_port start_process ◌>>>=◌
  start-Started bin base overlay uri safe h = elim (Result-cases (os.free_port h)) [
    | inr (e, failed) ↦ rw failed refl
    | inl (port, found) ↦ elim (Result-cases (os.free_port (bind_port ∷ h))) [
      | inr (e, failed) ↦ rw (found, failed) (unfold running in refl)
      | inl (admin_port, free) ↦
          let env =
            build_env base overlay uri safe port admin_port (os.lookup_env (codes "PATH")) in
          let g = bind_port ∷ bind_port ∷ h in
          elim (Result-cases (os.start_process g bin env)) [
            | inr (e, failed) ↦ rw (found, free, failed) (unfold running in refl)
            | inl (n, begun) ↦
                rw (found, free, begun)
                  (unfold running in await_start-Started port admin_port n bin env g)
          ]
    ]
  ]

-- ===== src/Run/Loop/Servers.antt =====
-- Lemmas on the PostgREST processes of the loop over the groups.
use postgrest_conformance.Base.{
  ℕ, false, List, [], ◌∷◌, ◌≡◌, refl, ◌∙◌, Option, none, some, ==_refl, Bool-cases, inl, inr,
}
use postgrest_conformance.Base.Text.{Bytes}
use postgrest_conformance.Base.Assoc.{Assoc, lookup}
use postgrest_conformance.Base.Result.{Result, ok, err}
use postgrest_conformance.Value.{Golib}
use postgrest_conformance.System.{Os, History, Failure}
use postgrest_conformance.Cases.{Case}
use postgrest_conformance.Route.Bases.{base_configs}
use postgrest_conformance.Httpexec.Spec.{Wire, Spec, SpecError, build_spec}
use postgrest_conformance.Db.Server.{PgEnv}
use postgrest_conformance.Instance.Process.{Instance, is_stopped}
use postgrest_conformance.Instance.Running.{running, running-stop, Started, start-Started}
use postgrest_conformance.Run.{HttpGroup, cases_of, with_conn_user_anon}
use postgrest_conformance.Run.Loop.{
  Table, State, placement_of, profile_of, remove, send, run_http_case, run_http_cases, serve_group,
  run_on, run_group, run_groups, run_http,
}

module _ (os : Os) (go : Golib) (wire : Wire) where
  send-quiet :
      (n : ℕ) (c : Case) (port : ℕ) (spec : Result SpecError Spec) (h : History)
      → (running (send os go wire c port spec h).1 ≡ running h)
        × (is_stopped n (send os go wire c port spec h).1 ≡ is_stopped n h)
  unfolding running is_stopped
  send-quiet n c port (err e) h = (refl, refl)
  send-quiet n c port (ok spec) h = (refl, refl)

  run_http_case-quiet :
      (n : ℕ) (c : Case) (port : ℕ) (profile : Bytes) (h : History)
      → (running (run_http_case os go wire c port profile h).1 ≡ running h)
        × (is_stopped n (run_http_case os go wire c port profile h).1 ≡ is_stopped n h)
  unfolding run_http_case
  run_http_case-quiet n c port profile h = send-quiet n c port (build_spec wire c profile) h

  run_http_cases-quiet :
      (n : ℕ) (table : Table) (inst : Instance) (key : Bytes) (cs : List Case) (h : History)
      → (running (run_http_cases os go wire table inst key cs h).1 ≡ running h)
        × (is_stopped n (run_http_cases os go wire table inst key cs h).1 ≡ is_stopped n h)
  unfolding run_http_cases
  run_http_cases-quiet n table inst key [] h = (refl, refl)
  run_http_cases-quiet n table inst key (c ∷ cs) h =
      let ran = run_http_case os go wire c inst.port (profile_of (placement_of table c.id)) h in
      let one = run_http_case-quiet n c inst.port (profile_of (placement_of table c.id)) h in
      let rest = run_http_cases-quiet n table inst key cs ran.1 in
      elim (Bool-cases (os.cancelled h)) [
        | inl stops ↦ rw stops (refl, refl)
        | inr goes_on ↦ rw goes_on (rest.0 ∙ one.0, rest.1 ∙ one.1)
      ]

  serve_group-running :
      (table : Table) (g : HttpGroup) (came : Result Failure Instance × History) (before : List ℕ)
      → Started os came before
      → ((serve_group os go wire table g [] came).1.0 ≡ [])
        × (running (serve_group os go wire table g [] came).1.1 ≡ before)
  serve_group-running table g (err e, h) before s = (refl, s)
  serve_group-running table g (ok inst, h) before s =
      let quiet = run_http_cases-quiet inst.process table inst g.key (cases_of g) h in
      (
        unfold remove in rw (==_refl inst.process) refl,
        running-stop os inst _ before (quiet.1 ∙ s.1) (quiet.0 ∙ s.0),
      )

  run_on-running :
      (bin : Bytes) (pg : PgEnv) (uri : Bytes) (table : Table) (g : HttpGroup)
      (base : Option (Assoc Bytes)) (h : History)
      → ((run_on os go wire bin pg uri table g base ([], h)).1.0 ≡ [])
        × (running (run_on os go wire bin pg uri table g base ([], h)).1.1 ≡ running h)
  run_on-running bin pg uri table g none h = (refl, refl)
  run_on-running bin pg uri table g (some base) h =
      serve_group-running table g _ (running h) (
        start-Started os bin (with_conn_user_anon base g.base pg.user) g.overlay uri g.safe_update
          h)

  -- Nothing is registered, and the processes are those from before.
  abbrev pub Tidy : List ℕ → State → Type 0
  Tidy before s = (s.0 ≡ []) × (running s.1 ≡ before)

  run_groups-Tidy :
      (bin : Bytes) (pg : PgEnv) (uri : Bytes) (table : Table) (gs : List HttpGroup) (s : State)
      (before : List ℕ)
      → Tidy before s
      → Tidy before (run_groups os go wire bin pg uri table gs s).1
  unfolding run_groups run_group
  run_groups-Tidy bin pg uri table [] s before tidy = tidy
  run_groups-Tidy bin pg uri table (g ∷ gs) (i ∷ reg, h) before tidy = cc
  run_groups-Tidy bin pg uri table (g ∷ gs) ([], h) before tidy =
      let turn = run_on-running bin pg uri table g (lookup g.base base_configs) h in
      let ran = run_on os go wire bin pg uri table g (lookup g.base base_configs) ([], h) in
      let rest = run_groups-Tidy bin pg uri table gs ran.1 before (turn.0, turn.1 ∙ tidy.1) in
      elim (Bool-cases (os.cancelled h)) [
        | inl stops ↦ rw stops tidy
        | inr goes_on ↦ rw goes_on rest
      ]

  -- The loop over the groups of a run that is never cancelled, so that no goroutine of a signal stops
  -- an instance, ends, whatever else the system answers, with an empty registry and with the processes
  -- that ran before it: each instance that it started was stopped.
  pub run_http-Tidy :
      (bin : Bytes) (pg : PgEnv) (uri : Bytes) (table : Table) (selected : List Case) (h : History)
      → ((later : History) → os.cancelled later ≡ false)
      → Tidy (running h) (run_http os go wire bin pg uri table selected h).1
  unfolding run_http
  run_http-Tidy bin pg uri table selected h _ =
      run_groups-Tidy bin pg uri table _ ([], h) (running h) (refl, refl)

-- ===== src/Run/Interrupt.antt =====
-- tools/oracle/cmd/oracle/run.go with its two threads: the main one, which starts, registers and stops one
-- instance after another, and the goroutine that stops what is registered when a signal comes.
-- instance.Stop is two steps, the taking of the `stopped` flag under its lock and the end of the process.
use postgrest_conformance.Base.{
  ℕ, Bool, true, false, not, ◌&&◌, ◌||◌, List, [], ◌∷◌, ◌≡◌, refl, ◌==◌, keep, all, any, arith,
  Bool-cases, inl, inr, and_true, ==_refl,
}

-- The main thread: between two groups; with a process that it started and has not yet registered; with a
-- registered one; in Stop, with its flag taken; behind Stop; in the last stopAll, with the instances that
-- are left; in Stop there; and at its end.
pub data Main : Type 0 where
  between done : Main
  launched serving stopping behind_stop : ℕ → Main
  cleaning : List ℕ → Main
  clean_stopping : ℕ → List ℕ → Main

-- The goroutine: before the signal; in stopAll, with the instances that are left; in Stop, with its flag
-- taken; and at its end.
pub data Handler : Type 0 where
  waiting over : Handler
  sweeping : List ℕ → Handler
  killing : ℕ → List ℕ → Handler

pub record Threads : Type 0 where
  pub main : Main
  pub handler : Handler
  pub registry : List ℕ
  pub stopped : List ℕ
  pub running : List ℕ

abbrev pub is_in : ℕ → List ℕ → Bool
is_in n ns = any (λ m. m == n) ns

abbrev pub without : ℕ → List ℕ → List ℕ
without n ns = keep (λ m. not (m == n)) ns

-- One step of one of the threads.
pub data Step (s : Threads) : Threads → Type 0 where
  -- `instance.Start`, of an instance that is new
  starts :
      (n : ℕ)
      → s.main ≡ between
      → is_in n s.stopped ≡ false
      → Step s (record s { main = launched n; running = n ∷ s.running })
  -- `reg.add`
  adds :
      (n : ℕ)
      → s.main ≡ launched n
      → Step s (record s { main = serving n; registry = n ∷ s.registry })
  -- `Stop` of the main thread: the flag taken, the flag found taken, the end of the process
  takes :
      (n : ℕ)
      → s.main ≡ serving n
      → is_in n s.stopped ≡ false
      → Step s (record s { main = stopping n; stopped = n ∷ s.stopped })
  passes :
      (n : ℕ)
      → s.main ≡ serving n
      → is_in n s.stopped ≡ true
      → Step s (record s { main = behind_stop n })
  ends :
      (n : ℕ)
      → s.main ≡ stopping n
      → Step s (record s { main = behind_stop n; running = without n s.running })
  -- `reg.remove`
  removes :
      (n : ℕ)
      → s.main ≡ behind_stop n
      → Step s (record s { main = between; registry = without n s.registry })
  -- `reg.stopAll` of the main thread
  cleans : s.main ≡ between → Step s (record s { main = cleaning s.registry; registry = [] })
  cleans_takes :
      (n : ℕ) (left : List ℕ)
      → s.main ≡ cleaning (n ∷ left)
      → is_in n s.stopped ≡ false
      → Step s (record s { main = clean_stopping n left; stopped = n ∷ s.stopped })
  cleans_passes :
      (n : ℕ) (left : List ℕ)
      → s.main ≡ cleaning (n ∷ left)
      → is_in n s.stopped ≡ true
      → Step s (record s { main = cleaning left })
  cleans_ends :
      (n : ℕ) (left : List ℕ)
      → s.main ≡ clean_stopping n left
      → Step s (record s { main = cleaning left; running = without n s.running })
  finishes : s.main ≡ cleaning [] → Step s (record s { main = done })
  -- the signal: `reg.stopAll` of the goroutine
  sweeps : s.handler ≡ waiting → Step s (record s { handler = sweeping s.registry; registry = [] })
  sweep_takes :
      (n : ℕ) (left : List ℕ)
      → s.handler ≡ sweeping (n ∷ left)
      → is_in n s.stopped ≡ false
      → Step s (record s { handler = killing n left; stopped = n ∷ s.stopped })
  sweep_passes :
      (n : ℕ) (left : List ℕ)
      → s.handler ≡ sweeping (n ∷ left)
      → is_in n s.stopped ≡ true
      → Step s (record s { handler = sweeping left })
  sweep_ends :
      (n : ℕ) (left : List ℕ)
      → s.handler ≡ killing n left
      → Step s (record s { handler = sweeping left; running = without n s.running })
  sweep_over : s.handler ≡ sweeping [] → Step s (record s { handler = over })

-- Before the loop over the groups.
abbrev pub idle : Threads
idle = record { main = between; handler = waiting; registry = []; stopped = []; running = [] }

-- The states that the threads come to.
pub data Reach : Threads → Type 0 where
  here : Reach idle
  then_ : {s t : Threads} → Reach s → Step s t → Reach t

-- The goroutine is in Stop of this instance.
abbrev pub kills : Handler → ℕ → Bool
kills waiting n = false
kills over n = false
kills (sweeping left) n = false
kills (killing m left) n = m == n

-- The main thread holds the process, and will come to its Stop or is in it.
abbrev pub holds : Main → List ℕ → ℕ → Bool
holds between stopped n = false
holds done stopped n = false
holds (launched m) stopped n = m == n && not (is_in n stopped)
holds (serving m) stopped n = m == n && not (is_in n stopped)
holds (stopping m) stopped n = m == n
holds (behind_stop m) stopped n = false
holds (cleaning left) stopped n = false
holds (clean_stopping m left) stopped n = m == n

abbrev pub held : Threads → ℕ → Bool
held s n = holds s.main s.stopped n || kills s.handler n

all_mono :
    (p q : ℕ → Bool) (l : List ℕ)
    → ((n : ℕ) → p n ≡ true → q n ≡ true)
    → all p l ≡ true
    → all q l ≡ true
all_mono p q [] f h = refl
all_mono p q (n ∷ l) f h =
    let (first, rest) = and_true (p n) (all p l) h in rw (f n first, all_mono p q l f rest) refl

all-without :
    (p q : ℕ → Bool) (m : ℕ) (l : List ℕ)
    → ((n : ℕ) → (n == m) ≡ false → p n ≡ true → q n ≡ true)
    → all p l ≡ true
    → all q (without m l) ≡ true
all-without p q m [] f h = refl
all-without p q m (n ∷ l) f h =
    let (first, rest) = and_true (p n) (all p l) h in
    elim (Bool-cases (n == m)) [
      | inl gone ↦ rw gone (all-without p q m l f rest)
      | inr stays ↦ rw (stays, f n stays first) (all-without p q m l f rest)
    ]

-- Taking the flag of one instance leaves the hold on the others.
holds-cons :
    (m : Main) (b : Bool) (n : ℕ) (stopped : List ℕ) (k : ℕ)
    → (holds m stopped k || b) ≡ true
    → (holds m (n ∷ stopped) k || (b || n == k)) ≡ true
holds-cons between b n stopped k h = ground (arith, h)
holds-cons done b n stopped k h = ground (arith, h)
holds-cons (launched m) b n stopped k h = ground (arith, h)
holds-cons (serving m) b n stopped k h = ground (arith, h)
holds-cons (stopping m) b n stopped k h = ground (arith, h)
holds-cons (behind_stop m) b n stopped k h = ground (arith, h)
holds-cons (cleaning left) b n stopped k h = ground (arith, h)
holds-cons (clean_stopping m left) b n stopped k h = ground (arith, h)

-- A step keeps every running process held.
Step-held :
    (s t : Threads) → Step s t → all (held s) s.running ≡ true → all (held t) t.running ≡ true
Step-held s t (starts n e fresh) h =
    rw (==_refl n, fresh) (all_mono (held s) _ s.running (λ k was. ground (arith, rw e at was)) h)
Step-held s t (adds n e) h = all_mono (held s) _ s.running (λ k was. ground (arith, rw e at was)) h
Step-held s t (takes n e free) h =
    all_mono (held s) _ s.running (λ k was. ground (arith, rw e at was)) h
Step-held s t (passes n e taken) h =
    all_mono (held s) _ s.running (λ k was. ground (arith, rw e at was, taken)) h
Step-held s t (ends n e) h =
    all-without (held s) _ n s.running (λ k other was. ground (arith, rw e at was, other)) h
Step-held s t (removes n e) h =
    all_mono (held s) _ s.running (λ k was. ground (arith, rw e at was)) h
Step-held s t (cleans e) h = all_mono (held s) _ s.running (λ k was. ground (arith, rw e at was)) h
Step-held s t (cleans_takes n left e free) h =
    all_mono (held s) _ s.running (λ k was. ground (arith, rw e at was)) h
Step-held s t (cleans_passes n left e taken) h =
    all_mono (held s) _ s.running (λ k was. ground (arith, rw e at was)) h
Step-held s t (cleans_ends n left e) h =
    all-without (held s) _ n s.running (λ k other was. ground (arith, rw e at was, other)) h
Step-held s t (finishes e) h =
    all_mono (held s) _ s.running (λ k was. ground (arith, rw e at was)) h
Step-held s t (sweeps e) h = all_mono (held s) _ s.running (λ k was. ground (arith, rw e at was)) h
Step-held s t (sweep_takes n left e free) h =
    all_mono (held s) _ s.running (λ k was. holds-cons s.main false n s.stopped k (rw e at was)) h
Step-held s t (sweep_passes n left e taken) h =
    all_mono (held s) _ s.running (λ k was. ground (arith, rw e at was)) h
Step-held s t (sweep_ends n left e) h =
    all-without (held s) _ n s.running (λ k other was. ground (arith, rw e at was, other)) h
Step-held s t (sweep_over e) h =
    all_mono (held s) _ s.running (λ k was. ground (arith, rw e at was)) h

-- Every running process is held, by the main thread or by the goroutine.
Reach-held : (s : Threads) → Reach s → all (held s) s.running ≡ true
Reach-held s here = refl
Reach-held t (then_ {s = s} r step) = Step-held s t step (Reach-held s r)

abbrev pub is_done : Main → Bool
is_done done = true
is_done between = false
is_done (launched n) = false
is_done (serving n) = false
is_done (stopping n) = false
is_done (behind_stop n) = false
is_done (cleaning left) = false
is_done (clean_stopping n left) = false

done-kills :
    (m : Main) (handler : Handler) (stopped l : List ℕ)
    → is_done m ≡ true
    → all (λ n. holds m stopped n || kills handler n) l ≡ true
    → all (kills handler) l ≡ true
done-kills done handler stopped l e h = h
done-kills between handler stopped l e h = cc
done-kills (launched n) handler stopped l e h = cc
done-kills (serving n) handler stopped l e h = cc
done-kills (stopping n) handler stopped l e h = cc
done-kills (behind_stop n) handler stopped l e h = cc
done-kills (cleaning left) handler stopped l e h = cc
done-kills (clean_stopping n left) handler stopped l e h = cc

-- However the two threads interleave and whenever the signal comes, a process that still runs when the main
-- thread is at its end is one that the goroutine is stopping.
pub Reach-done :
    (s : Threads) → Reach s → is_done s.main ≡ true → all (kills s.handler) s.running ≡ true
Reach-done s r e = done-kills s.main s.handler s.stopped s.running e (Reach-held s r)

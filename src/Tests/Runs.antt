-- ===== src/Tests/Runs.antt =====
-- Examples of the summary of a run and of the tail of a process's standard error.
use postgrest_conformance.Base.{refl, all, true, ◌+◌, ◌≤◌, List, [], ◌∷◌, ◌≡◌, length}
use postgrest_conformance.Base.Text.{Bytes, codes}
use postgrest_conformance.Base.Assoc.{lookup}
use postgrest_conformance.Report.{area_totals}
use postgrest_conformance.Report.Totals.{in_area, passing, totals_of, area_totals-lookup}
use postgrest_conformance.Instance.{new_ring_buffer}
use postgrest_conformance.Instance.Ring.{tail_of, write_each, written, write_each-new}
use postgrest_conformance.Run.Interrupt.{
  Threads, done, killing, kills, Reach, here, then_, starts, adds, sweeps, sweep_takes, passes,
  removes, cleans, finishes, Reach-done,
}
use postgrest_conformance.Tests.Samples.{results}

area_totals-lookup_example :
    ((totals_of (lookup (codes "rpc") (area_totals [] results))).total
      ≡ (totals_of (lookup (codes "rpc") [])).total + length (in_area (codes "rpc") results))
    × ((totals_of (lookup (codes "rpc") (area_totals [] results))).passed
        ≡ (totals_of (lookup (codes "rpc") [])).passed
          + length (passing (in_area (codes "rpc") results)))
area_totals-lookup_example = area_totals-lookup (codes "rpc") [] results

abbrev chunks : List Bytes
chunks = codes "abc" ∷ codes "de" ∷ []

write_each-new_example :
    ((write_each (new_ring_buffer 4) chunks).buf ≡ tail_of 4 (written chunks))
    × (length (write_each (new_ring_buffer 4) chunks).buf ≤ 4)
write_each-new_example = write_each-new 4 chunks

-- The signal comes while an instance serves its group; the goroutine takes the flag, and the main thread ends
-- while the process still runs.
abbrev ended_early : Threads
ended_early = record {
  main = done;
  handler = killing 5 [];
  registry = [];
  stopped = 5 ∷ [];
  running = 5 ∷ [];
}

ends_early : Reach ended_early
ends_early =
    then_
      (then_
        (then_
          (then_
            (then_ (then_ (then_ (then_ here (starts 5 refl refl)) (adds 5 refl)) (sweeps refl))
              (sweep_takes 5 [] refl refl))
            (passes 5 refl refl))
          (removes 5 refl))
        (cleans refl))
      (finishes refl)

Reach-done_example : all (kills ended_early.handler) ended_early.running ≡ true
Reach-done_example = Reach-done ended_early ends_early refl

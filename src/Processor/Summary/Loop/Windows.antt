-- ===== src/Processor/Summary/Loop/Windows.antt =====
-- The events that the printing loop of pkg/processor/summary.go reports and those that it loses.
use xatu_sidecar.Prelude.{ℕ, ◌+◌, ◌%◌, String, ◌≡◌, refl, List, [], ◌∷◌, arith}
use xatu_sidecar.Processor.Summary.{
  Counts, Summary, uint64_mod, new_summary, line, print, reset, add_events_exported,
  add_event_stream_events,
}
use xatu_sidecar.Processor.Summary.Loop.{
  Loop, Phase, Signal, ticked, cancelled, proceeded, exported, counted, loop_step, run_loop, begun,
  exports, window, lost, reported, left, during,
}

-- What is reported and what is still to be reported.
abbrev account : Loop → ℕ
account l = reported l.reports + left l

account-tick : (l : Loop) → account (loop_step ticked l) ≡ account l
unfolding loop_step
account-tick l = ground arith

account-cancel : (l : Loop) → account (loop_step cancelled l) ≡ account l
unfolding loop_step
account-cancel l = ground arith

account-proceed : (l : Loop) → account (loop_step proceeded l) ≡ account l
unfolding loop_step reported
account-proceed l = ground arith

account-counted : (topic : String) (l : Loop) → account (loop_step (counted topic) l) ≡ account l
unfolding loop_step add_event_stream_events
account-counted topic l = ground arith

account-exported :
    (l : Loop)
    → (account (loop_step exported l) + window l.phase) % uint64_mod ≡ (account l + 1) % uint64_mod
unfolding loop_step add_events_exported
account-exported l = ground arith

account-run_loop :
    (signals : List Signal) (l : Loop)
    → (account (run_loop signals l) + lost signals l) % uint64_mod
      ≡ (account l + exports signals) % uint64_mod
unfolding run_loop lost exports
account-run_loop [] l = refl
account-run_loop (ticked ∷ rest) l =
    omega (arith, account-run_loop rest (loop_step ticked l), account-tick l)
account-run_loop (cancelled ∷ rest) l =
    omega (arith, account-run_loop rest (loop_step cancelled l), account-cancel l)
account-run_loop (proceeded ∷ rest) l =
    omega (arith, account-run_loop rest (loop_step proceeded l), account-proceed l)
account-run_loop (counted topic ∷ rest) l =
    omega (arith, account-run_loop rest (loop_step (counted topic) l), account-counted topic l)
account-run_loop (exported ∷ rest) l =
    omega (arith, account-run_loop rest (loop_step exported l), account-exported l)

-- However ticks, steps of the printing loop, exported events and the end of the loop follow one
-- another: the events of the reports, those still to be reported and those exported after `Print`
-- loads the counter and before `Reset` clears it add up to the events exported and those counted
-- before the loop, modulo 2^64.
pub run_loop-accounted :
    (signals : List Signal) (s : Summary)
    → (reported (run_loop signals (begun s)).reports
          + left (run_loop signals (begun s))
          + lost signals (begun s))
        % uint64_mod
      ≡ (s.events_exported + exports signals) % uint64_mod
unfolding reported
run_loop-accounted signals s = omega (arith, account-run_loop signals (begun s))

-- The steps of `Reset` undo whatever was counted since the line was made.
run_loop-during :
    (topics : List String) (events : Counts) (n : ℕ) (s : Summary)
    → run_loop
        (during topics (proceeded ∷ proceeded ∷ proceeded ∷ proceeded ∷ []))
        (record { phase = Phase.loaded events n; summary = s; reports = [] })
      ≡ record {
        phase = Phase.waiting;
        summary = new_summary;
        reports = line events n s.failed_events ∷ [];
      }
unfolding run_loop during add_events_exported add_event_stream_events
run_loop-during [] events n s = refl
run_loop-during (topic ∷ rest) events n s =
    run_loop-during rest events n (add_event_stream_events topic 1 (add_events_exported 1 s))

-- Whatever events other goroutines export and count after a `Print` has loaded the counter, and
-- before it goes on, the report and the summary that is left are those of a `Print` that nothing
-- interrupts: the events are in neither.
pub exports_lost :
    (topics : List String) (s : Summary)
    → run_loop
        (ticked
          ∷ proceeded
          ∷ proceeded
          ∷ during topics (proceeded ∷ proceeded ∷ proceeded ∷ proceeded ∷ []))
        (begun s)
      ≡ record { phase = Phase.waiting; summary = (print s).1; reports = (print s).0 ∷ [] }
unfolding run_loop print reset
exports_lost topics s = run_loop-during topics s.event_stream_events s.events_exported s

-- ===== src/Tests/Counters.antt =====
-- The theorems on the summary at concrete runs.
use xatu_sidecar.Prelude.{◌+◌, ◌%◌, String, ◌≡◌, refl, some, List, [], ◌∷◌, arith}
use xatu_sidecar.Processor.Summary.{uint64_mod, load, new_summary, print, add_events_exported}
use xatu_sidecar.Processor.Summary.Counts.{count_events, occurrences, tally}
use xatu_sidecar.Processor.Summary.Totals.{distinct, among}
use xatu_sidecar.Processor.Summary.Printing.{print-count_events}
use xatu_sidecar.Processor.Summary.Loop.{
  Signal, ticked, cancelled, proceeded, exported, counted as counts, Phase, run_loop, begun, left,
  exports, lost, reported, during,
}
use xatu_sidecar.Processor.Summary.Loop.Windows.{run_loop-accounted, exports_lost}
use xatu_sidecar.Processor.Summary.Race.{
  counted, System, begin, read, write, begins, reads, writes, idle, Reach, initial, later,
  IsCounted,
}
use xatu_sidecar.Processor.Summary.Race.Invariant.{Reach-IsCounted}
use xatu_sidecar.Processor.Summary.Race.Lost.{repeat, updates_lost}

abbrev blocks : List String
blocks = "A" ∷ "B" ∷ "A" ∷ []

print-count_events_example :
    ((print (count_events blocks new_summary)).0.events_exported ≡ 3)
    × ((print (count_events blocks new_summary)).0.events_failed ≡ 0)
    × ((print (count_events blocks new_summary)).0.total_events ≡ 5)
    × ((topic : String)
        → load topic (print (count_events blocks new_summary)).0.topics
          ≡ tally (occurrences topic blocks))
    × ((print (count_events blocks new_summary)).1 ≡ new_summary)
unfolding distinct among
print-count_events_example = print-count_events blocks

-- The second event is exported after the counter is loaded and before it is cleared, and the third
-- while the loop waits again.
abbrev signals : List Signal
signals =
    exported
    ∷ ticked
    ∷ proceeded
    ∷ proceeded
    ∷ exported
    ∷ counts "A"
    ∷ proceeded
    ∷ proceeded
    ∷ proceeded
    ∷ proceeded
    ∷ exported
    ∷ cancelled
    ∷ []

run_loop-accounted_example :
    (reported (run_loop signals (begun new_summary)).reports
        + left (run_loop signals (begun new_summary))
        + 1)
      % uint64_mod
    ≡ 3
unfolding lost exports run_loop
run_loop-accounted_example = run_loop-accounted signals new_summary

exports_lost_example :
    run_loop
      (ticked
        ∷ proceeded
        ∷ proceeded
        ∷ during blocks (proceeded ∷ proceeded ∷ proceeded ∷ proceeded ∷ []))
      (begun new_summary)
    ≡ record {
      phase = Phase.waiting;
      summary = (print new_summary).1;
      reports = (print new_summary).0 ∷ [];
    }
exports_lost_example = exports_lost blocks new_summary

-- One goroutine reads and stores its counter while another has only begun.
abbrev two_begun : System
two_begun = begin "B" (begin "A" idle)

abbrev one_read : System
one_read = read (counted "B" ∷ []) "A" [] two_begun

abbrev one_done : System
one_done = write (counted "B" ∷ []) "A" 1 [] one_read

one_done-Reach : Reach one_done
unfolding begin read load add_events_exported
one_done-Reach =
    later one_read _
      (later two_begun _
        (later (begin "A" idle) _ (later idle _ initial (begins idle "A"))
          (begins (begin "A" idle) "B"))
        (reads two_begun (counted "B" ∷ []) [] "A" refl))
      (writes one_read (counted "B" ∷ []) [] "A" 1 refl)

Reach-IsCounted_example : IsCounted one_done
unfolding write read begin
Reach-IsCounted_example = Reach-IsCounted one_done one_done-Reach (omega arith)

updates_lost_example :
    (s : System) × Reach s
    × (s.pending ≡ [])
    × (s.finished ≡ repeat 3 "A")
    × (s.summary.events_exported ≡ 3)
    × (load "A" s.summary.event_stream_events ≡ some 2)
updates_lost_example = updates_lost "A" 2

-- ===== src/Processor/Summary/Printing.antt =====
-- What a `Print` of pkg/processor/summary.go reports that no other goroutine interrupts.
use xatu_sidecar.Prelude.{◌+◌, ◌%◌, ◌<◌, String, ◌≡◌, refl, ◌∙◌, List, [], ◌∷◌, arith, length}
use xatu_sidecar.Processor.Summary.{
  Summary, uint64_mod, load, new_summary, total, print, reset, add_events_exported,
  add_event_stream_events,
}
use xatu_sidecar.Processor.Summary.Counts.{
  count_event, count_events, occurrences, tally, counts_one_too_many,
}
use xatu_sidecar.Processor.Summary.Totals.{distinct, among, total-count_events}

exported-count_event :
    (topic : String) (s : Summary)
    → (count_event topic s).events_exported ≡ (s.events_exported + 1) % uint64_mod
unfolding count_event add_event_stream_events add_events_exported
exported-count_event topic s = refl

failed-count_event :
    (topic : String) (s : Summary) → (count_event topic s).failed_events ≡ s.failed_events
unfolding count_event add_event_stream_events add_events_exported
failed-count_event topic s = refl

exported-count_events :
    (topics : List String) (s : Summary)
    → s.events_exported < uint64_mod
    → (count_events topics s).events_exported ≡ (s.events_exported + length topics) % uint64_mod
unfolding count_events
exported-count_events [] s h = omega arith
exported-count_events (topic ∷ rest) s h =
    let one = exported-count_event topic s in
    let more = exported-count_events rest (count_event topic s) (omega (arith, one)) in
    omega (arith, one, more)

failed-count_events :
    (topics : List String) (s : Summary) → (count_events topics s).failed_events ≡ s.failed_events
unfolding count_events
failed-count_events [] s = refl
failed-count_events (topic ∷ rest) s =
    failed-count_events rest (count_event topic s) ∙ failed-count_event topic s

-- The line of an uninterrupted `Print` after a run of exported events, counted from a new summary:
-- the number of the events, no failed event, for each topic a counter that is one more than the
-- number of its events and none for a topic without events, and a total that is too large by the
-- number of different topics. The summary is new again. Numbers are modulo 2^64.
pub print-count_events :
    (topics : List String)
    → ((print (count_events topics new_summary)).0.events_exported ≡ length topics % uint64_mod)
      × ((print (count_events topics new_summary)).0.events_failed ≡ 0)
      × ((print (count_events topics new_summary)).0.total_events
          ≡ (length topics + distinct [] topics) % uint64_mod)
      × ((topic : String)
          → load topic (print (count_events topics new_summary)).0.topics
            ≡ tally (occurrences topic topics))
      × ((print (count_events topics new_summary)).1 ≡ new_summary)
unfolding print reset load among total
print-count_events topics =
    let all = exported-count_events topics new_summary (omega arith) in
    let sum = total-count_events topics [] new_summary (λ topic. (λ _. refl, λ _. refl)) in
    (
      omega (arith, all),
      failed-count_events topics new_summary,
      totalled sum,
      counts_one_too_many topics,
      refl,
    )
  where
    totalled :
        total (count_events topics new_summary).event_stream_events
          ≡ (0 + length topics + distinct [] topics) % uint64_mod
        → total (count_events topics new_summary).event_stream_events
          ≡ (length topics + distinct [] topics) % uint64_mod
    totalled sum = omega (arith, sum)

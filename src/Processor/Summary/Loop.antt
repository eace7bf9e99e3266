-- ===== src/Processor/Summary/Loop.antt =====
-- The printing loop of pkg/processor/summary.go, `Summary.Start`, which runs in a goroutine of its
-- own, so that others count between any two accesses that `Print` and `Reset` make to the summary.
-- Each load and store of an atomic counter is a step; so are the range over the map and the
-- assignment of a new one, which are not atomic in the source.
pub mod Windows
use xatu_sidecar.Prelude.{ℕ, suc, ◌+◌, String, List, [], ◌∷◌}
use xatu_sidecar.Processor.Summary.{
  Counts, Summary, Report, line, get_event_stream_events, get_events_exported, get_failed_events,
  clear_exported, clear_failed, clear_event_stream, add_events_exported, add_event_stream_events,
}

-- Where the loop stands: in its `select`, in `Print` with what it has read so far, in `Reset`, or
-- returned.
pub data Phase : Type 0 where
  waiting printing : Phase
  ranged : Counts → Phase
  loaded : Counts → ℕ → Phase
  printed exported_cleared failed_cleared : Phase
  returned : Phase

-- The reports are newest first.
pub record Loop : Type 0 where
  pub phase : Phase
  pub summary : Summary
  pub reports : List Report

-- What happens next: the loop receives a tick, finds its context done, or takes a step of `Print`;
-- or another goroutine adds one to the exported events, or to the counter of a topic.
pub data Signal : Type 0 where
  ticked cancelled proceeded exported : Signal
  counted : String → Signal

abbrev pub begun : Summary → Loop
begun s = record { phase = waiting; summary = s; reports = [] }

-- Ticks and the end of the context are received in the `select` only.
abbrev pub tick : Phase → Phase
tick waiting = printing
tick phase = phase

abbrev pub cancel : Phase → Phase
cancel waiting = returned
cancel phase = phase

unfoldable pub proceed : Phase → Loop → Loop
proceed waiting l = l
proceed printing l = record l { phase = ranged (get_event_stream_events l.summary) }
proceed (ranged events) l = record l { phase = loaded events (get_events_exported l.summary) }
proceed (loaded events n) l = record l {
  phase = printed;
  reports = line events n (get_failed_events l.summary) ∷ l.reports;
}
proceed printed l = record l { phase = exported_cleared; summary = clear_exported l.summary }
proceed exported_cleared l = record l { phase = failed_cleared; summary = clear_failed l.summary }
proceed failed_cleared l = record l { phase = waiting; summary = clear_event_stream l.summary }
proceed returned l = l

unfoldable pub loop_step : Signal → Loop → Loop
unfolding proceed
loop_step ticked l = record l { phase = tick l.phase }
loop_step cancelled l = record l { phase = cancel l.phase }
loop_step proceeded l = proceed l.phase l
loop_step exported l = record l { summary = add_events_exported 1 l.summary }
loop_step (counted topic) l = record l { summary = add_event_stream_events topic 1 l.summary }

unfoldable pub run_loop : List Signal → Loop → Loop
unfolding loop_step
run_loop [] l = l
run_loop (signal ∷ rest) l = run_loop rest (loop_step signal l)

-- The number of exported events among the signals.
unfoldable pub exports : List Signal → ℕ
exports [] = 0
exports (exported ∷ rest) = suc (exports rest)
exports (ticked ∷ rest) = exports rest
exports (cancelled ∷ rest) = exports rest
exports (proceeded ∷ rest) = exports rest
exports (counted topic ∷ rest) = exports rest

-- Whether the counter is loaded and not yet cleared.
abbrev pub window : Phase → ℕ
window (loaded events n) = 1
window printed = 1
window _ = 0

-- The number of events that are exported while the counter is loaded and not yet cleared.
unfoldable pub lost : List Signal → Loop → ℕ
unfolding loop_step
lost [] l = 0
lost (exported ∷ rest) l = window l.phase + lost rest (loop_step exported l)
lost (ticked ∷ rest) l = lost rest (loop_step ticked l)
lost (cancelled ∷ rest) l = lost rest (loop_step cancelled l)
lost (proceeded ∷ rest) l = lost rest (loop_step proceeded l)
lost (counted topic ∷ rest) l = lost rest (loop_step (counted topic) l)

-- The sum of what the reports say was exported.
unfoldable pub reported : List Report → ℕ
reported [] = 0
reported (r ∷ rest) = r.events_exported + reported rest

-- What is still to be reported: the counter, unless it is loaded already.
abbrev pub still : Phase → Summary → ℕ
still (loaded events n) s = n
still printed s = 0
still _ s = s.events_exported

abbrev pub left : Loop → ℕ
left l = still l.phase l.summary

-- Events that are exported and counted one after the other, before what follows.
unfoldable pub during : List String → List Signal → List Signal
during [] after = after
during (topic ∷ rest) after = exported ∷ counted topic ∷ during rest after

-- ===== src/Processor/Summary.antt =====
-- pkg/processor/summary.go: counters of what was exported. The `sync.Map` is an association list,
-- whose order no result depends on; counters are uint64 and wrap.
pub mod Counts
pub mod Totals
pub mod Printing
pub mod Loop
pub mod Race
use xatu_sidecar.Prelude.{
  ℕ, ◌+◌, ◌%◌, ◌^◌, String, Option, none, some, List, [], ◌∷◌, str_eq, if◌then◌else◌,
}

abbrev pub uint64_mod : ℕ
uint64_mod = 2 ^ 64

abbrev pub Counts : Type 0
Counts = List (String × ℕ)

unfoldable pub load : String → Counts → Option ℕ
load topic [] = none
load topic ((k, v) ∷ m) = if str_eq k topic then some v else load topic m

unfoldable pub store : String → ℕ → Counts → Counts
store topic v [] = (topic, v) ∷ []
store topic v ((k, w) ∷ m) = if str_eq k topic then (topic, v) ∷ m else (k, w) ∷ store topic v m

-- The value that is there, or the one given, which is then stored.
abbrev pub load_or_store : String → ℕ → Counts → ℕ × Counts
load_or_store topic v m = elim (load topic m) [ none ↦ (v, store topic v m) | some w ↦ (w, m) ]

pub record Summary : Type 0 where
  pub event_stream_events : Counts
  pub events_exported : ℕ
  pub failed_events : ℕ

abbrev pub new_summary : Summary
new_summary = record { event_stream_events = []; events_exported = 0; failed_events = 0 }

unfoldable pub add_events_exported : ℕ → Summary → Summary
add_events_exported count s = record s {
  events_exported = (s.events_exported + count) % uint64_mod;
}

abbrev pub get_events_exported : Summary → ℕ
get_events_exported s = s.events_exported

unfoldable pub add_failed_events : ℕ → Summary → Summary
add_failed_events count s = record s { failed_events = (s.failed_events + count) % uint64_mod }

abbrev pub get_failed_events : Summary → ℕ
get_failed_events s = s.failed_events

unfoldable pub add_event_stream_events : String → ℕ → Summary → Summary
add_event_stream_events topic count s =
    let (current, m) = load_or_store topic count s.event_stream_events in
    record s { event_stream_events = store topic ((current + count) % uint64_mod) m }

abbrev pub get_event_stream_events : Summary → Counts
get_event_stream_events s = s.event_stream_events

-- The three statements of `Reset`.
abbrev pub clear_exported : Summary → Summary
clear_exported s = record s { events_exported = 0 }

abbrev pub clear_failed : Summary → Summary
clear_failed s = record s { failed_events = 0 }

abbrev pub clear_event_stream : Summary → Summary
clear_event_stream s = record s { event_stream_events = [] }

unfoldable pub reset : Summary → Summary
reset s = clear_event_stream (clear_failed (clear_exported s))

-- The fields of the line that `Print` logs.
pub record Report : Type 0 where
  pub total_events : ℕ
  pub events_exported : ℕ
  pub events_failed : ℕ
  pub topics : Counts

unfoldable pub total : Counts → ℕ
total [] = 0
total ((_, v) ∷ m) = (v + total m) % uint64_mod

-- The line of the events that were ranged over and of what the two counters held.
abbrev pub line : Counts → ℕ → ℕ → Report
line events exported failed = record {
  total_events = total events;
  events_exported = exported;
  events_failed = failed;
  topics = events;
}

-- A `Print` that nothing interrupts.
unfoldable pub print : Summary → Report × Summary
unfolding reset
print s = (line (get_event_stream_events s) (get_events_exported s) (get_failed_events s), reset s)

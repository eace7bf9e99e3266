-- ===== src/Processor/Summary/Race.antt =====
-- `handleNewDecoratedEvent` counting from several goroutines at once (`SendEventBatch` may be called
-- by several threads of the host): the counter of all events is atomic, and a topic's counter is read
-- and stored again in two steps, between which other goroutines run.
pub mod Invariant
pub mod Lost
use xatu_sidecar.Prelude.{
  ℕ, ◌+◌, ◌%◌, ◌≤◌, ◌<◌, String, ◌≡◌, ◌≢◌, Option, none, some, List, [], ◌∷◌, ◌++◌, length, All,
}
use xatu_sidecar.Processor.Summary.{
  Counts, Summary, load, store, load_or_store, uint64_mod, add_events_exported, new_summary,
}
use xatu_sidecar.Processor.Summary.Counts.{occurrences}

-- A goroutine that has counted its event among all, and one that has also read the topic's counter.
pub data Pending : Type 0 where
  counted : String → Pending
  loaded : String → ℕ → Pending

-- The summary, the goroutines on their way, and the topics of those that are done.
pub record System : Type 0 where
  pub summary : Summary
  pub pending : List Pending
  pub finished : List String

-- `AddEventsExported(1)`
unfoldable pub begin : String → System → System
begin topic s = record {
  summary = add_events_exported 1 s.summary;
  pending = counted topic ∷ s.pending;
  finished = s.finished;
}

-- `LoadOrStore(topic, 1)`, by the goroutine that stands between the others.
unfoldable pub read : List Pending → String → List Pending → System → System
read before topic after s =
    let (value, counts) = load_or_store topic 1 s.summary.event_stream_events in
    record {
      summary = record s.summary { event_stream_events = counts };
      pending = before ++ (loaded topic value ∷ after);
      finished = s.finished;
    }

-- `Store(topic, val+count)`
unfoldable pub write : List Pending → String → ℕ → List Pending → System → System
write before topic value after s = record {
  summary = record s.summary {
    event_stream_events = store topic ((value + 1) % uint64_mod) s.summary.event_stream_events;
  };
  pending = before ++ after;
  finished = topic ∷ s.finished;
}

-- One step of one goroutine.
pub data Step : System → System → Type 0 where
  begins : (s : System) (topic : String) → Step s (begin topic s)
  reads :
      (s : System) (before after : List Pending) (topic : String)
      → s.pending ≡ before ++ (counted topic ∷ after)
      → Step s (read before topic after s)
  writes :
      (s : System) (before after : List Pending) (topic : String) (value : ℕ)
      → s.pending ≡ before ++ (loaded topic value ∷ after)
      → Step s (write before topic value after s)

abbrev pub idle : System
idle = record { summary = new_summary; pending = []; finished = [] }

-- The states that goroutines reach from a new summary.
pub data Reach : System → Type 0 where
  initial : Reach idle
  later : (s t : System) → Reach s → Step s t → Reach t

-- The value of a topic's counter against the number of its events that are done.
abbrev pub Bounded : ℕ → Option ℕ → Type 0
Bounded done none = done ≡ 0
Bounded done (some v) = (1 ≤ v) × (v ≤ done + 1) × (0 < done → 2 ≤ v)

-- A value that was read.
abbrev pub Read : List String → Counts → Pending → Type 0
Read finished m (counted topic) = Unit {0}
Read finished m (loaded topic v) =
    (1 ≤ v) × (v ≤ occurrences topic finished + 1) × (load topic m ≢ none)

-- What holds in every state whose finished events are fewer than the counters can hold.
pub record IsCounted (s : System) : Type 0 where
  pub exported : s.summary.events_exported ≡ (length s.pending + length s.finished) % uint64_mod
  pub counters :
      (topic : String)
      → Bounded (occurrences topic s.finished) (load topic s.summary.event_stream_events)
  pub pending : All (Read s.finished s.summary.event_stream_events) s.pending

-- ===== src/Processor/Summary/Counts.antt =====
-- What the counters of pkg/processor/summary.go hold after a run of exported events.
use xatu_sidecar.Prelude.{
  ℕ, zero, suc, ◌+◌, ◌%◌, ◌<◌, String, ◌≡◌, refl, ap, ◌∙◌, inl, inr, Option, none, some, List, [],
  ◌∷◌, arith, str_eq, eq_iff, if◌then◌else◌, Bool-cases, Option-cases,
}
use xatu_sidecar.Processor.Summary.{
  Counts, load, store, uint64_mod, Summary, add_events_exported, add_event_stream_events,
  new_summary,
}

pub load-store :
    (k j : String) (v : ℕ) (m : Counts)
    → load j (store k v m) ≡ (if str_eq k j then some v else load j m)
unfolding load store
load-store k j v [] = refl
load-store k j v ((i, w) ∷ m) =
    ground (arith, eq_iff k j, eq_iff i k, eq_iff i j, load-store k j v m)

-- What `handleNewDecoratedEvent` adds for one event of a topic.
unfoldable pub count_event : String → Summary → Summary
count_event topic s = add_event_stream_events topic 1 (add_events_exported 1 s)

unfoldable pub count_events : List String → Summary → Summary
count_events [] s = s
count_events (topic ∷ rest) s = count_events rest (count_event topic s)

unfoldable pub occurrences : String → List String → ℕ
occurrences topic [] = 0
occurrences topic (x ∷ xs) = let n = occurrences topic xs in if str_eq x topic then suc n else n

-- What one event does to the counter of a topic: the first one counts twice.
abbrev pub bump : Option ℕ → ℕ
bump none = 2
bump (some v) = (v + 1) % uint64_mod

pub load-count_event :
    (topic j : String) (s : Summary)
    → load j (count_event topic s).event_stream_events ≡ (
        if str_eq topic j
        then some (bump (load topic s.event_stream_events))
        else load j s.event_stream_events)
unfolding count_event add_event_stream_events add_events_exported
load-count_event topic j s =
    let m = s.event_stream_events in
    elim (Option-cases (load topic m)) [
      | inl e ↦
          ground (
            arith,
            e,
            load-store topic j 1 m,
            load-store topic j 2 (store topic 1 m),
            eq_iff topic j,
          )
      | inr (w, e) ↦ ground (arith, e, load-store topic j ((w + 1) % uint64_mod) m)
    ]

-- The counter of a topic after so many of its events, one more than their number.
abbrev pub tally : ℕ → Option ℕ
tally zero = none
tally (suc n) = some ((n + 2) % uint64_mod)

abbrev bumps : ℕ → Option ℕ → Option ℕ
bumps zero o = o
bumps (suc n) o = bumps n (some (bump o))

bumps-some : (n v : ℕ) → v < uint64_mod → bumps n (some v) ≡ some ((v + n) % uint64_mod)
bumps-some zero v h = ap some (omega arith)
bumps-some (suc n) v h = bumps-some n ((v + 1) % uint64_mod) (omega arith) ∙ ap some (omega arith)

load-count_events :
    (topics : List String) (j : String) (s : Summary)
    → load j (count_events topics s).event_stream_events
      ≡ bumps (occurrences j topics) (load j s.event_stream_events)
unfolding count_events occurrences
load-count_events [] j s = refl
load-count_events (topic ∷ rest) j s = elim (Bool-cases (str_eq topic j)) [
  | inl e ↦
      let same : topic ≡ j = (eq_iff topic j).0 e in
      rw e (
        load-count_events rest j (count_event topic s)
        ∙ ap (bumps (occurrences j rest)) (rw (load-count_event, e, same) refl))
  | inr e ↦ rw e (
      load-count_events rest j (count_event topic s)
      ∙ ap (bumps (occurrences j rest)) (rw (load-count_event, e) refl))
]

-- From a new summary, whatever events are counted, the counter of a topic is one more than the
-- number of its events, modulo 2^64, and a topic with no event has no counter.
pub counts_one_too_many :
    (topics : List String) (topic : String)
    → load topic (count_events topics new_summary).event_stream_events
      ≡ tally (occurrences topic topics)
unfolding load
counts_one_too_many topics topic =
    load-count_events topics topic new_summary ∙ from_none (occurrences topic topics)
  where
    from_none : (n : ℕ) → bumps n none ≡ tally n
    from_none zero = refl
    from_none (suc n) = bumps-some n 2 (omega arith) ∙ ap some (omega arith)

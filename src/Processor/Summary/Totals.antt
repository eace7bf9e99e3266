-- ===== src/Processor/Summary/Totals.antt =====
-- What `Print` of pkg/processor/summary.go reports after a run of exported events.
use xatu_sidecar.Processor.Summary.Counts.{load-store, load-count_event, count_event, count_events}
use xatu_sidecar.Prelude.{
  ℕ, suc, ◌+◌, ◌%◌, ◌<◌, String, ◌≡◌, refl, ◌↔◌, inl, inr, Bool, true, false, ◌||◌, Option, none,
  some, List, [], ◌∷◌, arith, str_eq, eq_iff, eq_refl, if◌then◌else◌, Option-cases, length,
}
use xatu_sidecar.Processor.Summary.{
  Counts, load, store, uint64_mod, total, Summary, add_events_exported, add_event_stream_events,
  load_or_store,
}

unfoldable pub among : String → List String → Bool
among topic [] = false
among topic (x ∷ xs) = str_eq x topic || among topic xs

-- The number of topics that are neither among those seen nor met before in the list.
unfoldable pub distinct : List String → List String → ℕ
distinct seen [] = 0
distinct seen (topic ∷ rest) =
    let more = distinct (topic ∷ seen) rest in if among topic seen then more else suc more

-- A topic has a counter exactly if it was seen.
abbrev pub Tracks : Counts → List String → Type 0
Tracks m seen = (topic : String) → (load topic m ≡ none) ↔ (among topic seen ≡ false)

total-store_new :
    (topic : String) (v : ℕ) (m : Counts)
    → load topic m ≡ none
    → total (store topic v m) ≡ (total m + v) % uint64_mod
unfolding total store load
total-store_new topic v [] p = omega arith
total-store_new topic v ((k, w) ∷ m) p = ground (arith, total-store_new topic v m)

total-store_old :
    (topic : String) (v w : ℕ) (m : Counts)
    → load topic m ≡ some w
    → (total (store topic v m) + w) % uint64_mod ≡ (total m + v) % uint64_mod
unfolding total store load
total-store_old topic v w [] p = cc p
total-store_old topic v w ((k, u) ∷ m) p = ground (arith, total-store_old topic v w m)

total-lt : (m : Counts) → total m < uint64_mod
unfolding total
total-lt [] = omega arith
total-lt ((k, v) ∷ m) = omega arith

-- The first event of a topic adds two to the total, and a later one adds one.
abbrev added : Option ℕ → ℕ
added none = 2
added (some w) = 1

total-count_event :
    (topic : String) (s : Summary)
    → total (count_event topic s).event_stream_events
      ≡ (total s.event_stream_events + added (load topic s.event_stream_events)) % uint64_mod
unfolding count_event add_event_stream_events add_events_exported
total-count_event topic s =
    let m = s.event_stream_events in
    elim (Option-cases (load topic m)) [
      | inl e ↦
          let first = total-store_new topic 1 m e in
          let there : load topic (store topic 1 m) ≡ some 1 =
            rw (load-store topic topic 1 m, eq_refl topic) refl in
          let again = total-store_old topic 2 1 (store topic 1 m) there in
          let small = total-lt (store topic 2 (store topic 1 m)) in
          rw (load_or_store, e) (omega (arith, first, again, small))
      | inr (w, e) ↦
          let again = total-store_old topic ((w + 1) % uint64_mod) w m e in
          let small = total-lt (store topic ((w + 1) % uint64_mod) m) in
          rw (load_or_store, e) (omega (arith, again, small))
    ]

Tracks-count_event :
    (topic : String) (s : Summary) (seen : List String)
    → Tracks s.event_stream_events seen
    → Tracks (count_event topic s).event_stream_events (topic ∷ seen)
unfolding among
Tracks-count_event topic s seen t j = ground (arith, load-count_event topic j s, t j)

exported-count_event :
    (topic : String) (s : Summary)
    → (count_event topic s).events_exported ≡ (s.events_exported + 1) % uint64_mod
unfolding count_event add_event_stream_events add_events_exported
exported-count_event topic s = refl

-- A topic that has a counter and is counted again keeps the topics that have one.
Tracks-again :
    (topic : String) (m : Counts) (seen : List String)
    → among topic seen ≡ true
    → Tracks m (topic ∷ seen)
    → Tracks m seen
unfolding among
Tracks-again topic m seen a t j = ground (arith, t j, eq_iff topic j)

pub total-count_events :
    (topics seen : List String) (s : Summary)
    → Tracks s.event_stream_events seen
    → total (count_events topics s).event_stream_events
      ≡ (total s.event_stream_events + length topics + distinct seen topics) % uint64_mod
unfolding count_events distinct
total-count_events [] seen s t = omega (arith, total-lt s.event_stream_events)
total-count_events (topic ∷ rest) seen s t =
    let more =
      total-count_events rest (topic ∷ seen) (count_event topic s)
        (Tracks-count_event topic s seen t) in
    let one = total-count_event topic s in let known = t topic in ground (arith, more, one, known)

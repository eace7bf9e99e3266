-- ===== src/Processor/Summary/Race/Invariant.antt =====
-- What holds of the counters of pkg/processor/summary.go after any interleaving of goroutines.
use xatu_sidecar.Prelude.{
  ℕ, suc, ◌+◌, ◌%◌, ◌≤◌, ◌<◌, String, ◌≡◌, refl, sym, ap, subst, ◌∙◌, ◌≢◌, inl, inr, none, some,
  List, [], ◌∷◌, ◌++◌, arith, str_eq, eq_iff, eq_refl, if◌then◌else◌, Bool-cases, Option-cases,
  length, length-append, All, All-map, All-split, All-join,
}
use xatu_sidecar.Processor.Summary.{
  Counts, load, store, load_or_store, uint64_mod, add_events_exported,
}
use xatu_sidecar.Processor.Summary.Counts.{occurrences, load-store}
use xatu_sidecar.Processor.Summary.Race.{
  Pending, counted, loaded, System, begin, read, write, Step, begins, reads, writes, Reach, initial,
  later, Bounded, Read, IsCounted,
}

occurrences_le : (topic : String) (xs : List String) → occurrences topic xs ≤ length xs
unfolding occurrences
occurrences_le topic [] = omega arith
occurrences_le topic (x ∷ xs) = ground (arith, occurrences_le topic xs)

-- Counting a finished event adds to the events of its topic only.
occurrences_cons :
    (j topic : String) (xs : List String)
    → occurrences j (topic ∷ xs)
      ≡ (if str_eq topic j then suc (occurrences j xs) else occurrences j xs)
unfolding occurrences
occurrences_cons j topic xs = refl

occurrences_more :
    (topic j : String) (xs : List String) → occurrences j xs ≤ occurrences j (topic ∷ xs)
unfolding occurrences
occurrences_more topic j xs = ground arith

length_middle :
    (xs ys : List Pending) (x : Pending) → length (xs ++ (x ∷ ys)) ≡ length xs + length ys + 1
length_middle xs ys x = omega (arith, length-append xs (x ∷ ys))

-- A value that was read stays one that may have been read.
Read-mono :
    (done done' : List String) (m m' : Counts)
    → ((j : String) → occurrences j done ≤ occurrences j done')
    → ((j : String) → load j m ≢ none → load j m' ≢ none)
    → (p : Pending) → Read done m p
    → Read done' m' p
Read-mono done done' m m' more kept (counted topic) r = tt
Read-mono done done' m m' more kept (loaded topic v) (low, high, there) =
    (low, omega (arith, more topic, high), kept topic there)

begin-IsCounted : (topic : String) (s : System) → IsCounted s → IsCounted (begin topic s)
unfolding begin add_events_exported
begin-IsCounted topic s inv = record {
  exported = omega (arith, inv.exported);
  counters = inv.counters;
  pending = (tt, inv.pending);
}

-- Storing keeps the counters that are there.
store_kept :
    (topic j : String) (v : ℕ) (m : Counts) → load j m ≢ none → load j (store topic v m) ≢ none
store_kept topic j v m there = ground (arith, load-store topic j v m)

-- The first store of a topic that has no counter.
first-Bounded :
    (done : List String) (m : Counts) (topic : String)
    → load topic m ≡ none
    → ((j : String) → Bounded (occurrences j done) (load j m))
    → (j : String) → Bounded (occurrences j done) (load j (store topic 1 m))
first-Bounded done m topic none_yet bounded j = elim (Bool-cases (str_eq topic j)) [
  | inl e ↦
      let same : topic ≡ j = (eq_iff topic j).0 e in
      let zero_done : Bounded (occurrences j done) none =
        subst (λ o. Bounded (occurrences j done) o) (ap (λ i. load i m) (sym same) ∙ none_yet)
          (bounded j) in
      rw (load-store topic j 1 m, e)
        (omega arith, omega arith, λ h. absurd (omega (arith, zero_done, h)))
  | inr e ↦ rw (load-store topic j 1 m, e) (bounded j)
]

-- A later store, of one more than a value that was read.
later-Bounded :
    (done : List String) (m : Counts) (topic : String) (value : ℕ)
    → suc (suc (length done)) < uint64_mod
    → Read done m (loaded topic value)
    → ((j : String) → Bounded (occurrences j done) (load j m))
    → (j : String)
    → Bounded (occurrences j (topic ∷ done)) (load j (store topic ((value + 1) % uint64_mod) m))
later-Bounded done m topic value small (low, high, there) bounded j =
    elim (Bool-cases (str_eq topic j)) [
      | inl e ↦
          let same : topic ≡ j = (eq_iff topic j).0 e in
          let few = occurrences_le topic done in
          let next : (value + 1) % uint64_mod ≡ value + 1 = omega (arith, few) in
          let high' : value ≤ occurrences j done + 1 =
            subst (λ i. value ≤ occurrences i done + 1) same high in
          rw (load-store, occurrences_cons, e, next)
            (omega arith, omega (arith, high'), λ h. omega (arith, low))
      | inr e ↦ rw (load-store, occurrences_cons, e) (bounded j)
    ]

-- What `LoadOrStore` leaves, and what a goroutine has then read.
load_or_store-Bounded :
    (done : List String) (m : Counts) (topic : String)
    → ((j : String) → Bounded (occurrences j done) (load j m))
    → ((j : String) → Bounded (occurrences j done) (load j (load_or_store topic 1 m).1))
      × Read done (load_or_store topic 1 m).1 (loaded topic (load_or_store topic 1 m).0)
      × ((j : String) → load j m ≢ none → load j (load_or_store topic 1 m).1 ≢ none)
load_or_store-Bounded done m topic bounded = elim (Option-cases (load topic m)) [
  | inl e ↦
      let there : load topic (store topic 1 m) ≡ some 1 =
        rw (load-store topic topic 1 m, eq_refl topic) refl in
      rw (load_or_store, e)
        (
          first-Bounded done m topic e bounded,
          (omega arith, omega arith, cc there),
          λ j. store_kept topic j 1 m,
        )
  | inr (w, e) ↦
      let (low, high, _) = subst (Bounded (occurrences topic done)) e (bounded topic) in
      rw (load_or_store, e) (bounded, (low, high, cc e), λ j there. there)
]

read-IsCounted :
    (s : System) (before after : List Pending) (topic : String)
    → s.pending ≡ before ++ (counted topic ∷ after)
    → IsCounted s
    → IsCounted (read before topic after s)
unfolding read
read-IsCounted s before after topic at inv =
    let m = s.summary.event_stream_events in
    let (bounded, mine, kept) = load_or_store-Bounded s.finished m topic inv.counters in
    let (front, _, back) =
      All-split (Read s.finished m) before (counted topic) after
        (subst (All (Read s.finished m)) at inv.pending) in
    let mono =
      Read-mono s.finished s.finished m (load_or_store topic 1 m).1 (λ j. omega arith) kept in
    record {
      exported = omega (
        arith,
        inv.exported,
        ap length at,
        length_middle before after (counted topic),
        length_middle before after (loaded topic (load_or_store topic 1 m).0),
      );
      counters = bounded;
      pending =
          All-join (Read s.finished (load_or_store topic 1 m).1) before _
            (All-map mono before front) (mine, All-map mono after back);
    }

write-IsCounted :
    (s : System) (before after : List Pending) (topic : String) (value : ℕ)
    → s.pending ≡ before ++ (loaded topic value ∷ after)
    → suc (suc (length s.finished)) < uint64_mod
    → IsCounted s
    → IsCounted (write before topic value after s)
unfolding write
write-IsCounted s before after topic value at small inv =
    let m = s.summary.event_stream_events in
    let m' = store topic ((value + 1) % uint64_mod) m in
    let (front, mine, back) =
      All-split (Read s.finished m) before (loaded topic value) after
        (subst (All (Read s.finished m)) at inv.pending) in
    let mono =
      Read-mono s.finished (topic ∷ s.finished) m m'
        (λ j. omega (arith, occurrences_more topic j s.finished))
        (λ j. store_kept topic j ((value + 1) % uint64_mod) m) in
    record {
      exported = omega (
        arith,
        inv.exported,
        ap length at,
        length_middle before after (loaded topic value),
        length-append before after,
      );
      counters = later-Bounded s.finished m topic value small mine inv.counters;
      pending =
          All-join (Read (topic ∷ s.finished) m') before after (All-map mono before front)
            (All-map mono after back);
    }

finished_mono : (s t : System) → Step s t → length s.finished ≤ length t.finished
unfolding begin read write
finished_mono s t (begins _ topic) = omega arith
finished_mono s t (reads _ before after topic at) = omega arith
finished_mono s t (writes _ before after topic value at) = omega arith

Step-IsCounted :
    (s t : System) → Step s t → length t.finished + 1 < uint64_mod → IsCounted s → IsCounted t
unfolding write
Step-IsCounted s t (begins _ topic) small inv = begin-IsCounted topic s inv
Step-IsCounted s t (reads _ before after topic at) small inv =
    read-IsCounted s before after topic at inv
Step-IsCounted s t (writes _ before after topic value at) small inv =
    write-IsCounted s before after topic value at (omega (arith, small)) inv

-- However the goroutines that count events interleave, while fewer than 2^64 - 1 events are done: the
-- number of exported events is that of the events that were begun, modulo 2^64; a topic's counter is
-- there once one of its events is done, then at least 2 and at most one more than the number of its
-- events that are done.
pub Reach-IsCounted : (s : System) → Reach s → length s.finished + 1 < uint64_mod → IsCounted s
unfolding load occurrences
Reach-IsCounted s initial small = record { exported = refl; counters = λ topic. refl; pending = tt }
Reach-IsCounted t (later s _ reached step) small =
    Step-IsCounted s t step small
      (Reach-IsCounted s reached (omega (arith, small, finished_mono s t step)))

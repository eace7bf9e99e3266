-- ===== src/Processor/Summary/Race/Lost.antt =====
-- Goroutines that all read a counter of pkg/processor/summary.go before one of them stores it.
use xatu_sidecar.Prelude.{
  ℕ, zero, suc, ◌+◌, ◌%◌, String, ◌≡◌, refl, ap, subst, some, List, [], ◌∷◌, arith, eq_refl,
}
use xatu_sidecar.Processor.Summary.{load, store, load_or_store, uint64_mod, add_events_exported}
use xatu_sidecar.Processor.Summary.Race.{
  loaded, System, begin, read, write, begins, reads, writes, idle, Reach, initial, later,
}

abbrev pub repeat {ℓ} : {A : Type ℓ} → ℕ → A → List A
repeat zero x = []
repeat (suc n) x = x ∷ repeat n x

-- Of all the goroutines, some wait with the counter 1 that they read and some are done.
abbrev reading : String → ℕ → ℕ → ℕ → ℕ → System
reading topic value all waiting done = record {
  summary = record {
    event_stream_events = (topic, value) ∷ [];
    events_exported = all % uint64_mod;
    failed_events = 0;
  };
  pending = repeat waiting (loaded topic 1);
  finished = repeat done topic;
}

first : (topic : String) → read [] topic [] (begin topic idle) ≡ reading topic 1 1 1 0
unfolding read begin load store add_events_exported
first topic = refl

found : (topic : String) (value : ℕ) → load topic ((topic, value) ∷ []) ≡ some value
unfolding load
found topic value = rw (eq_refl topic) refl

next :
    (topic : String) (n : ℕ)
    → read [] topic (repeat n (loaded topic 1)) (begin topic (reading topic 1 n n 0))
      ≡ reading topic 1 (suc n) (suc n) 0
unfolding read begin add_events_exported
next topic n =
    rw (load_or_store, found topic 1)
      (ap
        (λ all. record {
          summary = record {
            event_stream_events = (topic, 1) ∷ [];
            events_exported = all;
            failed_events = 0;
          };
          pending = loaded topic 1 ∷ repeat n (loaded topic 1);
          finished = [];
        })
        (omega arith))

stored :
    (topic : String) (value all n done : ℕ)
    → write [] topic 1 (repeat n (loaded topic 1)) (reading topic value all (suc n) done)
      ≡ reading topic 2 all n (suc done)
unfolding write store
stored topic value all n done = rw (eq_refl topic) refl

all_reading : (topic : String) (n : ℕ) → Reach (reading topic 1 (suc n) (suc n) 0)
unfolding begin
all_reading topic zero = subst Reach (first topic) (
    later (begin topic idle) _ (later idle _ initial (begins idle topic))
      (reads (begin topic idle) [] [] topic refl))
all_reading topic (suc n) =
    let before = reading topic 1 (suc n) (suc n) 0 in
    subst Reach (next topic (suc n)) (
      later (begin topic before) _ (later before _ (all_reading topic n) (begins before topic))
        (reads (begin topic before) [] (repeat (suc n) (loaded topic 1)) topic refl))

one_done :
    (topic : String) (value all n done : ℕ)
    → Reach (reading topic value all (suc n) done)
    → Reach (reading topic 2 all n (suc done))
one_done topic value all n done reached =
    let before = reading topic value all (suc n) done in
    subst Reach (stored topic value all n done)
      (later before _ reached (writes before [] (repeat n (loaded topic 1)) topic 1 refl))

all_done :
    (topic : String) (value all n done : ℕ)
    → Reach (reading topic value all (suc n) done)
    → Reach (reading topic 2 all 0 (suc n + done))
all_done topic value all zero done reached =
    subst (λ k. Reach (reading topic 2 all 0 k)) {x = suc done} (omega arith)
      (one_done topic value all 0 done reached)
all_done topic value all (suc n) done reached =
    subst (λ k. Reach (reading topic 2 all 0 k)) (omega arith)
      (all_done topic 2 all n (suc done) (one_done topic value all (suc n) done reached))

-- However many goroutines each count one event of a topic, an interleaving leaves the counter of the
-- topic at 2, as after a single event, while the number of exported events is right modulo 2^64.
pub updates_lost :
    (topic : String) (n : ℕ)
    → (s : System) × Reach s
      × (s.pending ≡ [])
      × (s.finished ≡ repeat (suc n) topic)
      × (s.summary.events_exported ≡ suc n % uint64_mod)
      × (load topic s.summary.event_stream_events ≡ some 2)
updates_lost topic n = (
  reading topic 2 (suc n) 0 (suc n + 0),
  all_done topic 1 (suc n) n 0 (all_reading topic n),
  refl,
  ap (λ k. repeat k topic) {y = suc n} (omega arith),
  refl,
  found topic 2,
)

-- ===== src/Tests/Caches.antt =====
-- The theorems on the caches and the counters at concrete histories.
use xatu_sidecar.Prelude.{ℕ, ◌%◌, ◌^◌, ◌≡◌, refl, true, false, none, some, List, [], ◌∷◌, arith}
use xatu_sidecar.Prelude.Int.{ℤ, pos}
use xatu_sidecar.Outcome.{Outcome, ok}
use xatu_sidecar.Cache.BlockSlot.{resolve}
use xatu_sidecar.Cache.BlockSlot.Learned
use xatu_sidecar.Cache.BlockSlot.Learned.{Call, last_slot, resolve-last_slot}
use xatu_sidecar.Event.Source.{Source, new_source}
use xatu_sidecar.Event.BeaconBlock.{RawBeaconBlock}
use xatu_sidecar.Event.Freshness.{should_ignore_hashed}
use xatu_sidecar.Event.Freshness.History
use xatu_sidecar.Event.Freshness.History.{Asked, recent, should_ignore_hashed-recent}
use xatu_sidecar.Processor.Handler.{create_new_client_meta}
use xatu_sidecar.Tests.World.{world, sidecar_with, chain_clock, block_100}
use xatu_sidecar.Processor.Summary.{load, new_summary}
use xatu_sidecar.Processor.Summary.Counts.{count_events, occurrences, counts_one_too_many}
use xatu_sidecar.Tests.Store.{store_cache, store_cache-TtlLaws}

-- The root 0xaa is learned, and another root and an empty slot follow.
abbrev calls : List Call
calls =
    record { at = 30; root = "0xaa"; slot = 0 }
    ∷ record { at = 20; root = "0xbb"; slot = 8 }
    ∷ record { at = 10; root = "0xaa"; slot = 7 }
    ∷ []

resolve-last_slot_example :
    (resolve (store_cache ℕ) 40 "0xaa" 0 (Learned.replay (store_cache ℕ) calls)).0 ≡ 7
unfolding last_slot
resolve-last_slot_example =
    resolve-last_slot (store_cache ℕ) (store_cache-TtlLaws ℕ) calls 40 0 "0xaa"
      (omega arith, (omega arith, (omega arith, tt)))

-- A hash of blocks that is a uint64.
abbrev slot_hash : RawBeaconBlock → Outcome ℕ
slot_hash raw = ok (raw.slot % 2 ^ 64)

abbrev about : RawBeaconBlock → Source RawBeaconBlock
about raw =
    new_source raw raw.timestamp_ms (pos 0) chain_clock
      (create_new_client_meta world (sidecar_with []) (pos 0)) "uuid"

-- An event without a raw event comes last, another block before it and the block first.
abbrev asked : List (Asked RawBeaconBlock)
asked =
    record { at = 30; event = record (about block_100) { raw = none }; rest = λ raw. ok false }
    ∷ record { at = 20; event = about (record block_100 { slot = 101 }); rest = λ raw. ok true }
    ∷ record { at = 10; event = about block_100; rest = λ raw. ok false }
    ∷ []

should_ignore_hashed-recent_example :
    (should_ignore_hashed
      (store_cache ℤ)
      slot_hash
      (λ raw. ok false)
      60
      (about block_100)
      (History.replay slot_hash (store_cache ℤ) 50 asked)).0
    ≡ ok true
unfolding recent
should_ignore_hashed-recent_example =
    should_ignore_hashed-recent slot_hash (store_cache ℤ) (store_cache-TtlLaws ℤ)
      (λ raw k h. ground arith) 50 asked 60 100 (about block_100) block_100 (λ raw. ok false)
      (omega arith, (omega arith, (omega arith, tt))) refl refl

counts_one_too_many_example :
    load "block" (count_events ("block" ∷ "vote" ∷ "block" ∷ []) new_summary).event_stream_events
    ≡ some 3
unfolding occurrences
counts_one_too_many_example = counts_one_too_many ("block" ∷ "vote" ∷ "block" ∷ []) "block"

-- ===== src/Tests/Answers.antt =====
-- The theorems on handling events without a panic, on learned slots and on `Init` at concrete runs.
use xatu_sidecar.Processor.EventType.{event_type?}
use xatu_sidecar.Cache.BlockSlot.Learned.{last_slot}
use xatu_sidecar.Processor.Dispatch.Learning.History.{Arrival, handled, calls_of, handled-last_slot}
use xatu_sidecar.Json.{
  unmarshal, store_all, to_text, to_unsigned, to_int64, names, text_field, uint64_field,
  uint32_field, int64_field, pure, ◌>>=◌,
}
use xatu_sidecar.Event.Decoding.Blocks.{decode_beacon_block}
use xatu_sidecar.Prelude.{ℕ, ◌≡◌, refl, none, List, [], ◌∷◌, arith}
use xatu_sidecar.Outcome.{ok}
use xatu_sidecar.Event.Returning.{Returns, Answers}
use xatu_sidecar.Processor.Handler.{resolve_slot}
use xatu_sidecar.Processor.Dispatch.{handle_raw_event}
use xatu_sidecar.Processor.Dispatch.Panics.{Answering}
use xatu_sidecar.Processor.Dispatch.Panics.RawEvent.{handle_raw_event-Returns}
use xatu_sidecar.Sidecar.{Globals}
use xatu_sidecar.Tests.Store.{store_cache-TtlLaws}
use xatu_sidecar.Tests.World.{typed, world, sidecar_with, in_slot, chain_clock}

pub world-Answering : Answering world
world-Answering = record {
  calm = λ sent s event p. ground arith;
  hash_beacon_block = λ raw q. cc q;
  hash_attestation = λ raw q. cc q;
  hash_aggregate_and_proof = λ raw q. cc q;
  hash_blob_sidecar = λ raw q. cc q;
  hash_data_column_sidecar = λ raw q. cc q;
  hash_data_column_sidecar_gloas = λ raw q. cc q;
  hash_execution_payload_envelope = λ raw q. cc q;
  hash_execution_payload_bid = λ raw q. cc q;
  hash_payload_attestation_message = λ raw q. cc q;
  hash_proposer_preferences = λ raw q. cc q;
  hash_partial_data_column = λ raw q. cc q;
  hash_partial_data_column_outcome = λ raw q. cc q;
}

pub chain_clock-Answers : Answers chain_clock
chain_clock-Answers = record { now = λ t q. cc q; from_time = λ t q. cc q }

handle_raw_event-Returns_example :
    Returns
      (handle_raw_event world
        (in_slot 100 "uuid")
        (typed "BEACON_BLOCK")
        "BEACON_BLOCK"
        (sidecar_with (1 ∷ []))).0
handle_raw_event-Returns_example =
    handle_raw_event-Returns world world-Answering (in_slot 100 "uuid") (typed "BEACON_BLOCK")
      "BEACON_BLOCK" (sidecar_with (1 ∷ [])) chain_clock-Answers

-- A beacon block comes first, and a message of no known type after it.
abbrev history : List Arrival
history =
    record { moment = in_slot 101 "next"; event_type = "?"; message = typed "?" }
    ∷ record {
      moment = in_slot 100 "uuid";
      event_type = "BEACON_BLOCK";
      message = typed "BEACON_BLOCK";
    }
    ∷ []

handled-last_slot_example :
    (resolve_slot world
      (in_slot 102 "last")
      "0xaa"
      0
      (handled world history (sidecar_with (1 ∷ [])))).0
    ≡ ok 100
unfolding event_type? last_slot calls_of decode_beacon_block unmarshal store_all to_text to_unsigned
    to_int64 names text_field uint64_field uint32_field int64_field pure ◌>>=◌
handled-last_slot_example =
    handled-last_slot world (store_cache-TtlLaws ℕ) history (sidecar_with (1 ∷ [])) refl
      (in_slot 102 "last") "0xaa" 0 (omega arith, tt)

abbrev fresh : Globals world
fresh = record { log = none; handler = none }

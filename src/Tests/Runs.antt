-- ===== src/Tests/Runs.antt =====
-- The theorems on handling events at concrete runs.
use xatu_sidecar.Processor.Dispatch.Fresh.Message.{FreshFor, handle_raw_event-Fresh}
use xatu_sidecar.Sidecar.Exported.{process_event-Sent}
use xatu_sidecar.Event.RoundTrip.Message.{message_of}
use xatu_sidecar.Event.RoundTrip.Typed.{RawEvent}
use xatu_sidecar.Json.{Json, unmarshal_messages, unmarshal, store_all, to_text, names, text_field}
use xatu_sidecar.Prelude.{ℕ, ◌≡◌, refl, none, some, [], ◌∷◌, arith}
use xatu_sidecar.Cache.Duplicate.{new_duplicate_cache}
use xatu_sidecar.Prelude.Int.{◌+ℤ◌, ℤ, pos}
use xatu_sidecar.Outcome.{ok, panic}
use xatu_sidecar.Proto.{EventName, DecoratedEvent}
use xatu_sidecar.Proto.Payload.{EventData}
use xatu_sidecar.Proto.Additional.{AdditionalData}
use xatu_sidecar.Event.Source.{Moment}
use xatu_sidecar.Event.Gossip.{slot_v2, epoch_v2, gossip_data}
use xatu_sidecar.Event.Instant.{slot_start_diff, unix_milli}
use xatu_sidecar.Event.BeaconBlock
use xatu_sidecar.Event.Freshness.{too_old}
use xatu_sidecar.Processor.EventType.{EventType, event_type?}
use xatu_sidecar.Processor.Handler.{
  Handler, count, topic_of, create_new_client_meta, handle_new_decorated_event,
}
use xatu_sidecar.Processor.Handler.Delivery.{CalmSinks, delivered, handle_new_decorated_event_all}
use xatu_sidecar.Processor.Dispatch.{handle, handle_raw_event}
use xatu_sidecar.Processor.Dispatch.Effect.{Effect}
use xatu_sidecar.Processor.Dispatch.RawEvent.{Fits, handle_raw_event-Effect}
use xatu_sidecar.Processor.Dispatch.Exported.{Sent}
use xatu_sidecar.Processor.Dispatch.Twice.{Quiet}
use xatu_sidecar.Processor.Dispatch.Twice.Handled.{handle_twice}
use xatu_sidecar.Sidecar.{
  decode_event_type, Globals, LogLevel, init, send_event_batch, process_events, split_batch,
  process_event,
}
use xatu_sidecar.Sidecar.Codes.{send_event_batch-code, send_event_batch_before_init}
use xatu_sidecar.Sidecar.Batch.{Exported, process_events-Exports}
use xatu_sidecar.Sidecar.Delivered.{Given, process_events-Sent}
use xatu_sidecar.Tests.Answers.{world-Answering, chain_clock-Answers}
use xatu_sidecar.Sidecar.Reached.{Reached, Call, IsSound, Reached-IsSound}
use xatu_sidecar.Tests.Store.{store_cache, find, store_cache-TtlLaws}
use xatu_sidecar.Tests.World.{
  typed, world, sidecar_with, in_slot, block_100, slot_window, epoch_window,
}

abbrev sidecar : Handler world
sidecar = sidecar_with (1 ∷ 2 ∷ [])

calm : CalmSinks world
calm sent s event = λ p. ground arith

abbrev moments : ℕ → Moment
moments n = in_slot 100 "uuid"

abbrev block_event : DecoratedEvent
block_event = record {
  event = record {
    name = EventName.libp2p_trace_gossipsub_beacon_block;
    date_time = pos 1_201_500_000_000;
    id = "uuid";
  };
  client = record (create_new_client_meta world sidecar (pos 0)) {
    additional_data = some (
        AdditionalData.beacon_block (record {
          wallclock_slot = slot_v2 100 (slot_window 100);
          wallclock_epoch = epoch_v2 (epoch_window 3);
          slot = slot_v2 100 (slot_window 100);
          epoch = epoch_v2 (epoch_window 3);
          propagation = 1_500;
          peer_id = "peer";
          topic = "beacon_block";
          message_id = "message";
          message_size = 512;
        }));
  };
  payload = EventData.beacon_block (record { slot = 100; block = "0xaa"; proposer_index = 7 });
}

handle_twice_example :
    Quiet world
      (handle world EventType.beacon_block (in_slot 100 "uuid") (typed "BEACON_BLOCK") sidecar).1
      (handle world EventType.beacon_block
        (in_slot 101 "next")
        (typed "BEACON_BLOCK")
        (handle world EventType.beacon_block (in_slot 100 "uuid") (typed "BEACON_BLOCK") sidecar).1)
unfolding store_cache new_duplicate_cache
handle_twice_example =
    handle_twice world (store_cache-TtlLaws ℤ) EventType.beacon_block (in_slot 100 "uuid")
      (in_slot 101 "next") (typed "BEACON_BLOCK") sidecar
      (record { touches = refl; after = omega arith; within = omega arith })

handle_raw_event-Effect_example :
    Effect world
      (Fits world (in_slot 100 "uuid") (typed "BEACON_BLOCK") "BEACON_BLOCK" sidecar)
      sidecar
      (handle_raw_event world (in_slot 100 "uuid") (typed "BEACON_BLOCK") "BEACON_BLOCK" sidecar)
handle_raw_event-Effect_example =
    handle_raw_event-Effect world calm (in_slot 100 "uuid") (typed "BEACON_BLOCK") "BEACON_BLOCK"
      sidecar

handle_new_decorated_event_all_example : handle_new_decorated_event world block_event sidecar ≡ (
  ok tt,
  record (count world (topic_of world block_event) sidecar) {
    sent = (2, block_event) ∷ (1, block_event) ∷ [];
  },
)
unfolding delivered
handle_new_decorated_event_all_example =
    handle_new_decorated_event_all world calm block_event sidecar

process_events-Exports_example :
    Exported world moments 0
      (typed "BEACON_BLOCK" ∷ typed "?" ∷ [])
      sidecar
      (process_events world moments 0 (typed "BEACON_BLOCK" ∷ typed "?" ∷ []) sidecar).1
process_events-Exports_example =
    process_events-Exports world calm moments 0 (typed "BEACON_BLOCK" ∷ typed "?" ∷ []) sidecar

process_events-Sent_example :
    ((process_events world moments 0
        (typed "?" ∷ message_of (RawEvent.beacon_block block_100) ∷ Json.null ∷ [])
        sidecar).0
      ≡ ok tt)
    × Given world block_event sidecar
        (process_events world moments 0
          (typed "?" ∷ message_of (RawEvent.beacon_block block_100) ∷ Json.null ∷ [])
          sidecar).1
unfolding store_cache find new_duplicate_cache too_old BeaconBlock.decorate gossip_data
    slot_start_diff ◌+ℤ◌ unix_milli process_events process_event handle_raw_event event_type?
    decode_event_type unmarshal text_field store_all to_text names
process_events-Sent_example =
    process_events-Sent world world-Answering (store_cache-TtlLaws ℤ) moments 0 (typed "?" ∷ [])
      (Json.null ∷ []) (RawEvent.beacon_block block_100) block_event sidecar chain_clock-Answers
      (record {
        timestamp_ms = omega arith;
        slot = omega arith;
        epoch = omega arith;
        proposer_index = omega arith;
        message_size = omega arith;
      })
      (100, refl, (refl, refl)) refl

abbrev ready : Globals world
ready = record { log = some LogLevel.info; handler = some sidecar }

abbrev bare : Globals world
bare = record { log = none; handler = none }

send_event_batch-code_example :
    (send_event_batch world moments (some "BEACON_BLOCK") ready).0 ≡ ok (pos 0)
unfolding split_batch unmarshal_messages
send_event_batch-code_example =
    send_event_batch-code world moments (some "BEACON_BLOCK") ready LogLevel.info refl

send_event_batch_before_init_example :
    send_event_batch world moments (some "BEACON_BLOCK") bare ≡ (panic, bare)
send_event_batch_before_init_example =
    send_event_batch_before_init world moments (some "BEACON_BLOCK") bare refl refl

Reached-IsSound_example : IsSound world (init world "id" (some "") bare).1
Reached-IsSound_example =
    Reached-IsSound world calm (init world "id" (some "") bare).1
      (Reached.after bare _ Reached.initial (Call.called_init bare "id" (some "")))

process_event-Sent_example : Sent world block_event sidecar (
    process_event world (in_slot 100 "uuid") (message_of (RawEvent.beacon_block block_100)) sidecar)
unfolding store_cache find new_duplicate_cache too_old BeaconBlock.decorate gossip_data
    slot_start_diff ◌+ℤ◌ unix_milli
process_event-Sent_example =
    process_event-Sent world (store_cache-TtlLaws ℤ) calm (in_slot 100 "uuid") sidecar
      (RawEvent.beacon_block block_100) block_event
      (record {
        timestamp_ms = omega arith;
        slot = omega arith;
        epoch = omega arith;
        proposer_index = omega arith;
        message_size = omega arith;
      })
      (100, refl, (refl, refl)) refl

handle_raw_event-Fresh_example :
    Effect world
      (FreshFor world (in_slot 100 "uuid") (typed "BEACON_BLOCK") "BEACON_BLOCK" sidecar)
      sidecar
      (handle_raw_event world (in_slot 100 "uuid") (typed "BEACON_BLOCK") "BEACON_BLOCK" sidecar)
handle_raw_event-Fresh_example =
    handle_raw_event-Fresh world (store_cache-TtlLaws ℤ) calm (in_slot 100 "uuid")
      (typed "BEACON_BLOCK") "BEACON_BLOCK" sidecar

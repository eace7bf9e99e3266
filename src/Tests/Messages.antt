-- ===== src/Tests/Messages.antt =====
-- A message of README.md, decoded.
use xatu_sidecar.Prelude.{◌≡◌, arith}
use xatu_sidecar.Outcome.{ok}
use xatu_sidecar.Sidecar.{decode_event_type}
use xatu_sidecar.Processor.EventType.{event_type_text}
use xatu_sidecar.Event.RoundTrip.Typed.{RawEvent, type_of, decode_message}
use xatu_sidecar.Event.RoundTrip.Message.{message_of, decode_message-message_of}
use xatu_sidecar.Tests.World.{block_100}

decode_message-message_of_example :
    (decode_event_type (message_of (RawEvent.beacon_block block_100))
      ≡ ok (event_type_text (type_of (RawEvent.beacon_block block_100))))
    × (decode_message
          (type_of (RawEvent.beacon_block block_100))
          (message_of (RawEvent.beacon_block block_100))
        ≡ ok (RawEvent.beacon_block block_100))
decode_message-message_of_example =
    decode_message-message_of (RawEvent.beacon_block block_100) (record {
      timestamp_ms = omega arith;
      slot = omega arith;
      epoch = omega arith;
      proposer_index = omega arith;
      message_size = omega arith;
    })

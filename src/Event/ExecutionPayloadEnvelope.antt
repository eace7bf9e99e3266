-- ===== src/Event/ExecutionPayloadEnvelope.antt =====
-- pkg/event/gossipsub/execution_payload_envelope.go
use xatu_sidecar.Prelude.{ℕ, String, Bool, none, some}
use xatu_sidecar.Prelude.Int.{ℤ}
use xatu_sidecar.Outcome.{Outcome, panic, map_ok, Method}
use xatu_sidecar.Ttl.{TtlCache}
use xatu_sidecar.Wallclock.{Wallclock}
use xatu_sidecar.Proto.{ClientMeta, EventName, DecoratedEvent}
use xatu_sidecar.Proto.Payload.{EventData}
use xatu_sidecar.Proto.Additional.{AdditionalData, GossipData}
use xatu_sidecar.Event.Instant.{unix_milli}
use xatu_sidecar.Event.Source.{Moment, Source, new_source, base_event, attach}
use xatu_sidecar.Event.Freshness.{too_old, should_ignore_hashed}
use xatu_sidecar.Event.Gossip.{gossip_data}

pub record RawExecutionPayloadEnvelope : Type 0 where
  pub timestamp_ms : ℤ
  pub slot : ℕ
  pub epoch : ℕ
  pub builder_index : ℕ
  pub message_size : ℕ
  pub peer_id : String
  pub message_id : String
  pub topic : String
  pub beacon_block_root : String
  pub block_hash : String
  pub state_root : String

abbrev pub ExecutionPayloadEnvelope : Type 0
ExecutionPayloadEnvelope = Source RawExecutionPayloadEnvelope

abbrev pub new_execution_payload_envelope :
    RawExecutionPayloadEnvelope → ℤ → Wallclock → ClientMeta → String → ExecutionPayloadEnvelope
new_execution_payload_envelope raw drift w meta uuid =
    new_source raw raw.timestamp_ms drift w meta uuid

abbrev get_additional_data :
    ExecutionPayloadEnvelope → RawExecutionPayloadEnvelope → ℤ → Outcome GossipData
get_additional_data e raw timestamp =
    gossip_data e.wallclock timestamp raw.slot raw.slot raw.peer_id raw.topic raw.message_id
      raw.message_size

unfoldable pub decorate : ExecutionPayloadEnvelope → Outcome DecoratedEvent
decorate e = elim e.raw [
  | none ↦ panic
  | some raw ↦
      attach
        (base_event e EventName.libp2p_trace_gossipsub_execution_payload_envelope
          (unix_milli raw.timestamp_ms)
          (EventData.execution_payload_envelope (record {
            slot = raw.slot;
            builder_index = raw.builder_index;
            beacon_block_root = raw.beacon_block_root;
            block_hash = raw.block_hash;
            state_root = raw.state_root;
          })))
        (map_ok AdditionalData.execution_payload_envelope
          (get_additional_data e raw (unix_milli raw.timestamp_ms)))
]

module _ (D : TtlCache ℤ) (hash : RawExecutionPayloadEnvelope → Outcome ℕ) where
  unfoldable pub should_ignore : Moment → ExecutionPayloadEnvelope → Method D.Cache Bool
  unfolding should_ignore_hashed
  should_ignore m e =
      should_ignore_hashed D hash (λ raw. too_old e.wallclock raw.slot m.slot_at) m.dedup_at e

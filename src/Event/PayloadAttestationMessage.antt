-- ===== src/Event/PayloadAttestationMessage.antt =====
-- pkg/event/gossipsub/payload_attestation_message.go
use xatu_sidecar.Prelude.{ℕ, String, Bool, none, some}
use xatu_sidecar.Prelude.Int.{ℤ}
use xatu_sidecar.Outcome.{Outcome, panic, map_ok, Method}
use xatu_sidecar.Ttl.{TtlCache}
use xatu_sidecar.Wallclock.{Wallclock}
use xatu_sidecar.Proto.{ClientMeta, EventName, DecoratedEvent}
use xatu_sidecar.Proto.Payload.{EventData}
use xatu_sidecar.Proto.Additional.{AdditionalData, GossipData}
use xatu_sidecar.Event.Instant.{unix_milli}
use xatu_sidecar.Event.Source.{Moment, Source, new_source, base_event, attach}
use xatu_sidecar.Event.Freshness.{too_old, should_ignore_hashed}
use xatu_sidecar.Event.Gossip.{gossip_data}

pub record RawPayloadAttestationMessage : Type 0 where
  pub timestamp_ms : ℤ
  pub slot : ℕ
  pub epoch : ℕ
  pub validator_index : ℕ
  pub message_size : ℕ
  pub payload_present : Bool
  pub blob_data_available : Bool
  pub peer_id : String
  pub message_id : String
  pub topic : String
  pub beacon_block_root : String

abbrev pub PayloadAttestationMessage : Type 0
PayloadAttestationMessage = Source RawPayloadAttestationMessage

abbrev pub new_payload_attestation_message :
    RawPayloadAttestationMessage → ℤ → Wallclock → ClientMeta → String → PayloadAttestationMessage
new_payload_attestation_message raw drift w meta uuid =
    new_source raw raw.timestamp_ms drift w meta uuid

abbrev get_additional_data :
    PayloadAttestationMessage → RawPayloadAttestationMessage → ℤ → Outcome GossipData
get_additional_data e raw timestamp =
    gossip_data e.wallclock timestamp raw.slot raw.slot raw.peer_id raw.topic raw.message_id
      raw.message_size

unfoldable pub decorate : PayloadAttestationMessage → Outcome DecoratedEvent
decorate e = elim e.raw [
  | none ↦ panic
  | some raw ↦
      attach
        (base_event e EventName.libp2p_trace_gossipsub_payload_attestation_message
          (unix_milli raw.timestamp_ms)
          (EventData.payload_attestation_message (record {
            slot = raw.slot;
            validator_index = raw.validator_index;
            beacon_block_root = raw.beacon_block_root;
            payload_present = raw.payload_present;
            blob_data_available = raw.blob_data_available;
          })))
        (map_ok AdditionalData.payload_attestation_message
          (get_additional_data e raw (unix_milli raw.timestamp_ms)))
]

module _ (D : TtlCache ℤ) (hash : RawPayloadAttestationMessage → Outcome ℕ) where
  unfoldable pub should_ignore : Moment → PayloadAttestationMessage → Method D.Cache Bool
  unfolding should_ignore_hashed
  should_ignore m e =
      should_ignore_hashed D hash (λ raw. too_old e.wallclock raw.slot m.slot_at) m.dedup_at e

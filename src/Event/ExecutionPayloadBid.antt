-- ===== src/Event/ExecutionPayloadBid.antt =====
-- pkg/event/gossipsub/execution_payload_bid.go
use xatu_sidecar.Prelude.{ℕ, String, Bool, none, some}
use xatu_sidecar.Prelude.Int.{ℤ}
use xatu_sidecar.Outcome.{Outcome, panic, map_ok, Method}
use xatu_sidecar.Ttl.{TtlCache}
use xatu_sidecar.Wallclock.{Wallclock}
use xatu_sidecar.Proto.{ClientMeta, EventName, DecoratedEvent}
use xatu_sidecar.Proto.Payload.{EventData}
use xatu_sidecar.Proto.Additional.{AdditionalData, GossipData}
use xatu_sidecar.Event.Instant.{unix_milli}
use xatu_sidecar.Event.Source.{Moment, Source, new_source, base_event, attach}
use xatu_sidecar.Event.Freshness.{too_old, should_ignore_hashed}
use xatu_sidecar.Event.Gossip.{gossip_data}

pub record RawExecutionPayloadBid : Type 0 where
  pub timestamp_ms : ℤ
  pub slot : ℕ
  pub epoch : ℕ
  pub builder_index : ℕ
  pub value : ℕ
  pub execution_payment : ℕ
  pub gas_limit : ℕ
  pub blob_kzg_commitment_count : ℕ
  pub message_size : ℕ
  pub peer_id : String
  pub message_id : String
  pub topic : String
  pub block_hash : String
  pub parent_block_hash : String
  pub fee_recipient : String

abbrev pub ExecutionPayloadBid : Type 0
ExecutionPayloadBid = Source RawExecutionPayloadBid

abbrev pub new_execution_payload_bid :
    RawExecutionPayloadBid → ℤ → Wallclock → ClientMeta → String → ExecutionPayloadBid
new_execution_payload_bid raw drift w meta uuid = new_source raw raw.timestamp_ms drift w meta uuid

abbrev get_additional_data : ExecutionPayloadBid → RawExecutionPayloadBid → ℤ → Outcome GossipData
get_additional_data e raw timestamp =
    gossip_data e.wallclock timestamp raw.slot raw.slot raw.peer_id raw.topic raw.message_id
      raw.message_size

unfoldable pub decorate : ExecutionPayloadBid → Outcome DecoratedEvent
decorate e = elim e.raw [
  | none ↦ panic
  | some raw ↦
      attach
        (base_event e EventName.libp2p_trace_gossipsub_execution_payload_bid
          (unix_milli raw.timestamp_ms)
          (EventData.execution_payload_bid (record {
            slot = raw.slot;
            builder_index = raw.builder_index;
            block_hash = raw.block_hash;
            parent_block_hash = raw.parent_block_hash;
            value = raw.value;
            execution_payment = raw.execution_payment;
            fee_recipient = raw.fee_recipient;
            gas_limit = raw.gas_limit;
            blob_kzg_commitment_count = raw.blob_kzg_commitment_count;
          })))
        (map_ok AdditionalData.execution_payload_bid
          (get_additional_data e raw (unix_milli raw.timestamp_ms)))
]

module _ (D : TtlCache ℤ) (hash : RawExecutionPayloadBid → Outcome ℕ) where
  unfoldable pub should_ignore : Moment → ExecutionPayloadBid → Method D.Cache Bool
  unfolding should_ignore_hashed
  should_ignore m e =
      should_ignore_hashed D hash (λ raw. too_old e.wallclock raw.slot m.slot_at) m.dedup_at e

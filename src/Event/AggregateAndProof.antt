-- ===== src/Event/AggregateAndProof.antt =====
-- pkg/event/gossipsub/aggregate_and_proof.go
use xatu_sidecar.Prelude.{ℕ, String, Bool, none, some}
use xatu_sidecar.Prelude.Int.{ℤ}
use xatu_sidecar.Outcome.{Outcome, panic, map_ok, Method}
use xatu_sidecar.Ttl.{TtlCache}
use xatu_sidecar.Wallclock.{Wallclock}
use xatu_sidecar.Proto.{ClientMeta, EventName, DecoratedEvent}
use xatu_sidecar.Proto.Payload.{EventData}
use xatu_sidecar.Proto.Additional.{AdditionalData}
use xatu_sidecar.Event.Instant.{unix_milli}
use xatu_sidecar.Event.Source.{Moment, Source, new_source, base_event, attach}
use xatu_sidecar.Event.Freshness.{too_old, should_ignore_hashed}
use xatu_sidecar.Event.Gossip.{gossip_data}
use xatu_sidecar.Proto.Payload
use xatu_sidecar.Proto.Additional.{AggregateData}

pub record RawAggregateAndProof : Type 0 where
  pub slot : ℕ
  pub epoch : ℕ
  pub aggregator_index : ℕ
  pub timestamp_ms : ℤ
  pub source_epoch : ℕ
  pub target_epoch : ℕ
  pub committee_index : ℕ
  pub message_size : ℕ
  pub peer_id : String
  pub message_id : String
  pub attestation_data_root : String
  pub topic : String
  pub source_root : String
  pub target_root : String
  pub aggregation_bits : String
  pub signature : String

abbrev pub AggregateAndProof : Type 0
AggregateAndProof = Source RawAggregateAndProof

abbrev pub new_aggregate_and_proof :
    RawAggregateAndProof → ℤ → Wallclock → ClientMeta → String → AggregateAndProof
new_aggregate_and_proof raw drift w meta uuid = new_source raw raw.timestamp_ms drift w meta uuid

abbrev get_additional_data : AggregateAndProof → RawAggregateAndProof → ℤ → Outcome AggregateData
get_additional_data e raw timestamp =
    map_ok (λ gossip. record { gossip = gossip; aggregator_index = raw.aggregator_index })
      (gossip_data e.wallclock timestamp raw.slot (e.wallclock.slot_from_number raw.slot).number
        raw.peer_id raw.topic raw.message_id raw.message_size)

abbrev aggregate_message : RawAggregateAndProof → Payload.AggregateAndProof
aggregate_message raw = record {
  aggregator_index = raw.aggregator_index;
  attestation = record {
    aggregation_bits = raw.aggregation_bits;
    slot = raw.slot;
    beacon_block_root = raw.attestation_data_root;
    source = record { epoch = raw.source_epoch; root = raw.source_root };
    target = record { epoch = raw.target_epoch; root = raw.target_root };
  };
  index = raw.committee_index;
  signature = raw.signature;
}

unfoldable pub decorate : AggregateAndProof → Outcome DecoratedEvent
decorate e = elim e.raw [
  | none ↦ panic
  | some raw ↦
      attach
        (base_event e EventName.libp2p_trace_gossipsub_aggregate_and_proof
          (unix_milli raw.timestamp_ms) (EventData.aggregate_and_proof (aggregate_message raw)))
        (map_ok AdditionalData.aggregate_and_proof
          (get_additional_data e raw (unix_milli raw.timestamp_ms)))
]

module _ (D : TtlCache ℤ) (hash : RawAggregateAndProof → Outcome ℕ) where
  unfoldable pub should_ignore : Moment → AggregateAndProof → Method D.Cache Bool
  unfolding should_ignore_hashed
  should_ignore m e =
      should_ignore_hashed D hash (λ raw. too_old e.wallclock raw.slot m.slot_at) m.dedup_at e

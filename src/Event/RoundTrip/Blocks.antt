-- ===== src/Event/RoundTrip/Blocks.antt =====
-- The fields that README.md documents for blocks and votes, and their decoding.
use xatu_sidecar.Prelude.{◌^◌, ◌<◌, String, ◌≡◌, refl}
use xatu_sidecar.Outcome.{ok}
use xatu_sidecar.Json.{natural, boolean, number, text, object, Members, ◌⨾◌, empty_object, names}
use xatu_sidecar.Json.Stored.{
  values, integer, IsInt64, ◌⊳⟨◌⟩◌, pure-Reads, unmarshal-Reads, text_field-stored,
  boolean_field-stored, uint64_field-stored, uint32_field-stored, int64_field-stored,
}
use xatu_sidecar.Event.BeaconBlock.{RawBeaconBlock}
use xatu_sidecar.Event.Attestation.{RawAttestation}
use xatu_sidecar.Event.AggregateAndProof.{RawAggregateAndProof}
use xatu_sidecar.Event.Decoding.Blocks.{
  decode_beacon_block, decode_attestation, decode_aggregate_and_proof,
}

-- The integers of a raw event are within the ranges of their types.
pub record BeaconBlockInRange (raw : RawBeaconBlock) : Type 0 where
  pub timestamp_ms : IsInt64 raw.timestamp_ms
  pub slot : raw.slot < 2 ^ 64
  pub epoch : raw.epoch < 2 ^ 64
  pub proposer_index : raw.proposer_index < 2 ^ 64
  pub message_size : raw.message_size < 2 ^ 32

unfoldable pub beacon_block_members : String → RawBeaconBlock → Members
beacon_block_members event_type raw =
    ("event_type", text event_type)
    ⨾ ("timestamp_ms", integer raw.timestamp_ms)
    ⨾ ("slot", number (natural raw.slot))
    ⨾ ("epoch", number (natural raw.epoch))
    ⨾ ("proposer_index", number (natural raw.proposer_index))
    ⨾ ("message_size", number (natural raw.message_size))
    ⨾ ("peer_id", text raw.peer_id)
    ⨾ ("message_id", text raw.message_id)
    ⨾ ("topic", text raw.topic)
    ⨾ ("block_root", text raw.block_root)
    ⨾ empty_object

pub decode_beacon_block-members :
    (event_type : String) (raw : RawBeaconBlock)
    → BeaconBlockInRange raw
    → decode_beacon_block (object (beacon_block_members event_type raw)) ≡ ok raw
unfolding decode_beacon_block beacon_block_members names values
decode_beacon_block-members event_type raw r = unmarshal-Reads (
    int64_field-stored "timestamp_ms" _ raw.timestamp_ms refl r.timestamp_ms
    ⊳⟨ _ ⟩ uint64_field-stored "slot" _ raw.slot refl r.slot
    ⊳⟨ _ ⟩ uint64_field-stored "epoch" _ raw.epoch refl r.epoch
    ⊳⟨ _ ⟩ uint64_field-stored "proposer_index" _ raw.proposer_index refl r.proposer_index
    ⊳⟨ _ ⟩ uint32_field-stored "message_size" _ raw.message_size refl r.message_size
    ⊳⟨ _ ⟩ text_field-stored "peer_id" _ raw.peer_id refl
    ⊳⟨ _ ⟩ text_field-stored "message_id" _ raw.message_id refl
    ⊳⟨ _ ⟩ text_field-stored "topic" _ raw.topic refl
    ⊳⟨ _ ⟩ text_field-stored "block_root" _ raw.block_root refl
    ⊳⟨ _ ⟩ pure-Reads raw _)

-- The integers of a raw event are within the ranges of their types.
pub record AttestationInRange (raw : RawAttestation) : Type 0 where
  pub slot : raw.slot < 2 ^ 64
  pub epoch : raw.epoch < 2 ^ 64
  pub subnet_id : raw.subnet_id < 2 ^ 64
  pub timestamp_ms : IsInt64 raw.timestamp_ms
  pub source_epoch : raw.source_epoch < 2 ^ 64
  pub target_epoch : raw.target_epoch < 2 ^ 64
  pub committee_index : raw.committee_index < 2 ^ 64
  pub attester_index : raw.attester_index < 2 ^ 64
  pub message_size : raw.message_size < 2 ^ 32

unfoldable pub attestation_members : String → RawAttestation → Members
attestation_members event_type raw =
    ("event_type", text event_type)
    ⨾ ("slot", number (natural raw.slot))
    ⨾ ("epoch", number (natural raw.epoch))
    ⨾ ("subnet_id", number (natural raw.subnet_id))
    ⨾ ("timestamp_ms", integer raw.timestamp_ms)
    ⨾ ("source_epoch", number (natural raw.source_epoch))
    ⨾ ("target_epoch", number (natural raw.target_epoch))
    ⨾ ("committee_index", number (natural raw.committee_index))
    ⨾ ("attester_index", number (natural raw.attester_index))
    ⨾ ("message_size", number (natural raw.message_size))
    ⨾ ("should_process", boolean raw.should_process)
    ⨾ ("peer_id", text raw.peer_id)
    ⨾ ("message_id", text raw.message_id)
    ⨾ ("attestation_data_root", text raw.attestation_data_root)
    ⨾ ("topic", text raw.topic)
    ⨾ ("source_root", text raw.source_root)
    ⨾ ("target_root", text raw.target_root)
    ⨾ ("aggregation_bits", text raw.aggregation_bits)
    ⨾ ("signature", text raw.signature)
    ⨾ empty_object

pub decode_attestation-members :
    (event_type : String) (raw : RawAttestation)
    → AttestationInRange raw
    → decode_attestation (object (attestation_members event_type raw)) ≡ ok raw
unfolding decode_attestation attestation_members names values
decode_attestation-members event_type raw r = unmarshal-Reads (
    uint64_field-stored "slot" _ raw.slot refl r.slot
    ⊳⟨ _ ⟩ uint64_field-stored "epoch" _ raw.epoch refl r.epoch
    ⊳⟨ _ ⟩ uint64_field-stored "subnet_id" _ raw.subnet_id refl r.subnet_id
    ⊳⟨ _ ⟩ int64_field-stored "timestamp_ms" _ raw.timestamp_ms refl r.timestamp_ms
    ⊳⟨ _ ⟩ uint64_field-stored "source_epoch" _ raw.source_epoch refl r.source_epoch
    ⊳⟨ _ ⟩ uint64_field-stored "target_epoch" _ raw.target_epoch refl r.target_epoch
    ⊳⟨ _ ⟩ uint64_field-stored "committee_index" _ raw.committee_index refl r.committee_index
    ⊳⟨ _ ⟩ uint64_field-stored "attester_index" _ raw.attester_index refl r.attester_index
    ⊳⟨ _ ⟩ uint32_field-stored "message_size" _ raw.message_size refl r.message_size
    ⊳⟨ _ ⟩ boolean_field-stored "should_process" _ raw.should_process refl
    ⊳⟨ _ ⟩ text_field-stored "peer_id" _ raw.peer_id refl
    ⊳⟨ _ ⟩ text_field-stored "message_id" _ raw.message_id refl
    ⊳⟨ _ ⟩ text_field-stored "attestation_data_root" _ raw.attestation_data_root refl
    ⊳⟨ _ ⟩ text_field-stored "topic" _ raw.topic refl
    ⊳⟨ _ ⟩ text_field-stored "source_root" _ raw.source_root refl
    ⊳⟨ _ ⟩ text_field-stored "target_root" _ raw.target_root refl
    ⊳⟨ _ ⟩ text_field-stored "aggregation_bits" _ raw.aggregation_bits refl
    ⊳⟨ _ ⟩ text_field-stored "signature" _ raw.signature refl
    ⊳⟨ _ ⟩ pure-Reads raw _)

-- The integers of a raw event are within the ranges of their types.
pub record AggregateAndProofInRange (raw : RawAggregateAndProof) : Type 0 where
  pub slot : raw.slot < 2 ^ 64
  pub epoch : raw.epoch < 2 ^ 64
  pub aggregator_index : raw.aggregator_index < 2 ^ 64
  pub timestamp_ms : IsInt64 raw.timestamp_ms
  pub source_epoch : raw.source_epoch < 2 ^ 64
  pub target_epoch : raw.target_epoch < 2 ^ 64
  pub committee_index : raw.committee_index < 2 ^ 64
  pub message_size : raw.message_size < 2 ^ 32

unfoldable pub aggregate_and_proof_members : String → RawAggregateAndProof → Members
aggregate_and_proof_members event_type raw =
    ("event_type", text event_type)
    ⨾ ("slot", number (natural raw.slot))
    ⨾ ("epoch", number (natural raw.epoch))
    ⨾ ("aggregator_index", number (natural raw.aggregator_index))
    ⨾ ("timestamp_ms", integer raw.timestamp_ms)
    ⨾ ("source_epoch", number (natural raw.source_epoch))
    ⨾ ("target_epoch", number (natural raw.target_epoch))
    ⨾ ("committee_index", number (natural raw.committee_index))
    ⨾ ("message_size", number (natural raw.message_size))
    ⨾ ("peer_id", text raw.peer_id)
    ⨾ ("message_id", text raw.message_id)
    ⨾ ("attestation_data_root", text raw.attestation_data_root)
    ⨾ ("topic", text raw.topic)
    ⨾ ("source_root", text raw.source_root)
    ⨾ ("target_root", text raw.target_root)
    ⨾ ("aggregation_bits", text raw.aggregation_bits)
    ⨾ ("signature", text raw.signature)
    ⨾ empty_object

pub decode_aggregate_and_proof-members :
    (event_type : String) (raw : RawAggregateAndProof)
    → AggregateAndProofInRange raw
    → decode_aggregate_and_proof (object (aggregate_and_proof_members event_type raw)) ≡ ok raw
unfolding decode_aggregate_and_proof aggregate_and_proof_members names values
decode_aggregate_and_proof-members event_type raw r = unmarshal-Reads (
    uint64_field-stored "slot" _ raw.slot refl r.slot
    ⊳⟨ _ ⟩ uint64_field-stored "epoch" _ raw.epoch refl r.epoch
    ⊳⟨ _ ⟩ uint64_field-stored "aggregator_index" _ raw.aggregator_index refl r.aggregator_index
    ⊳⟨ _ ⟩ int64_field-stored "timestamp_ms" _ raw.timestamp_ms refl r.timestamp_ms
    ⊳⟨ _ ⟩ uint64_field-stored "source_epoch" _ raw.source_epoch refl r.source_epoch
    ⊳⟨ _ ⟩ uint64_field-stored "target_epoch" _ raw.target_epoch refl r.target_epoch
    ⊳⟨ _ ⟩ uint64_field-stored "committee_index" _ raw.committee_index refl r.committee_index
    ⊳⟨ _ ⟩ uint32_field-stored "message_size" _ raw.message_size refl r.message_size
    ⊳⟨ _ ⟩ text_field-stored "peer_id" _ raw.peer_id refl
    ⊳⟨ _ ⟩ text_field-stored "message_id" _ raw.message_id refl
    ⊳⟨ _ ⟩ text_field-stored "attestation_data_root" _ raw.attestation_data_root refl
    ⊳⟨ _ ⟩ text_field-stored "topic" _ raw.topic refl
    ⊳⟨ _ ⟩ text_field-stored "source_root" _ raw.source_root refl
    ⊳⟨ _ ⟩ text_field-stored "target_root" _ raw.target_root refl
    ⊳⟨ _ ⟩ text_field-stored "aggregation_bits" _ raw.aggregation_bits refl
    ⊳⟨ _ ⟩ text_field-stored "signature" _ raw.signature refl
    ⊳⟨ _ ⟩ pure-Reads raw _)

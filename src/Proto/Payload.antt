-- ===== src/Proto/Payload.antt =====
-- The payload of a decorated event: the message of its kind.
use xatu_sidecar.Prelude.{ℕ, String, Bool, Option}

pub record BeaconBlock : Type 0 where
  pub slot : ℕ
  pub block : String
  pub proposer_index : ℕ

pub record Checkpoint : Type 0 where
  pub epoch : ℕ
  pub root : String

-- `v1.Attestation` with its `v1.AttestationData`
pub record Attestation : Type 0 where
  pub aggregation_bits : String
  pub slot : ℕ
  pub beacon_block_root : String
  pub source : Checkpoint
  pub target : Checkpoint

-- `v1.SignedAggregateAttestationAndProofV2` with its message and aggregate
pub record AggregateAndProof : Type 0 where
  pub aggregator_index : ℕ
  pub attestation : Attestation
  pub index : ℕ
  pub signature : String

pub record BlobSidecar : Type 0 where
  pub slot : ℕ
  pub index : ℕ
  pub proposer_index : ℕ
  pub parent_root : String
  pub state_root : String
  pub block_root : String

-- The Gloas form leaves out what the block header gave.
pub record DataColumnSidecar : Type 0 where
  pub slot : ℕ
  pub index : ℕ
  pub kzg_commitments_count : Option ℕ
  pub proposer_index : Option ℕ
  pub parent_root : Option String
  pub state_root : Option String
  pub block_root : String

pub record ExecutionPayloadEnvelope : Type 0 where
  pub slot : ℕ
  pub builder_index : ℕ
  pub beacon_block_root : String
  pub block_hash : String
  pub state_root : String

pub record ExecutionPayloadBid : Type 0 where
  pub slot : ℕ
  pub builder_index : ℕ
  pub block_hash : String
  pub parent_block_hash : String
  pub value : ℕ
  pub execution_payment : ℕ
  pub fee_recipient : String
  pub gas_limit : ℕ
  pub blob_kzg_commitment_count : ℕ

pub record PayloadAttestationMessage : Type 0 where
  pub slot : ℕ
  pub validator_index : ℕ
  pub beacon_block_root : String
  pub payload_present : Bool
  pub blob_data_available : Bool

pub record ProposerPreferences : Type 0 where
  pub slot : ℕ
  pub validator_index : ℕ
  pub fee_recipient : String
  pub target_gas_limit : ℕ

pub record PartialDataColumn : Type 0 where
  pub direction : String
  pub capture_point : String
  pub group_id : Option String
  pub group_version : ℕ
  pub block_root : Option String
  pub column_index : ℕ
  pub has_message : Bool
  pub cells_count : ℕ
  pub cells_bitmap : Option String
  pub bitmap_length : ℕ
  pub has_header : Bool
  pub kzg_commitments_count : ℕ
  pub proposer_index : ℕ
  pub has_metadata : Bool
  pub metadata_size : ℕ
  pub metadata_available_count : ℕ
  pub metadata_requests_count : ℕ
  pub metadata_available : Option String
  pub metadata_requests : Option String

pub record DataColumnCompleted : Type 0 where
  pub block_root : String
  pub column_index : ℕ
  pub completed_via : String
  pub cells_total : ℕ
  pub cells_from_gossip : ℕ
  pub cells_from_el : ℕ
  pub contributing_peers : ℕ
  pub kzg_commitments_count : ℕ

pub record PartialDataColumnOutcome : Type 0 where
  pub group_id : Option String
  pub block_root : Option String
  pub column_index : ℕ
  pub stage : String
  pub outcome : String
  pub reason : Option String
  pub cells_count : ℕ
  pub new_cells_count : ℕ

-- The alternatives of `DecoratedEvent.Data`.
pub data EventData : Type 0 where
  beacon_block : BeaconBlock → EventData
  beacon_attestation : Attestation → EventData
  aggregate_and_proof : AggregateAndProof → EventData
  blob_sidecar : BlobSidecar → EventData
  data_column_sidecar : DataColumnSidecar → EventData
  execution_payload_envelope : ExecutionPayloadEnvelope → EventData
  execution_payload_bid : ExecutionPayloadBid → EventData
  payload_attestation_message : PayloadAttestationMessage → EventData
  proposer_preferences : ProposerPreferences → EventData
  partial_data_column : PartialDataColumn → EventData
  data_column_completed : DataColumnCompleted → EventData
  partial_data_column_outcome : PartialDataColumnOutcome → EventData

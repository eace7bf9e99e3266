-- ===== src/Proto/Additional.antt =====
-- The additional data of an event's client metadata: where the message stands in slots and epochs,
-- and how it arrived.
use xatu_sidecar.Prelude.{ℕ, String, Option}
use xatu_sidecar.Prelude.Int.{ℤ}

-- `xatu.SlotV2`
pub record SlotV2 : Type 0 where
  pub number : ℕ
  pub start_date_time : ℤ

-- `xatu.EpochV2`; the number is left out of a checkpoint's epoch
pub record EpochV2 : Type 0 where
  pub number : Option ℕ
  pub start_date_time : ℤ

-- The fields that the messages of the whole gossip events share; `propagation` is
-- `SlotStartDiff` and `peer_id` is in `Metadata`.
pub record GossipData : Type 0 where
  pub wallclock_slot : SlotV2
  pub wallclock_epoch : EpochV2
  pub slot : SlotV2
  pub epoch : EpochV2
  pub propagation : ℕ
  pub peer_id : String
  pub topic : String
  pub message_id : String
  pub message_size : ℕ

pub record AttestationData : Type 0 where
  pub gossip : GossipData
  pub target_epoch : EpochV2
  pub source_epoch : EpochV2
  pub committee_index : ℕ
  pub attester_index : ℕ

pub record AggregateData : Type 0 where
  pub gossip : GossipData
  pub aggregator_index : ℕ

-- The events of partial data columns: what hangs on the block's slot may be missing.
pub record BlockTiming : Type 0 where
  pub wallclock_slot : SlotV2
  pub wallclock_epoch : EpochV2
  pub slot : Option SlotV2
  pub epoch : Option EpochV2
  pub propagation : Option ℕ

pub record PartialData : Type 0 where
  pub timing : BlockTiming
  pub peer_id : String
  pub topic : Option String
  pub message_size : ℕ

pub record CompletedData : Type 0 where
  pub timing : BlockTiming
  pub peer_id : String
  pub topic : Option String

-- It has no propagation.
pub record OutcomeData : Type 0 where
  pub wallclock_slot : SlotV2
  pub wallclock_epoch : EpochV2
  pub slot : Option SlotV2
  pub epoch : Option EpochV2
  pub peer_id : String
  pub topic : Option String

-- The alternatives of `ClientMeta.AdditionalData`.
pub data AdditionalData : Type 0 where
  beacon_block : GossipData → AdditionalData
  beacon_attestation : AttestationData → AdditionalData
  aggregate_and_proof : AggregateData → AdditionalData
  blob_sidecar : GossipData → AdditionalData
  data_column_sidecar : GossipData → AdditionalData
  execution_payload_envelope : GossipData → AdditionalData
  execution_payload_bid : GossipData → AdditionalData
  payload_attestation_message : GossipData → AdditionalData
  proposer_preferences : GossipData → AdditionalData
  partial_data_column : PartialData → AdditionalData
  data_column_completed : CompletedData → AdditionalData
  partial_data_column_outcome : OutcomeData → AdditionalData

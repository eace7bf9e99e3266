-- ===== src/Event/RoundTrip/Payloads.antt =====
-- The fields that README.md documents for the events of payloads and proposers, and their decoding.
use xatu_sidecar.Prelude.{◌^◌, ◌<◌, String, ◌≡◌, refl}
use xatu_sidecar.Outcome.{ok}
use xatu_sidecar.Json.{natural, boolean, number, text, object, Members, ◌⨾◌, empty_object, names}
use xatu_sidecar.Json.Stored.{
  values, integer, IsInt64, ◌⊳⟨◌⟩◌, pure-Reads, unmarshal-Reads, text_field-stored,
  boolean_field-stored, uint64_field-stored, uint32_field-stored, int64_field-stored,
}
use xatu_sidecar.Event.ExecutionPayloadEnvelope.{RawExecutionPayloadEnvelope}
use xatu_sidecar.Event.ExecutionPayloadBid.{RawExecutionPayloadBid}
use xatu_sidecar.Event.PayloadAttestationMessage.{RawPayloadAttestationMessage}
use xatu_sidecar.Event.ProposerPreferences.{RawProposerPreferences}
use xatu_sidecar.Event.Decoding.Payloads.{
  decode_execution_payload_envelope, decode_execution_payload_bid,
  decode_payload_attestation_message, decode_proposer_preferences,
}

-- The integers of a raw event are within the ranges of their types.
pub record ExecutionPayloadEnvelopeInRange (raw : RawExecutionPayloadEnvelope) : Type 0 where
  pub timestamp_ms : IsInt64 raw.timestamp_ms
  pub slot : raw.slot < 2 ^ 64
  pub epoch : raw.epoch < 2 ^ 64
  pub builder_index : raw.builder_index < 2 ^ 64
  pub message_size : raw.message_size < 2 ^ 32

unfoldable pub execution_payload_envelope_members : String → RawExecutionPayloadEnvelope → Members
execution_payload_envelope_members event_type raw =
    ("event_type", text event_type)
    ⨾ ("timestamp_ms", integer raw.timestamp_ms)
    ⨾ ("slot", number (natural raw.slot))
    ⨾ ("epoch", number (natural raw.epoch))
    ⨾ ("builder_index", number (natural raw.builder_index))
    ⨾ ("message_size", number (natural raw.message_size))
    ⨾ ("peer_id", text raw.peer_id)
    ⨾ ("message_id", text raw.message_id)
    ⨾ ("topic", text raw.topic)
    ⨾ ("beacon_block_root", text raw.beacon_block_root)
    ⨾ ("block_hash", text raw.block_hash)
    ⨾ ("state_root", text raw.state_root)
    ⨾ empty_object

pub decode_execution_payload_envelope-members :
    (event_type : String) (raw : RawExecutionPayloadEnvelope)
    → ExecutionPayloadEnvelopeInRange raw
    → decode_execution_payload_envelope (object (execution_payload_envelope_members event_type raw))
      ≡ ok raw
unfolding decode_execution_payload_envelope execution_payload_envelope_members names values
decode_execution_payload_envelope-members event_type raw r = unmarshal-Reads (
    int64_field-stored "timestamp_ms" _ raw.timestamp_ms refl r.timestamp_ms
    ⊳⟨ _ ⟩ uint64_field-stored "slot" _ raw.slot refl r.slot
    ⊳⟨ _ ⟩ uint64_field-stored "epoch" _ raw.epoch refl r.epoch
    ⊳⟨ _ ⟩ uint64_field-stored "builder_index" _ raw.builder_index refl r.builder_index
    ⊳⟨ _ ⟩ uint32_field-stored "message_size" _ raw.message_size refl r.message_size
    ⊳⟨ _ ⟩ text_field-stored "peer_id" _ raw.peer_id refl
    ⊳⟨ _ ⟩ text_field-stored "message_id" _ raw.message_id refl
    ⊳⟨ _ ⟩ text_field-stored "topic" _ raw.topic refl
    ⊳⟨ _ ⟩ text_field-stored "beacon_block_root" _ raw.beacon_block_root refl
    ⊳⟨ _ ⟩ text_field-stored "block_hash" _ raw.block_hash refl
    ⊳⟨ _ ⟩ text_field-stored "state_root" _ raw.state_root refl
    ⊳⟨ _ ⟩ pure-Reads raw _)

-- The integers of a raw event are within the ranges of their types.
pub record ExecutionPayloadBidInRange (raw : RawExecutionPayloadBid) : Type 0 where
  pub timestamp_ms : IsInt64 raw.timestamp_ms
  pub slot : raw.slot < 2 ^ 64
  pub epoch : raw.epoch < 2 ^ 64
  pub builder_index : raw.builder_index < 2 ^ 64
  pub value : raw.value < 2 ^ 64
  pub execution_payment : raw.execution_payment < 2 ^ 64
  pub gas_limit : raw.gas_limit < 2 ^ 64
  pub blob_kzg_commitment_count : raw.blob_kzg_commitment_count < 2 ^ 32
  pub message_size : raw.message_size < 2 ^ 32

unfoldable pub execution_payload_bid_members : String → RawExecutionPayloadBid → Members
execution_payload_bid_members event_type raw =
    ("event_type", text event_type)
    ⨾ ("timestamp_ms", integer raw.timestamp_ms)
    ⨾ ("slot", number (natural raw.slot))
    ⨾ ("epoch", number (natural raw.epoch))
    ⨾ ("builder_index", number (natural raw.builder_index))
    ⨾ ("value", number (natural raw.value))
    ⨾ ("execution_payment", number (natural raw.execution_payment))
    ⨾ ("gas_limit", number (natural raw.gas_limit))
    ⨾ ("blob_kzg_commitment_count", number (natural raw.blob_kzg_commitment_count))
    ⨾ ("message_size", number (natural raw.message_size))
    ⨾ ("peer_id", text raw.peer_id)
    ⨾ ("message_id", text raw.message_id)
    ⨾ ("topic", text raw.topic)
    ⨾ ("block_hash", text raw.block_hash)
    ⨾ ("parent_block_hash", text raw.parent_block_hash)
    ⨾ ("fee_recipient", text raw.fee_recipient)
    ⨾ empty_object

pub decode_execution_payload_bid-members :
    (event_type : String) (raw : RawExecutionPayloadBid)
    → ExecutionPayloadBidInRange raw
    → decode_execution_payload_bid (object (execution_payload_bid_members event_type raw)) ≡ ok raw
unfolding decode_execution_payload_bid execution_payload_bid_members names values
decode_execution_payload_bid-members event_type raw r = unmarshal-Reads (
    int64_field-stored "timestamp_ms" _ raw.timestamp_ms refl r.timestamp_ms
    ⊳⟨ _ ⟩ uint64_field-stored "slot" _ raw.slot refl r.slot
    ⊳⟨ _ ⟩ uint64_field-stored "epoch" _ raw.epoch refl r.epoch
    ⊳⟨ _ ⟩ uint64_field-stored "builder_index" _ raw.builder_index refl r.builder_index
    ⊳⟨ _ ⟩ uint64_field-stored "value" _ raw.value refl r.value
    ⊳⟨ _ ⟩ uint64_field-stored "execution_payment" _ raw.execution_payment refl r.execution_payment
    ⊳⟨ _ ⟩ uint64_field-stored "gas_limit" _ raw.gas_limit refl r.gas_limit
    ⊳⟨ _ ⟩
      uint32_field-stored "blob_kzg_commitment_count" _ raw.blob_kzg_commitment_count refl
        r.blob_kzg_commitment_count
    ⊳⟨ _ ⟩ uint32_field-stored "message_size" _ raw.message_size refl r.message_size
    ⊳⟨ _ ⟩ text_field-stored "peer_id" _ raw.peer_id refl
    ⊳⟨ _ ⟩ text_field-stored "message_id" _ raw.message_id refl
    ⊳⟨ _ ⟩ text_field-stored "topic" _ raw.topic refl
    ⊳⟨ _ ⟩ text_field-stored "block_hash" _ raw.block_hash refl
    ⊳⟨ _ ⟩ text_field-stored "parent_block_hash" _ raw.parent_block_hash refl
    ⊳⟨ _ ⟩ text_field-stored "fee_recipient" _ raw.fee_recipient refl
    ⊳⟨ _ ⟩ pure-Reads raw _)

-- The integers of a raw event are within the ranges of their types.
pub record PayloadAttestationMessageInRange (raw : RawPayloadAttestationMessage) : Type 0 where
  pub timestamp_ms : IsInt64 raw.timestamp_ms
  pub slot : raw.slot < 2 ^ 64
  pub epoch : raw.epoch < 2 ^ 64
  pub validator_index : raw.validator_index < 2 ^ 64
  pub message_size : raw.message_size < 2 ^ 32

unfoldable pub payload_attestation_message_members : String → RawPayloadAttestationMessage → Members
payload_attestation_message_members event_type raw =
    ("event_type", text event_type)
    ⨾ ("timestamp_ms", integer raw.timestamp_ms)
    ⨾ ("slot", number (natural raw.slot))
    ⨾ ("epoch", number (natural raw.epoch))
    ⨾ ("validator_index", number (natural raw.validator_index))
    ⨾ ("message_size", number (natural raw.message_size))
    ⨾ ("payload_present", boolean raw.payload_present)
    ⨾ ("blob_data_available", boolean raw.blob_data_available)
    ⨾ ("peer_id", text raw.peer_id)
    ⨾ ("message_id", text raw.message_id)
    ⨾ ("topic", text raw.topic)
    ⨾ ("beacon_block_root", text raw.beacon_block_root)
    ⨾ empty_object

pub decode_payload_attestation_message-members :
    (event_type : String) (raw : RawPayloadAttestationMessage)
    → PayloadAttestationMessageInRange raw
    → decode_payload_attestation_message
        (object (payload_attestation_message_members event_type raw))
      ≡ ok raw
unfolding decode_payload_attestation_message payload_attestation_message_members names values
decode_payload_attestation_message-members event_type raw r = unmarshal-Reads (
    int64_field-stored "timestamp_ms" _ raw.timestamp_ms refl r.timestamp_ms
    ⊳⟨ _ ⟩ uint64_field-stored "slot" _ raw.slot refl r.slot
    ⊳⟨ _ ⟩ uint64_field-stored "epoch" _ raw.epoch refl r.epoch
    ⊳⟨ _ ⟩ uint64_field-stored "validator_index" _ raw.validator_index refl r.validator_index
    ⊳⟨ _ ⟩ uint32_field-stored "message_size" _ raw.message_size refl r.message_size
    ⊳⟨ _ ⟩ boolean_field-stored "payload_present" _ raw.payload_present refl
    ⊳⟨ _ ⟩ boolean_field-stored "blob_data_available" _ raw.blob_data_available refl
    ⊳⟨ _ ⟩ text_field-stored "peer_id" _ raw.peer_id refl
    ⊳⟨ _ ⟩ text_field-stored "message_id" _ raw.message_id refl
    ⊳⟨ _ ⟩ text_field-stored "topic" _ raw.topic refl
    ⊳⟨ _ ⟩ text_field-stored "beacon_block_root" _ raw.beacon_block_root refl
    ⊳⟨ _ ⟩ pure-Reads raw _)

-- The integers of a raw event are within the ranges of their types.
pub record ProposerPreferencesInRange (raw : RawProposerPreferences) : Type 0 where
  pub timestamp_ms : IsInt64 raw.timestamp_ms
  pub slot : raw.slot < 2 ^ 64
  pub epoch : raw.epoch < 2 ^ 64
  pub validator_index : raw.validator_index < 2 ^ 64
  pub target_gas_limit : raw.target_gas_limit < 2 ^ 64
  pub message_size : raw.message_size < 2 ^ 32

unfoldable pub proposer_preferences_members : String → RawProposerPreferences → Members
proposer_preferences_members event_type raw =
    ("event_type", text event_type)
    ⨾ ("timestamp_ms", integer raw.timestamp_ms)
    ⨾ ("slot", number (natural raw.slot))
    ⨾ ("epoch", number (natural raw.epoch))
    ⨾ ("validator_index", number (natural raw.validator_index))
    ⨾ ("target_gas_limit", number (natural raw.target_gas_limit))
    ⨾ ("message_size", number (natural raw.message_size))
    ⨾ ("peer_id", text raw.peer_id)
    ⨾ ("message_id", text raw.message_id)
    ⨾ ("topic", text raw.topic)
    ⨾ ("fee_recipient", text raw.fee_recipient)
    ⨾ empty_object

pub decode_proposer_preferences-members :
    (event_type : String) (raw : RawProposerPreferences)
    → ProposerPreferencesInRange raw
    → decode_proposer_preferences (object (proposer_preferences_members event_type raw)) ≡ ok raw
unfolding decode_proposer_preferences proposer_preferences_members names values
decode_proposer_preferences-members event_type raw r = unmarshal-Reads (
    int64_field-stored "timestamp_ms" _ raw.timestamp_ms refl r.timestamp_ms
    ⊳⟨ _ ⟩ uint64_field-stored "slot" _ raw.slot refl r.slot
    ⊳⟨ _ ⟩ uint64_field-stored "epoch" _ raw.epoch refl r.epoch
    ⊳⟨ _ ⟩ uint64_field-stored "validator_index" _ raw.validator_index refl r.validator_index
    ⊳⟨ _ ⟩ uint64_field-stored "target_gas_limit" _ raw.target_gas_limit refl r.target_gas_limit
    ⊳⟨ _ ⟩ uint32_field-stored "message_size" _ raw.message_size refl r.message_size
    ⊳⟨ _ ⟩ text_field-stored "peer_id" _ raw.peer_id refl
    ⊳⟨ _ ⟩ text_field-stored "message_id" _ raw.message_id refl
    ⊳⟨ _ ⟩ text_field-stored "topic" _ raw.topic refl
    ⊳⟨ _ ⟩ text_field-stored "fee_recipient" _ raw.fee_recipient refl
    ⊳⟨ _ ⟩ pure-Reads raw _)

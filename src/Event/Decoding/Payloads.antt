-- ===== src/Event/Decoding/Payloads.antt =====
-- The json tags of the raw events of pkg/event/gossipsub: the events of payloads and proposers.
use xatu_sidecar.Outcome.{Outcome}
use xatu_sidecar.Json.{
  pure, ◌>>=◌, Json, unmarshal, text_field, text_pointer_field, boolean_field, uint64_field,
  uint32_field, int64_field,
}
use xatu_sidecar.Event.DataColumnSidecarGloas.{RawDataColumnSidecarGloas}
use xatu_sidecar.Event.ExecutionPayloadEnvelope.{RawExecutionPayloadEnvelope}
use xatu_sidecar.Event.ExecutionPayloadBid.{RawExecutionPayloadBid}
use xatu_sidecar.Event.PayloadAttestationMessage.{RawPayloadAttestationMessage}
use xatu_sidecar.Event.ProposerPreferences.{RawProposerPreferences}

unfoldable pub decode_data_column_sidecar_gloas : Json → Outcome RawDataColumnSidecarGloas
decode_data_column_sidecar_gloas = unmarshal (do
  timestamp_ms ← int64_field "timestamp_ms"
  slot ← uint64_field "slot"
  epoch ← uint64_field "epoch"
  column_index ← uint64_field "column_index"
  message_size ← uint32_field "message_size"
  peer_id ← text_field "peer_id"
  message_id ← text_field "message_id"
  topic ← text_field "topic"
  block_root ← text_field "block_root"
  client ← text_pointer_field "client"
  pure (record {
    timestamp_ms = timestamp_ms;
    slot = slot;
    epoch = epoch;
    column_index = column_index;
    message_size = message_size;
    peer_id = peer_id;
    message_id = message_id;
    topic = topic;
    block_root = block_root;
    client = client;
  }))

unfoldable pub decode_execution_payload_envelope : Json → Outcome RawExecutionPayloadEnvelope
decode_execution_payload_envelope = unmarshal (do
  timestamp_ms ← int64_field "timestamp_ms"
  slot ← uint64_field "slot"
  epoch ← uint64_field "epoch"
  builder_index ← uint64_field "builder_index"
  message_size ← uint32_field "message_size"
  peer_id ← text_field "peer_id"
  message_id ← text_field "message_id"
  topic ← text_field "topic"
  beacon_block_root ← text_field "beacon_block_root"
  block_hash ← text_field "block_hash"
  state_root ← text_field "state_root"
  pure (record {
    timestamp_ms = timestamp_ms;
    slot = slot;
    epoch = epoch;
    builder_index = builder_index;
    message_size = message_size;
    peer_id = peer_id;
    message_id = message_id;
    topic = topic;
    beacon_block_root = beacon_block_root;
    block_hash = block_hash;
    state_root = state_root;
  }))

unfoldable pub decode_execution_payload_bid : Json → Outcome RawExecutionPayloadBid
decode_execution_payload_bid = unmarshal (do
  timestamp_ms ← int64_field "timestamp_ms"
  slot ← uint64_field "slot"
  epoch ← uint64_field "epoch"
  builder_index ← uint64_field "builder_index"
  value ← uint64_field "value"
  execution_payment ← uint64_field "execution_payment"
  gas_limit ← uint64_field "gas_limit"
  blob_kzg_commitment_count ← uint32_field "blob_kzg_commitment_count"
  message_size ← uint32_field "message_size"
  peer_id ← text_field "peer_id"
  message_id ← text_field "message_id"
  topic ← text_field "topic"
  block_hash ← text_field "block_hash"
  parent_block_hash ← text_field "parent_block_hash"
  fee_recipient ← text_field "fee_recipient"
  pure (record {
    timestamp_ms = timestamp_ms;
    slot = slot;
    epoch = epoch;
    builder_index = builder_index;
    value = value;
    execution_payment = execution_payment;
    gas_limit = gas_limit;
    blob_kzg_commitment_count = blob_kzg_commitment_count;
    message_size = message_size;
    peer_id = peer_id;
    message_id = message_id;
    topic = topic;
    block_hash = block_hash;
    parent_block_hash = parent_block_hash;
    fee_recipient = fee_recipient;
  }))

unfoldable pub decode_payload_attestation_message : Json → Outcome RawPayloadAttestationMessage
decode_payload_attestation_message = unmarshal (do
  timestamp_ms ← int64_field "timestamp_ms"
  slot ← uint64_field "slot"
  epoch ← uint64_field "epoch"
  validator_index ← uint64_field "validator_index"
  message_size ← uint32_field "message_size"
  payload_present ← boolean_field "payload_present"
  blob_data_available ← boolean_field "blob_data_available"
  peer_id ← text_field "peer_id"
  message_id ← text_field "message_id"
  topic ← text_field "topic"
  beacon_block_root ← text_field "beacon_block_root"
  pure (record {
    timestamp_ms = timestamp_ms;
    slot = slot;
    epoch = epoch;
    validator_index = validator_index;
    message_size = message_size;
    payload_present = payload_present;
    blob_data_available = blob_data_available;
    peer_id = peer_id;
    message_id = message_id;
    topic = topic;
    beacon_block_root = beacon_block_root;
  }))

unfoldable pub decode_proposer_preferences : Json → Outcome RawProposerPreferences
decode_proposer_preferences = unmarshal (do
  timestamp_ms ← int64_field "timestamp_ms"
  slot ← uint64_field "slot"
  epoch ← uint64_field "epoch"
  validator_index ← uint64_field "validator_index"
  target_gas_limit ← uint64_field "target_gas_limit"
  message_size ← uint32_field "message_size"
  peer_id ← text_field "peer_id"
  message_id ← text_field "message_id"
  topic ← text_field "topic"
  fee_recipient ← text_field "fee_recipient"
  pure (record {
    timestamp_ms = timestamp_ms;
    slot = slot;
    epoch = epoch;
    validator_index = validator_index;
    target_gas_limit = target_gas_limit;
    message_size = message_size;
    peer_id = peer_id;
    message_id = message_id;
    topic = topic;
    fee_recipient = fee_recipient;
  }))

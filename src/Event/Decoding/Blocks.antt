-- ===== src/Event/Decoding/Blocks.antt =====
-- The json tags of the raw events of pkg/event/gossipsub: the blocks, votes and sidecars.
use xatu_sidecar.Outcome.{Outcome}
use xatu_sidecar.Json.{
  pure, ◌>>=◌, Json, unmarshal, text_field, text_pointer_field, boolean_field, uint64_field,
  uint32_field, int64_field,
}
use xatu_sidecar.Event.BeaconBlock.{RawBeaconBlock}
use xatu_sidecar.Event.Attestation.{RawAttestation}
use xatu_sidecar.Event.AggregateAndProof.{RawAggregateAndProof}
use xatu_sidecar.Event.BlobSidecar.{RawBlobSidecar}
use xatu_sidecar.Event.DataColumnSidecar.{RawDataColumnSidecar}

unfoldable pub decode_beacon_block : Json → Outcome RawBeaconBlock
decode_beacon_block = unmarshal (do
  timestamp_ms ← int64_field "timestamp_ms"
  slot ← uint64_field "slot"
  epoch ← uint64_field "epoch"
  proposer_index ← uint64_field "proposer_index"
  message_size ← uint32_field "message_size"
  peer_id ← text_field "peer_id"
  message_id ← text_field "message_id"
  topic ← text_field "topic"
  block_root ← text_field "block_root"
  pure (record {
    timestamp_ms = timestamp_ms;
    slot = slot;
    epoch = epoch;
    proposer_index = proposer_index;
    message_size = message_size;
    peer_id = peer_id;
    message_id = message_id;
    topic = topic;
    block_root = block_root;
  }))

unfoldable pub decode_attestation : Json → Outcome RawAttestation
decode_attestation = unmarshal (do
  slot ← uint64_field "slot"
  epoch ← uint64_field "epoch"
  subnet_id ← uint64_field "subnet_id"
  timestamp_ms ← int64_field "timestamp_ms"
  source_epoch ← uint64_field "source_epoch"
  target_epoch ← uint64_field "target_epoch"
  committee_index ← uint64_field "committee_index"
  attester_index ← uint64_field "attester_index"
  message_size ← uint32_field "message_size"
  should_process ← boolean_field "should_process"
  peer_id ← text_field "peer_id"
  message_id ← text_field "message_id"
  attestation_data_root ← text_field "attestation_data_root"
  topic ← text_field "topic"
  source_root ← text_field "source_root"
  target_root ← text_field "target_root"
  aggregation_bits ← text_field "aggregation_bits"
  signature ← text_field "signature"
  pure (record {
    slot = slot;
    epoch = epoch;
    subnet_id = subnet_id;
    timestamp_ms = timestamp_ms;
    source_epoch = source_epoch;
    target_epoch = target_epoch;
    committee_index = committee_index;
    attester_index = attester_index;
    message_size = message_size;
    should_process = should_process;
    peer_id = peer_id;
    message_id = message_id;
    attestation_data_root = attestation_data_root;
    topic = topic;
    source_root = source_root;
    target_root = target_root;
    aggregation_bits = aggregation_bits;
    signature = signature;
  }))

unfoldable pub decode_aggregate_and_proof : Json → Outcome RawAggregateAndProof
decode_aggregate_and_proof = unmarshal (do
  slot ← uint64_field "slot"
  epoch ← uint64_field "epoch"
  aggregator_index ← uint64_field "aggregator_index"
  timestamp_ms ← int64_field "timestamp_ms"
  source_epoch ← uint64_field "source_epoch"
  target_epoch ← uint64_field "target_epoch"
  committee_index ← uint64_field "committee_index"
  message_size ← uint32_field "message_size"
  peer_id ← text_field "peer_id"
  message_id ← text_field "message_id"
  attestation_data_root ← text_field "attestation_data_root"
  topic ← text_field "topic"
  source_root ← text_field "source_root"
  target_root ← text_field "target_root"
  aggregation_bits ← text_field "aggregation_bits"
  signature ← text_field "signature"
  pure (record {
    slot = slot;
    epoch = epoch;
    aggregator_index = aggregator_index;
    timestamp_ms = timestamp_ms;
    source_epoch = source_epoch;
    target_epoch = target_epoch;
    committee_index = committee_index;
    message_size = message_size;
    peer_id = peer_id;
    message_id = message_id;
    attestation_data_root = attestation_data_root;
    topic = topic;
    source_root = source_root;
    target_root = target_root;
    aggregation_bits = aggregation_bits;
    signature = signature;
  }))

unfoldable pub decode_blob_sidecar : Json → Outcome RawBlobSidecar
decode_blob_sidecar = unmarshal (do
  timestamp_ms ← int64_field "timestamp_ms"
  slot ← uint64_field "slot"
  epoch ← uint64_field "epoch"
  proposer_index ← uint64_field "proposer_index"
  blob_index ← uint64_field "blob_index"
  message_size ← uint32_field "message_size"
  peer_id ← text_field "peer_id"
  message_id ← text_field "message_id"
  topic ← text_field "topic"
  block_root ← text_field "block_root"
  parent_root ← text_field "parent_root"
  state_root ← text_field "state_root"
  client ← text_pointer_field "client"
  pure (record {
    timestamp_ms = timestamp_ms;
    slot = slot;
    epoch = epoch;
    proposer_index = proposer_index;
    blob_index = blob_index;
    message_size = message_size;
    peer_id = peer_id;
    message_id = message_id;
    topic = topic;
    block_root = block_root;
    parent_root = parent_root;
    state_root = state_root;
    client = client;
  }))

unfoldable pub decode_data_column_sidecar : Json → Outcome RawDataColumnSidecar
decode_data_column_sidecar = unmarshal (do
  timestamp_ms ← int64_field "timestamp_ms"
  slot ← uint64_field "slot"
  epoch ← uint64_field "epoch"
  proposer_index ← uint64_field "proposer_index"
  column_index ← uint64_field "column_index"
  kzg_commitments_count ← uint32_field "kzg_commitments_count"
  message_size ← uint32_field "message_size"
  peer_id ← text_field "peer_id"
  message_id ← text_field "message_id"
  topic ← text_field "topic"
  block_root ← text_field "block_root"
  parent_root ← text_field "parent_root"
  state_root ← text_field "state_root"
  client ← text_pointer_field "client"
  pure (record {
    timestamp_ms = timestamp_ms;
    slot = slot;
    epoch = epoch;
    proposer_index = proposer_index;
    column_index = column_index;
    kzg_commitments_count = kzg_commitments_count;
    message_size = message_size;
    peer_id = peer_id;
    message_id = message_id;
    topic = topic;
    block_root = block_root;
    parent_root = parent_root;
    state_root = state_root;
    client = client;
  }))

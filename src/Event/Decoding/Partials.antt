-- ===== src/Event/Decoding/Partials.antt =====
-- The json tags of the raw events of pkg/event/gossipsub: the partial data column events.
use xatu_sidecar.Outcome.{Outcome}
use xatu_sidecar.Json.{
  pure, ◌>>=◌, Json, unmarshal, text_field, boolean_field, uint64_field, uint32_field, int64_field,
}
use xatu_sidecar.Event.PartialDataColumn.{RawPartialDataColumn}
use xatu_sidecar.Event.DataColumnCompleted.{RawDataColumnCompleted}
use xatu_sidecar.Event.PartialDataColumnOutcome.{RawPartialDataColumnOutcome}

unfoldable pub decode_partial_data_column : Json → Outcome RawPartialDataColumn
decode_partial_data_column = unmarshal (do
  timestamp_ms ← int64_field "timestamp_ms"
  direction ← text_field "direction"
  capture_point ← text_field "capture_point"
  peer_id ← text_field "peer_id"
  topic ← text_field "topic"
  group_id ← text_field "group_id"
  group_version ← uint32_field "group_version"
  block_root ← text_field "block_root"
  slot ← uint64_field "slot"
  column_index ← uint64_field "column_index"
  has_message ← boolean_field "has_message"
  message_size ← uint32_field "message_size"
  cells_count ← uint32_field "cells_count"
  cells_bitmap ← text_field "cells_bitmap"
  bitmap_length ← uint32_field "bitmap_length"
  has_header ← boolean_field "has_header"
  kzg_commitments_count ← uint32_field "kzg_commitments_count"
  proposer_index ← uint64_field "proposer_index"
  has_metadata ← boolean_field "has_metadata"
  metadata_size ← uint32_field "metadata_size"
  metadata_available_count ← uint32_field "metadata_available_count"
  metadata_requests_count ← uint32_field "metadata_requests_count"
  metadata_available ← text_field "metadata_available"
  metadata_requests ← text_field "metadata_requests"
  pure (record {
    timestamp_ms = timestamp_ms;
    direction = direction;
    capture_point = capture_point;
    peer_id = peer_id;
    topic = topic;
    group_id = group_id;
    group_version = group_version;
    block_root = block_root;
    slot = slot;
    column_index = column_index;
    has_message = has_message;
    message_size = message_size;
    cells_count = cells_count;
    cells_bitmap = cells_bitmap;
    bitmap_length = bitmap_length;
    has_header = has_header;
    kzg_commitments_count = kzg_commitments_count;
    proposer_index = proposer_index;
    has_metadata = has_metadata;
    metadata_size = metadata_size;
    metadata_available_count = metadata_available_count;
    metadata_requests_count = metadata_requests_count;
    metadata_available = metadata_available;
    metadata_requests = metadata_requests;
  }))

unfoldable pub decode_data_column_completed : Json → Outcome RawDataColumnCompleted
decode_data_column_completed = unmarshal (do
  timestamp_ms ← int64_field "timestamp_ms"
  peer_id ← text_field "peer_id"
  topic ← text_field "topic"
  block_root ← text_field "block_root"
  slot ← uint64_field "slot"
  column_index ← uint64_field "column_index"
  completed_via ← text_field "completed_via"
  cells_total ← uint32_field "cells_total"
  cells_from_gossip ← uint32_field "cells_from_gossip"
  cells_from_el ← uint32_field "cells_from_el"
  contributing_peers ← uint32_field "contributing_peers"
  kzg_commitments_count ← uint32_field "kzg_commitments_count"
  pure (record {
    timestamp_ms = timestamp_ms;
    peer_id = peer_id;
    topic = topic;
    block_root = block_root;
    slot = slot;
    column_index = column_index;
    completed_via = completed_via;
    cells_total = cells_total;
    cells_from_gossip = cells_from_gossip;
    cells_from_el = cells_from_el;
    contributing_peers = contributing_peers;
    kzg_commitments_count = kzg_commitments_count;
  }))

unfoldable pub decode_partial_data_column_outcome : Json → Outcome RawPartialDataColumnOutcome
decode_partial_data_column_outcome = unmarshal (do
  timestamp_ms ← int64_field "timestamp_ms"
  peer_id ← text_field "peer_id"
  topic ← text_field "topic"
  group_id ← text_field "group_id"
  block_root ← text_field "block_root"
  slot ← uint64_field "slot"
  column_index ← uint64_field "column_index"
  stage ← text_field "stage"
  outcome ← text_field "outcome"
  reason ← text_field "reason"
  cells_count ← uint32_field "cells_count"
  new_cells_count ← uint32_field "new_cells_count"
  pure (record {
    timestamp_ms = timestamp_ms;
    peer_id = peer_id;
    topic = topic;
    group_id = group_id;
    block_root = block_root;
    slot = slot;
    column_index = column_index;
    stage = stage;
    outcome = outcome;
    reason = reason;
    cells_count = cells_count;
    new_cells_count = new_cells_count;
  }))

-- ===== src/Event/RoundTrip/Partials.antt =====
-- The fields that README.md documents for the partial data column events, and their decoding.
use xatu_sidecar.Prelude.{◌^◌, ◌<◌, String, ◌≡◌, refl}
use xatu_sidecar.Outcome.{ok}
use xatu_sidecar.Json.{natural, boolean, number, text, object, Members, ◌⨾◌, empty_object, names}
use xatu_sidecar.Json.Stored.{
  values, integer, IsInt64, ◌⊳⟨◌⟩◌, pure-Reads, unmarshal-Reads, text_field-stored,
  boolean_field-stored, uint64_field-stored, uint32_field-stored, int64_field-stored,
}
use xatu_sidecar.Event.PartialDataColumn.{RawPartialDataColumn}
use xatu_sidecar.Event.DataColumnCompleted.{RawDataColumnCompleted}
use xatu_sidecar.Event.PartialDataColumnOutcome.{RawPartialDataColumnOutcome}
use xatu_sidecar.Event.Decoding.Partials.{
  decode_partial_data_column, decode_data_column_completed, decode_partial_data_column_outcome,
}

-- The integers of a raw event are within the ranges of their types.
pub record PartialDataColumnInRange (raw : RawPartialDataColumn) : Type 0 where
  pub timestamp_ms : IsInt64 raw.timestamp_ms
  pub group_version : raw.group_version < 2 ^ 32
  pub slot : raw.slot < 2 ^ 64
  pub column_index : raw.column_index < 2 ^ 64
  pub message_size : raw.message_size < 2 ^ 32
  pub cells_count : raw.cells_count < 2 ^ 32
  pub bitmap_length : raw.bitmap_length < 2 ^ 32
  pub kzg_commitments_count : raw.kzg_commitments_count < 2 ^ 32
  pub proposer_index : raw.proposer_index < 2 ^ 64
  pub metadata_size : raw.metadata_size < 2 ^ 32
  pub metadata_available_count : raw.metadata_available_count < 2 ^ 32
  pub metadata_requests_count : raw.metadata_requests_count < 2 ^ 32

unfoldable pub partial_data_column_members : String → RawPartialDataColumn → Members
partial_data_column_members event_type raw =
    ("event_type", text event_type)
    ⨾ ("timestamp_ms", integer raw.timestamp_ms)
    ⨾ ("direction", text raw.direction)
    ⨾ ("capture_point", text raw.capture_point)
    ⨾ ("peer_id", text raw.peer_id)
    ⨾ ("topic", text raw.topic)
    ⨾ ("group_id", text raw.group_id)
    ⨾ ("group_version", number (natural raw.group_version))
    ⨾ ("block_root", text raw.block_root)
    ⨾ ("slot", number (natural raw.slot))
    ⨾ ("column_index", number (natural raw.column_index))
    ⨾ ("has_message", boolean raw.has_message)
    ⨾ ("message_size", number (natural raw.message_size))
    ⨾ ("cells_count", number (natural raw.cells_count))
    ⨾ ("cells_bitmap", text raw.cells_bitmap)
    ⨾ ("bitmap_length", number (natural raw.bitmap_length))
    ⨾ ("has_header", boolean raw.has_header)
    ⨾ ("kzg_commitments_count", number (natural raw.kzg_commitments_count))
    ⨾ ("proposer_index", number (natural raw.proposer_index))
    ⨾ ("has_metadata", boolean raw.has_metadata)
    ⨾ ("metadata_size", number (natural raw.metadata_size))
    ⨾ ("metadata_available_count", number (natural raw.metadata_available_count))
    ⨾ ("metadata_requests_count", number (natural raw.metadata_requests_count))
    ⨾ ("metadata_available", text raw.metadata_available)
    ⨾ ("metadata_requests", text raw.metadata_requests)
    ⨾ empty_object

pub decode_partial_data_column-members :
    (event_type : String) (raw : RawPartialDataColumn)
    → PartialDataColumnInRange raw
    → decode_partial_data_column (object (partial_data_column_members event_type raw)) ≡ ok raw
unfolding decode_partial_data_column partial_data_column_members names values
decode_partial_data_column-members event_type raw r = unmarshal-Reads (
    int64_field-stored "timestamp_ms" _ raw.timestamp_ms refl r.timestamp_ms
    ⊳⟨ _ ⟩ text_field-stored "direction" _ raw.direction refl
    ⊳⟨ _ ⟩ text_field-stored "capture_point" _ raw.capture_point refl
    ⊳⟨ _ ⟩ text_field-stored "peer_id" _ raw.peer_id refl
    ⊳⟨ _ ⟩ text_field-stored "topic" _ raw.topic refl
    ⊳⟨ _ ⟩ text_field-stored "group_id" _ raw.group_id refl
    ⊳⟨ _ ⟩ uint32_field-stored "group_version" _ raw.group_version refl r.group_version
    ⊳⟨ _ ⟩ text_field-stored "block_root" _ raw.block_root refl
    ⊳⟨ _ ⟩ uint64_field-stored "slot" _ raw.slot refl r.slot
    ⊳⟨ _ ⟩ uint64_field-stored "column_index" _ raw.column_index refl r.column_index
    ⊳⟨ _ ⟩ boolean_field-stored "has_message" _ raw.has_message refl
    ⊳⟨ _ ⟩ uint32_field-stored "message_size" _ raw.message_size refl r.message_size
    ⊳⟨ _ ⟩ uint32_field-stored "cells_count" _ raw.cells_count refl r.cells_count
    ⊳⟨ _ ⟩ text_field-stored "cells_bitmap" _ raw.cells_bitmap refl
    ⊳⟨ _ ⟩ uint32_field-stored "bitmap_length" _ raw.bitmap_length refl r.bitmap_length
    ⊳⟨ _ ⟩ boolean_field-stored "has_header" _ raw.has_header refl
    ⊳⟨ _ ⟩
      uint32_field-stored "kzg_commitments_count" _ raw.kzg_commitments_count refl
        r.kzg_commitments_count
    ⊳⟨ _ ⟩ uint64_field-stored "proposer_index" _ raw.proposer_index refl r.proposer_index
    ⊳⟨ _ ⟩ boolean_field-stored "has_metadata" _ raw.has_metadata refl
    ⊳⟨ _ ⟩ uint32_field-stored "metadata_size" _ raw.metadata_size refl r.metadata_size
    ⊳⟨ _ ⟩
      uint32_field-stored "metadata_available_count" _ raw.metadata_available_count refl
        r.metadata_available_count
    ⊳⟨ _ ⟩
      uint32_field-stored "metadata_requests_count" _ raw.metadata_requests_count refl
        r.metadata_requests_count
    ⊳⟨ _ ⟩ text_field-stored "metadata_available" _ raw.metadata_available refl
    ⊳⟨ _ ⟩ text_field-stored "metadata_requests" _ raw.metadata_requests refl
    ⊳⟨ _ ⟩ pure-Reads raw _)

-- The integers of a raw event are within the ranges of their types.
pub record DataColumnCompletedInRange (raw : RawDataColumnCompleted) : Type 0 where
  pub timestamp_ms : IsInt64 raw.timestamp_ms
  pub slot : raw.slot < 2 ^ 64
  pub column_index : raw.column_index < 2 ^ 64
  pub cells_total : raw.cells_total < 2 ^ 32
  pub cells_from_gossip : raw.cells_from_gossip < 2 ^ 32
  pub cells_from_el : raw.cells_from_el < 2 ^ 32
  pub contributing_peers : raw.contributing_peers < 2 ^ 32
  pub kzg_commitments_count : raw.kzg_commitments_count < 2 ^ 32

unfoldable pub data_column_completed_members : String → RawDataColumnCompleted → Members
data_column_completed_members event_type raw =
    ("event_type", text event_type)
    ⨾ ("timestamp_ms", integer raw.timestamp_ms)
    ⨾ ("peer_id", text raw.peer_id)
    ⨾ ("topic", text raw.topic)
    ⨾ ("block_root", text raw.block_root)
    ⨾ ("slot", number (natural raw.slot))
    ⨾ ("column_index", number (natural raw.column_index))
    ⨾ ("completed_via", text raw.completed_via)
    ⨾ ("cells_total", number (natural raw.cells_total))
    ⨾ ("cells_from_gossip", number (natural raw.cells_from_gossip))
    ⨾ ("cells_from_el", number (natural raw.cells_from_el))
    ⨾ ("contributing_peers", number (natural raw.contributing_peers))
    ⨾ ("kzg_commitments_count", number (natural raw.kzg_commitments_count))
    ⨾ empty_object

pub decode_data_column_completed-members :
    (event_type : String) (raw : RawDataColumnCompleted)
    → DataColumnCompletedInRange raw
    → decode_data_column_completed (object (data_column_completed_members event_type raw)) ≡ ok raw
unfolding decode_data_column_completed data_column_completed_members names values
decode_data_column_completed-members event_type raw r = unmarshal-Reads (
    int64_field-stored "timestamp_ms" _ raw.timestamp_ms refl r.timestamp_ms
    ⊳⟨ _ ⟩ text_field-stored "peer_id" _ raw.peer_id refl
    ⊳⟨ _ ⟩ text_field-stored "topic" _ raw.topic refl
    ⊳⟨ _ ⟩ text_field-stored "block_root" _ raw.block_root refl
    ⊳⟨ _ ⟩ uint64_field-stored "slot" _ raw.slot refl r.slot
    ⊳⟨ _ ⟩ uint64_field-stored "column_index" _ raw.column_index refl r.column_index
    ⊳⟨ _ ⟩ text_field-stored "completed_via" _ raw.completed_via refl
    ⊳⟨ _ ⟩ uint32_field-stored "cells_total" _ raw.cells_total refl r.cells_total
    ⊳⟨ _ ⟩ uint32_field-stored "cells_from_gossip" _ raw.cells_from_gossip refl r.cells_from_gossip
    ⊳⟨ _ ⟩ uint32_field-stored "cells_from_el" _ raw.cells_from_el refl r.cells_from_el
    ⊳⟨ _ ⟩
      uint32_field-stored "contributing_peers" _ raw.contributing_peers refl r.contributing_peers
    ⊳⟨ _ ⟩
      uint32_field-stored "kzg_commitments_count" _ raw.kzg_commitments_count refl
        r.kzg_commitments_count
    ⊳⟨ _ ⟩ pure-Reads raw _)

-- The integers of a raw event are within the ranges of their types.
pub record PartialDataColumnOutcomeInRange (raw : RawPartialDataColumnOutcome) : Type 0 where
  pub timestamp_ms : IsInt64 raw.timestamp_ms
  pub slot : raw.slot < 2 ^ 64
  pub column_index : raw.column_index < 2 ^ 64
  pub cells_count : raw.cells_count < 2 ^ 32
  pub new_cells_count : raw.new_cells_count < 2 ^ 32

unfoldable pub partial_data_column_outcome_members : String → RawPartialDataColumnOutcome → Members
partial_data_column_outcome_members event_type raw =
    ("event_type", text event_type)
    ⨾ ("timestamp_ms", integer raw.timestamp_ms)
    ⨾ ("peer_id", text raw.peer_id)
    ⨾ ("topic", text raw.topic)
    ⨾ ("group_id", text raw.group_id)
    ⨾ ("block_root", text raw.block_root)
    ⨾ ("slot", number (natural raw.slot))
    ⨾ ("column_index", number (natural raw.column_index))
    ⨾ ("stage", text raw.stage)
    ⨾ ("outcome", text raw.outcome)
    ⨾ ("reason", text raw.reason)
    ⨾ ("cells_count", number (natural raw.cells_count))
    ⨾ ("new_cells_count", number (natural raw.new_cells_count))
    ⨾ empty_object

pub decode_partial_data_column_outcome-members :
    (event_type : String) (raw : RawPartialDataColumnOutcome)
    → PartialDataColumnOutcomeInRange raw
    → decode_partial_data_column_outcome
        (object (partial_data_column_outcome_members event_type raw))
      ≡ ok raw
unfolding decode_partial_data_column_outcome partial_data_column_outcome_members names values
decode_partial_data_column_outcome-members event_type raw r = unmarshal-Reads (
    int64_field-stored "timestamp_ms" _ raw.timestamp_ms refl r.timestamp_ms
    ⊳⟨ _ ⟩ text_field-stored "peer_id" _ raw.peer_id refl
    ⊳⟨ _ ⟩ text_field-stored "topic" _ raw.topic refl
    ⊳⟨ _ ⟩ text_field-stored "group_id" _ raw.group_id refl
    ⊳⟨ _ ⟩ text_field-stored "block_root" _ raw.block_root refl
    ⊳⟨ _ ⟩ uint64_field-stored "slot" _ raw.slot refl r.slot
    ⊳⟨ _ ⟩ uint64_field-stored "column_index" _ raw.column_index refl r.column_index
    ⊳⟨ _ ⟩ text_field-stored "stage" _ raw.stage refl
    ⊳⟨ _ ⟩ text_field-stored "outcome" _ raw.outcome refl
    ⊳⟨ _ ⟩ text_field-stored "reason" _ raw.reason refl
    ⊳⟨ _ ⟩ uint32_field-stored "cells_count" _ raw.cells_count refl r.cells_count
    ⊳⟨ _ ⟩ uint32_field-stored "new_cells_count" _ raw.new_cells_count refl r.new_cells_count
    ⊳⟨ _ ⟩ pure-Reads raw _)

-- ===== src/Event/RoundTrip/Sidecars.antt =====
-- The fields that README.md documents for sidecars, and their decoding.
use xatu_sidecar.Prelude.{◌^◌, ◌<◌, String, ◌≡◌, refl}
use xatu_sidecar.Outcome.{ok}
use xatu_sidecar.Json.{natural, number, text, object, Members, ◌⨾◌, empty_object, names}
use xatu_sidecar.Json.Stored.{
  values, text_or_null, integer, IsInt64, ◌⊳⟨◌⟩◌, pure-Reads, unmarshal-Reads, text_field-stored,
  text_pointer_field-stored, uint64_field-stored, uint32_field-stored, int64_field-stored,
}
use xatu_sidecar.Event.BlobSidecar.{RawBlobSidecar}
use xatu_sidecar.Event.DataColumnSidecar.{RawDataColumnSidecar}
use xatu_sidecar.Event.DataColumnSidecarGloas.{RawDataColumnSidecarGloas}
use xatu_sidecar.Event.Decoding.Blocks.{decode_blob_sidecar, decode_data_column_sidecar}
use xatu_sidecar.Event.Decoding.Payloads.{decode_data_column_sidecar_gloas}

-- The integers of a raw event are within the ranges of their types.
pub record BlobSidecarInRange (raw : RawBlobSidecar) : Type 0 where
  pub timestamp_ms : IsInt64 raw.timestamp_ms
  pub slot : raw.slot < 2 ^ 64
  pub epoch : raw.epoch < 2 ^ 64
  pub proposer_index : raw.proposer_index < 2 ^ 64
  pub blob_index : raw.blob_index < 2 ^ 64
  pub message_size : raw.message_size < 2 ^ 32

unfoldable pub blob_sidecar_members : String → RawBlobSidecar → Members
blob_sidecar_members event_type raw =
    ("event_type", text event_type)
    ⨾ ("timestamp_ms", integer raw.timestamp_ms)
    ⨾ ("slot", number (natural raw.slot))
    ⨾ ("epoch", number (natural raw.epoch))
    ⨾ ("proposer_index", number (natural raw.proposer_index))
    ⨾ ("blob_index", number (natural raw.blob_index))
    ⨾ ("message_size", number (natural raw.message_size))
    ⨾ ("peer_id", text raw.peer_id)
    ⨾ ("message_id", text raw.message_id)
    ⨾ ("topic", text raw.topic)
    ⨾ ("block_root", text raw.block_root)
    ⨾ ("parent_root", text raw.parent_root)
    ⨾ ("state_root", text raw.state_root)
    ⨾ ("client", text_or_null raw.client)
    ⨾ empty_object

pub decode_blob_sidecar-members :
    (event_type : String) (raw : RawBlobSidecar)
    → BlobSidecarInRange raw
    → decode_blob_sidecar (object (blob_sidecar_members event_type raw)) ≡ ok raw
unfolding decode_blob_sidecar blob_sidecar_members names values
decode_blob_sidecar-members event_type raw r = unmarshal-Reads (
    int64_field-stored "timestamp_ms" _ raw.timestamp_ms refl r.timestamp_ms
    ⊳⟨ _ ⟩ uint64_field-stored "slot" _ raw.slot refl r.slot
    ⊳⟨ _ ⟩ uint64_field-stored "epoch" _ raw.epoch refl r.epoch
    ⊳⟨ _ ⟩ uint64_field-stored "proposer_index" _ raw.proposer_index refl r.proposer_index
    ⊳⟨ _ ⟩ uint64_field-stored "blob_index" _ raw.blob_index refl r.blob_index
    ⊳⟨ _ ⟩ uint32_field-stored "message_size" _ raw.message_size refl r.message_size
    ⊳⟨ _ ⟩ text_field-stored "peer_id" _ raw.peer_id refl
    ⊳⟨ _ ⟩ text_field-stored "message_id" _ raw.message_id refl
    ⊳⟨ _ ⟩ text_field-stored "topic" _ raw.topic refl
    ⊳⟨ _ ⟩ text_field-stored "block_root" _ raw.block_root refl
    ⊳⟨ _ ⟩ text_field-stored "parent_root" _ raw.parent_root refl
    ⊳⟨ _ ⟩ text_field-stored "state_root" _ raw.state_root refl
    ⊳⟨ _ ⟩ text_pointer_field-stored "client" _ raw.client refl
    ⊳⟨ _ ⟩ pure-Reads raw _)

-- The integers of a raw event are within the ranges of their types.
pub record DataColumnSidecarInRange (raw : RawDataColumnSidecar) : Type 0 where
  pub timestamp_ms : IsInt64 raw.timestamp_ms
  pub slot : raw.slot < 2 ^ 64
  pub epoch : raw.epoch < 2 ^ 64
  pub proposer_index : raw.proposer_index < 2 ^ 64
  pub column_index : raw.column_index < 2 ^ 64
  pub kzg_commitments_count : raw.kzg_commitments_count < 2 ^ 32
  pub message_size : raw.message_size < 2 ^ 32

unfoldable pub data_column_sidecar_members : String → RawDataColumnSidecar → Members
data_column_sidecar_members event_type raw =
    ("event_type", text event_type)
    ⨾ ("timestamp_ms", integer raw.timestamp_ms)
    ⨾ ("slot", number (natural raw.slot))
    ⨾ ("epoch", number (natural raw.epoch))
    ⨾ ("proposer_index", number (natural raw.proposer_index))
    ⨾ ("column_index", number (natural raw.column_index))
    ⨾ ("kzg_commitments_count", number (natural raw.kzg_commitments_count))
    ⨾ ("message_size", number (natural raw.message_size))
    ⨾ ("peer_id", text raw.peer_id)
    ⨾ ("message_id", text raw.message_id)
    ⨾ ("topic", text raw.topic)
    ⨾ ("block_root", text raw.block_root)
    ⨾ ("parent_root", text raw.parent_root)
    ⨾ ("state_root", text raw.state_root)
    ⨾ ("client", text_or_null raw.client)
    ⨾ empty_object

pub decode_data_column_sidecar-members :
    (event_type : String) (raw : RawDataColumnSidecar)
    → DataColumnSidecarInRange raw
    → decode_data_column_sidecar (object (data_column_sidecar_members event_type raw)) ≡ ok raw
unfolding decode_data_column_sidecar data_column_sidecar_members names values
decode_data_column_sidecar-members event_type raw r = unmarshal-Reads (
    int64_field-stored "timestamp_ms" _ raw.timestamp_ms refl r.timestamp_ms
    ⊳⟨ _ ⟩ uint64_field-stored "slot" _ raw.slot refl r.slot
    ⊳⟨ _ ⟩ uint64_field-stored "epoch" _ raw.epoch refl r.epoch
    ⊳⟨ _ ⟩ uint64_field-stored "proposer_index" _ raw.proposer_index refl r.proposer_index
    ⊳⟨ _ ⟩ uint64_field-stored "column_index" _ raw.column_index refl r.column_index
    ⊳⟨ _ ⟩
      uint32_field-stored "kzg_commitments_count" _ raw.kzg_commitments_count refl
        r.kzg_commitments_count
    ⊳⟨ _ ⟩ uint32_field-stored "message_size" _ raw.message_size refl r.message_size
    ⊳⟨ _ ⟩ text_field-stored "peer_id" _ raw.peer_id refl
    ⊳⟨ _ ⟩ text_field-stored "message_id" _ raw.message_id refl
    ⊳⟨ _ ⟩ text_field-stored "topic" _ raw.topic refl
    ⊳⟨ _ ⟩ text_field-stored "block_root" _ raw.block_root refl
    ⊳⟨ _ ⟩ text_field-stored "parent_root" _ raw.parent_root refl
    ⊳⟨ _ ⟩ text_field-stored "state_root" _ raw.state_root refl
    ⊳⟨ _ ⟩ text_pointer_field-stored "client" _ raw.client refl
    ⊳⟨ _ ⟩ pure-Reads raw _)

-- The integers of a raw event are within the ranges of their types.
pub record DataColumnSidecarGloasInRange (raw : RawDataColumnSidecarGloas) : Type 0 where
  pub timestamp_ms : IsInt64 raw.timestamp_ms
  pub slot : raw.slot < 2 ^ 64
  pub epoch : raw.epoch < 2 ^ 64
  pub column_index : raw.column_index < 2 ^ 64
  pub message_size : raw.message_size < 2 ^ 32

unfoldable pub data_column_sidecar_gloas_members : String → RawDataColumnSidecarGloas → Members
data_column_sidecar_gloas_members event_type raw =
    ("event_type", text event_type)
    ⨾ ("timestamp_ms", integer raw.timestamp_ms)
    ⨾ ("slot", number (natural raw.slot))
    ⨾ ("epoch", number (natural raw.epoch))
    ⨾ ("column_index", number (natural raw.column_index))
    ⨾ ("message_size", number (natural raw.message_size))
    ⨾ ("peer_id", text raw.peer_id)
    ⨾ ("message_id", text raw.message_id)
    ⨾ ("topic", text raw.topic)
    ⨾ ("block_root", text raw.block_root)
    ⨾ ("client", text_or_null raw.client)
    ⨾ empty_object

pub decode_data_column_sidecar_gloas-members :
    (event_type : String) (raw : RawDataColumnSidecarGloas)
    → DataColumnSidecarGloasInRange raw
    → decode_data_column_sidecar_gloas (object (data_column_sidecar_gloas_members event_type raw))
      ≡ ok raw
unfolding decode_data_column_sidecar_gloas data_column_sidecar_gloas_members names values
decode_data_column_sidecar_gloas-members event_type raw r = unmarshal-Reads (
    int64_field-stored "timestamp_ms" _ raw.timestamp_ms refl r.timestamp_ms
    ⊳⟨ _ ⟩ uint64_field-stored "slot" _ raw.slot refl r.slot
    ⊳⟨ _ ⟩ uint64_field-stored "epoch" _ raw.epoch refl r.epoch
    ⊳⟨ _ ⟩ uint64_field-stored "column_index" _ raw.column_index refl r.column_index
    ⊳⟨ _ ⟩ uint32_field-stored "message_size" _ raw.message_size refl r.message_size
    ⊳⟨ _ ⟩ text_field-stored "peer_id" _ raw.peer_id refl
    ⊳⟨ _ ⟩ text_field-stored "message_id" _ raw.message_id refl
    ⊳⟨ _ ⟩ text_field-stored "topic" _ raw.topic refl
    ⊳⟨ _ ⟩ text_field-stored "block_root" _ raw.block_root refl
    ⊳⟨ _ ⟩ text_pointer_field-stored "client" _ raw.client refl
    ⊳⟨ _ ⟩ pure-Reads raw _)

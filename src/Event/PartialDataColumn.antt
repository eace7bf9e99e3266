-- ===== src/Event/PartialDataColumn.antt =====
-- pkg/event/gossipsub/partial_data_column.go
use xatu_sidecar.Prelude.{ℕ, String, Bool, true, none, some, List, [], ◌∷◌}
use xatu_sidecar.Prelude.Int.{ℤ}
use xatu_sidecar.Outcome.{
  Outcome, panic, map_ok, Method, pure, lift, ◌>>=◌, ◌>>◌, invalid_partial_direction,
  invalid_partial_capture_point,
}
use xatu_sidecar.Decimal.{decimal}
use xatu_sidecar.Ttl.{TtlCache}
use xatu_sidecar.Cache.BlockSlot.{resolve}
use xatu_sidecar.Wallclock.{Wallclock}
use xatu_sidecar.Proto.{ClientMeta, EventName, DecoratedEvent}
use xatu_sidecar.Proto.Payload.{EventData}
use xatu_sidecar.Proto.Additional.{AdditionalData}
use xatu_sidecar.Event.Source.{Moment, Source, new_source, base_event, attach}
use xatu_sidecar.Event.Freshness.{ignore_duplicate}
use xatu_sidecar.Event.Partial
use xatu_sidecar.Event.Partial.{validate_enum, new_block_timing, is_stale_slot, optional_string}

pub record RawPartialDataColumn : Type 0 where
  pub timestamp_ms : ℤ
  pub direction : String
  pub capture_point : String
  pub peer_id : String
  pub topic : String
  pub group_id : String
  pub group_version : ℕ
  pub block_root : String
  pub slot : ℕ
  pub column_index : ℕ
  pub has_message : Bool
  pub message_size : ℕ
  pub cells_count : ℕ
  pub cells_bitmap : String
  pub bitmap_length : ℕ
  pub has_header : Bool
  pub kzg_commitments_count : ℕ
  pub proposer_index : ℕ
  pub has_metadata : Bool
  pub metadata_size : ℕ
  pub metadata_available_count : ℕ
  pub metadata_requests_count : ℕ
  pub metadata_available : String
  pub metadata_requests : String

pub record PartialDataColumn : Type 0 where
  pub source : Source RawPartialDataColumn
  pub open source use *
  pub slot : ℕ

module _ (S : TtlCache ℕ) where
  -- An unknown slot is resolved from the block slot cache, and a known one is recorded there.
  unfoldable pub new_partial_data_column :
      Moment
      → RawPartialDataColumn
      → ℤ
      → Wallclock
      → ClientMeta
      → S.Cache
      → PartialDataColumn × S.Cache
  new_partial_data_column m raw drift w meta block_slots =
      let (slot, c) = resolve S m.resolve_at raw.block_root raw.slot block_slots in
      (record { source = new_source raw raw.timestamp_ms drift w meta m.uuid; slot = slot }, c)

unfoldable pub decorate : PartialDataColumn → Outcome DecoratedEvent
decorate e = elim e.raw [
  | none ↦ panic
  | some raw ↦
      attach
        (base_event e.source EventName.libp2p_trace_gossipsub_partial_data_column e.now (
          EventData.partial_data_column (record {
            direction = raw.direction;
            capture_point = raw.capture_point;
            group_id = optional_string raw.group_id;
            group_version = raw.group_version;
            block_root = optional_string raw.block_root;
            column_index = raw.column_index;
            has_message = raw.has_message;
            cells_count = raw.cells_count;
            cells_bitmap = optional_string raw.cells_bitmap;
            bitmap_length = raw.bitmap_length;
            has_header = raw.has_header;
            kzg_commitments_count = raw.kzg_commitments_count;
            proposer_index = raw.proposer_index;
            has_metadata = raw.has_metadata;
            metadata_size = raw.metadata_size;
            metadata_available_count = raw.metadata_available_count;
            metadata_requests_count = raw.metadata_requests_count;
            metadata_available = optional_string raw.metadata_available;
            metadata_requests = optional_string raw.metadata_requests;
          })))
        (map_ok
          (λ timing. AdditionalData.partial_data_column (record {
            timing = timing;
            peer_id = raw.peer_id;
            topic = optional_string raw.topic;
            message_size = raw.message_size;
          }))
          (new_block_timing e.wallclock e.now e.slot))
]

abbrev pub directions : List String
directions = Partial.direction_recv ∷ Partial.direction_send ∷ Partial.direction_drop ∷ []

abbrev pub capture_points : List String
capture_points = Partial.capture_point_wire ∷ Partial.capture_point_app ∷ []

module _ (D : TtlCache ℤ) (hash : RawPartialDataColumn → Outcome ℕ) where
  unfoldable pub should_ignore : Moment → PartialDataColumn → Method D.Cache Bool
  unfolding ignore_duplicate
  should_ignore m e = elim e.raw [
    | none ↦ pure true
    | some raw ↦ do
      lift (validate_enum raw.direction directions invalid_partial_direction)
      lift (validate_enum raw.capture_point capture_points invalid_partial_capture_point)
      h ← lift (hash raw)
      ignore_duplicate D m.dedup_at (decimal h) e.now (is_stale_slot e.wallclock e.slot m.slot_at)
  ]

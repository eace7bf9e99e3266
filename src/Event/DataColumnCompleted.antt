-- ===== src/Event/DataColumnCompleted.antt =====
-- pkg/event/gossipsub/data_column_completed.go
pub mod Key
use xatu_sidecar.Prelude.{ℕ, String, Bool, true, none, some, List, [], ◌∷◌}
use xatu_sidecar.Prelude.Int.{ℤ}
use xatu_sidecar.Outcome.{Outcome, panic, map_ok, Method, pure, lift, ◌>>◌, invalid_completed_via}
use xatu_sidecar.Decimal.{decimal}
use xatu_sidecar.Ttl.{TtlCache}
use xatu_sidecar.Cache.BlockSlot.{resolve}
use xatu_sidecar.Wallclock.{Wallclock}
use xatu_sidecar.Proto.{ClientMeta, EventName, DecoratedEvent}
use xatu_sidecar.Proto.Payload.{EventData}
use xatu_sidecar.Proto.Additional.{AdditionalData}
use xatu_sidecar.Event.Source.{Moment, Source, new_source, base_event, attach}
use xatu_sidecar.Event.Freshness.{ignore_duplicate}
use xatu_sidecar.Event.Partial
use xatu_sidecar.Event.Partial.{validate_enum, new_block_timing, is_stale_slot, optional_string}
use Prim.Native.String

pub record RawDataColumnCompleted : Type 0 where
  pub timestamp_ms : ℤ
  pub peer_id : String
  pub topic : String
  pub block_root : String
  pub slot : ℕ
  pub column_index : ℕ
  pub completed_via : String
  pub cells_total : ℕ
  pub cells_from_gossip : ℕ
  pub cells_from_el : ℕ
  pub contributing_peers : ℕ
  pub kzg_commitments_count : ℕ

abbrev pub DataColumnCompleted : Type 0
DataColumnCompleted = Source RawDataColumnCompleted

module _ (S : TtlCache ℕ) where
  -- The block's slot is recorded; what the call returns is dropped.
  unfoldable pub new_data_column_completed :
      Moment
      → RawDataColumnCompleted
      → ℤ
      → Wallclock
      → ClientMeta
      → S.Cache
      → DataColumnCompleted × S.Cache
  new_data_column_completed m raw drift w meta block_slots =
      let (_, c) = resolve S m.resolve_at raw.block_root raw.slot block_slots in
      (new_source raw raw.timestamp_ms drift w meta m.uuid, c)

unfoldable pub decorate : DataColumnCompleted → Outcome DecoratedEvent
decorate e = elim e.raw [
  | none ↦ panic
  | some raw ↦
      attach
        (base_event e EventName.libp2p_trace_data_column_completed e.now (
          EventData.data_column_completed (record {
            block_root = raw.block_root;
            column_index = raw.column_index;
            completed_via = raw.completed_via;
            cells_total = raw.cells_total;
            cells_from_gossip = raw.cells_from_gossip;
            cells_from_el = raw.cells_from_el;
            contributing_peers = raw.contributing_peers;
            kzg_commitments_count = raw.kzg_commitments_count;
          })))
        (map_ok
          (λ timing.
            AdditionalData.data_column_completed (record {
              timing = timing;
              peer_id = raw.peer_id;
              topic = optional_string raw.topic;
            }))
          (new_block_timing e.wallclock e.now raw.slot))
]

abbrev pub completed_vias : List String
completed_vias =
    Partial.via_full_gossip ∷ Partial.via_partial_gossip ∷ Partial.via_el
    ∷ Partial.via_reconstruction ∷ Partial.via_unknown ∷ []

-- `fmt.Sprintf("%s:%d", blockRoot, columnIndex)`
unfoldable pub completion_key : String → ℕ → String
completion_key block_root column_index =
    String.◌++◌ block_root (String.◌++◌ ":" (decimal column_index))

module _ (D : TtlCache ℤ) where
  unfoldable pub should_ignore : Moment → DataColumnCompleted → Method D.Cache Bool
  unfolding ignore_duplicate
  should_ignore m e = elim e.raw [
    | none ↦ pure true
    | some raw ↦ do
      lift (validate_enum raw.completed_via completed_vias invalid_completed_via)
      ignore_duplicate D m.dedup_at (completion_key raw.block_root raw.column_index) e.now
          (is_stale_slot e.wallclock raw.slot m.slot_at)
  ]

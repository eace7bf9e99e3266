-- ===== src/Event/DataColumnSidecar.antt =====
-- pkg/event/gossipsub/data_column_sidecar.go
use xatu_sidecar.Prelude.{ℕ, String, Bool, Option, none, some}
use xatu_sidecar.Prelude.Int.{ℤ}
use xatu_sidecar.Outcome.{Outcome, panic, map_ok, Method}
use xatu_sidecar.Ttl.{TtlCache}
use xatu_sidecar.Wallclock.{Wallclock}
use xatu_sidecar.Proto.{ClientMeta, EventName, DecoratedEvent}
use xatu_sidecar.Proto.Payload.{EventData}
use xatu_sidecar.Proto.Additional.{AdditionalData, GossipData}
use xatu_sidecar.Event.Instant.{unix_milli}
use xatu_sidecar.Event.Source.{Moment, Source, new_source, base_event, attach}
use xatu_sidecar.Event.Freshness.{too_old, should_ignore_hashed}
use xatu_sidecar.Event.Gossip.{gossip_data}

pub record RawDataColumnSidecar : Type 0 where
  pub timestamp_ms : ℤ
  pub slot : ℕ
  pub epoch : ℕ
  pub proposer_index : ℕ
  pub column_index : ℕ
  pub kzg_commitments_count : ℕ
  pub message_size : ℕ
  pub peer_id : String
  pub message_id : String
  pub topic : String
  pub block_root : String
  pub parent_root : String
  pub state_root : String
  pub client : Option String

abbrev pub DataColumnSidecar : Type 0
DataColumnSidecar = Source RawDataColumnSidecar

abbrev pub new_data_column_sidecar :
    RawDataColumnSidecar → ℤ → Wallclock → ClientMeta → String → DataColumnSidecar
new_data_column_sidecar raw drift w meta uuid = new_source raw raw.timestamp_ms drift w meta uuid

abbrev get_additional_data : DataColumnSidecar → RawDataColumnSidecar → ℤ → Outcome GossipData
get_additional_data e raw timestamp =
    gossip_data e.wallclock timestamp raw.slot raw.slot raw.peer_id raw.topic raw.message_id
      raw.message_size

unfoldable pub decorate : DataColumnSidecar → Outcome DecoratedEvent
decorate e = elim e.raw [
  | none ↦ panic
  | some raw ↦
      attach
        (base_event e EventName.libp2p_trace_gossipsub_data_column_sidecar
          (unix_milli raw.timestamp_ms)
          (EventData.data_column_sidecar (record {
            slot = raw.slot;
            index = raw.column_index;
            kzg_commitments_count = some raw.kzg_commitments_count;
            proposer_index = some raw.proposer_index;
            parent_root = some raw.parent_root;
            state_root = some raw.state_root;
            block_root = raw.block_root;
          })))
        (map_ok AdditionalData.data_column_sidecar
          (get_additional_data e raw (unix_milli raw.timestamp_ms)))
]

module _ (D : TtlCache ℤ) (hash : RawDataColumnSidecar → Outcome ℕ) where
  unfoldable pub should_ignore : Moment → DataColumnSidecar → Method D.Cache Bool
  unfolding should_ignore_hashed
  should_ignore m e =
      should_ignore_hashed D hash (λ raw. too_old e.wallclock raw.slot m.slot_at) m.dedup_at e

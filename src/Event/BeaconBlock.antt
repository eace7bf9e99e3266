-- ===== src/Event/BeaconBlock.antt =====
-- pkg/event/gossipsub/beacon_block.go
use xatu_sidecar.Prelude.{ℕ, String, Bool, none, some}
use xatu_sidecar.Prelude.Int.{ℤ}
use xatu_sidecar.Outcome.{Outcome, panic, map_ok, Method}
use xatu_sidecar.Ttl.{TtlCache}
use xatu_sidecar.Wallclock.{Wallclock}
use xatu_sidecar.Proto.{ClientMeta, EventName, DecoratedEvent}
use xatu_sidecar.Proto.Payload.{EventData}
use xatu_sidecar.Proto.Additional.{AdditionalData, GossipData}
use xatu_sidecar.Event.Instant.{unix_milli}
use xatu_sidecar.Event.Source.{Moment, Source, new_source, base_event, attach}
use xatu_sidecar.Event.Freshness.{too_old, should_ignore_hashed}
use xatu_sidecar.Event.Gossip.{gossip_data}

pub record RawBeaconBlock : Type 0 where
  pub timestamp_ms : ℤ
  pub slot : ℕ
  pub epoch : ℕ
  pub proposer_index : ℕ
  pub message_size : ℕ
  pub peer_id : String
  pub message_id : String
  pub topic : String
  pub block_root : String

abbrev pub BeaconBlock : Type 0
BeaconBlock = Source RawBeaconBlock

abbrev pub new_beacon_block : RawBeaconBlock → ℤ → Wallclock → ClientMeta → String → BeaconBlock
new_beacon_block raw drift w meta uuid = new_source raw raw.timestamp_ms drift w meta uuid

abbrev get_additional_data : BeaconBlock → RawBeaconBlock → ℤ → Outcome GossipData
get_additional_data e raw timestamp =
    gossip_data e.wallclock timestamp raw.slot raw.slot raw.peer_id raw.topic raw.message_id
      raw.message_size

unfoldable pub decorate : BeaconBlock → Outcome DecoratedEvent
decorate e = elim e.raw [
  | none ↦ panic
  | some raw ↦
      attach
        (base_event e EventName.libp2p_trace_gossipsub_beacon_block (unix_milli raw.timestamp_ms) (
          EventData.beacon_block (record {
            slot = raw.slot;
            block = raw.block_root;
            proposer_index = raw.proposer_index;
          })))
        (map_ok AdditionalData.beacon_block
          (get_additional_data e raw (unix_milli raw.timestamp_ms)))
]

module _ (D : TtlCache ℤ) (hash : RawBeaconBlock → Outcome ℕ) where
  unfoldable pub should_ignore : Moment → BeaconBlock → Method D.Cache Bool
  unfolding should_ignore_hashed
  should_ignore m e =
      should_ignore_hashed D hash (λ raw. too_old e.wallclock raw.slot m.slot_at) m.dedup_at e

-- ===== src/Event/ProposerPreferences.antt =====
-- pkg/event/gossipsub/proposer_preferences.go
use xatu_sidecar.Prelude.{ℕ, String, Bool, false, none, some}
use xatu_sidecar.Prelude.Int.{ℤ}
use xatu_sidecar.Outcome.{Outcome, ok, panic, map_ok, Method}
use xatu_sidecar.Ttl.{TtlCache}
use xatu_sidecar.Wallclock.{Wallclock}
use xatu_sidecar.Proto.{ClientMeta, EventName, DecoratedEvent}
use xatu_sidecar.Proto.Payload.{EventData}
use xatu_sidecar.Proto.Additional.{AdditionalData, GossipData}
use xatu_sidecar.Event.Instant.{unix_milli}
use xatu_sidecar.Event.Source.{Moment, Source, new_source, base_event, attach}
use xatu_sidecar.Event.Freshness.{should_ignore_hashed}
use xatu_sidecar.Event.Gossip.{gossip_data}

pub record RawProposerPreferences : Type 0 where
  pub timestamp_ms : ℤ
  pub slot : ℕ
  pub epoch : ℕ
  pub validator_index : ℕ
  pub target_gas_limit : ℕ
  pub message_size : ℕ
  pub peer_id : String
  pub message_id : String
  pub topic : String
  pub fee_recipient : String

abbrev pub ProposerPreferences : Type 0
ProposerPreferences = Source RawProposerPreferences

abbrev pub new_proposer_preferences :
    RawProposerPreferences → ℤ → Wallclock → ClientMeta → String → ProposerPreferences
new_proposer_preferences raw drift w meta uuid = new_source raw raw.timestamp_ms drift w meta uuid

abbrev get_additional_data : ProposerPreferences → RawProposerPreferences → ℤ → Outcome GossipData
get_additional_data e raw timestamp =
    gossip_data e.wallclock timestamp raw.slot raw.slot raw.peer_id raw.topic raw.message_id
      raw.message_size

unfoldable pub decorate : ProposerPreferences → Outcome DecoratedEvent
decorate e = elim e.raw [
  | none ↦ panic
  | some raw ↦
      attach
        (base_event e EventName.libp2p_trace_gossipsub_proposer_preferences
          (unix_milli raw.timestamp_ms)
          (EventData.proposer_preferences (record {
            slot = raw.slot;
            validator_index = raw.validator_index;
            fee_recipient = raw.fee_recipient;
            target_gas_limit = raw.target_gas_limit;
          })))
        (map_ok AdditionalData.proposer_preferences
          (get_additional_data e raw (unix_milli raw.timestamp_ms)))
]

module _ (D : TtlCache ℤ) (hash : RawProposerPreferences → Outcome ℕ) where
  -- Preferences are published ahead of their slot: there is no age limit.
  unfoldable pub should_ignore : Moment → ProposerPreferences → Method D.Cache Bool
  unfolding should_ignore_hashed
  should_ignore m e = should_ignore_hashed D hash (λ raw. ok false) m.dedup_at e

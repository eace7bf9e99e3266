-- ===== src/Event/Attestation.antt =====
-- pkg/event/gossipsub/attestation.go
pub mod Epochs
use xatu_sidecar.Prelude.{ℕ, String, Bool, false, Option, none, some}
use xatu_sidecar.Prelude.Int.{ℤ}
use xatu_sidecar.Outcome.{Outcome, ok, panic, map_ok, Method}
use xatu_sidecar.Ttl.{TtlCache}
use xatu_sidecar.Wallclock.{Wallclock}
use xatu_sidecar.Proto.{ClientMeta, EventName, DecoratedEvent}
use xatu_sidecar.Proto.Payload.{EventData}
use xatu_sidecar.Proto.Additional.{AdditionalData, GossipData}
use xatu_sidecar.Event.Instant.{unix_milli}
use xatu_sidecar.Event.Source.{Moment, Source, new_source, base_event, attach}
use xatu_sidecar.Event.Freshness.{too_old, should_ignore_hashed}
use xatu_sidecar.Event.Gossip.{gossip_data}
use xatu_sidecar.Proto.Payload
use xatu_sidecar.Proto.Additional.{AttestationData, EpochV2}

pub record RawAttestation : Type 0 where
  pub slot : ℕ
  pub epoch : ℕ
  pub subnet_id : ℕ
  pub timestamp_ms : ℤ
  pub source_epoch : ℕ
  pub target_epoch : ℕ
  pub committee_index : ℕ
  pub attester_index : ℕ
  pub message_size : ℕ
  pub should_process : Bool
  pub peer_id : String
  pub message_id : String
  pub attestation_data_root : String
  pub topic : String
  pub source_root : String
  pub target_root : String
  pub aggregation_bits : String
  pub signature : String

abbrev pub Attestation : Type 0
Attestation = Source RawAttestation

abbrev pub new_attestation : RawAttestation → ℤ → Wallclock → ClientMeta → String → Attestation
new_attestation raw drift w meta uuid = new_source raw raw.timestamp_ms drift w meta uuid

-- The windows of the checkpoints' epochs are looked up by `Epochs().FromSlot`, and no number is set.
abbrev pub checkpoint_epoch : Wallclock → ℕ → EpochV2
checkpoint_epoch w epoch = record {
  number = none;
  start_date_time = (w.epoch_from_slot epoch).start;
}

abbrev get_additional_data : Attestation → RawAttestation → ℤ → Outcome AttestationData
get_additional_data e raw timestamp =
    map_ok
      (λ gossip. record {
        gossip = gossip;
        target_epoch = checkpoint_epoch e.wallclock raw.target_epoch;
        source_epoch = checkpoint_epoch e.wallclock raw.source_epoch;
        committee_index = raw.committee_index;
        attester_index = raw.attester_index;
      })
      (gossip_data e.wallclock timestamp raw.slot (e.wallclock.slot_from_number raw.slot).number
        raw.peer_id raw.topic raw.message_id raw.message_size)

abbrev pub attestation_message : RawAttestation → Payload.Attestation
attestation_message raw = record {
  aggregation_bits = raw.aggregation_bits;
  slot = raw.slot;
  beacon_block_root = raw.attestation_data_root;
  source = record { epoch = raw.source_epoch; root = raw.source_root };
  target = record { epoch = raw.target_epoch; root = raw.target_root };
}

unfoldable pub decorate : Attestation → Outcome DecoratedEvent
decorate e = elim e.raw [
  | none ↦ panic
  | some raw ↦
      attach
        (base_event e EventName.libp2p_trace_gossipsub_beacon_attestation
          (unix_milli raw.timestamp_ms) (EventData.beacon_attestation (attestation_message raw)))
        (map_ok AdditionalData.beacon_attestation
          (get_additional_data e raw (unix_milli raw.timestamp_ms)))
]

module _ (D : TtlCache ℤ) (hash : RawAttestation → Outcome ℕ) where
  unfoldable pub should_ignore : Moment → Attestation → Method D.Cache Bool
  unfolding should_ignore_hashed
  should_ignore m e =
      should_ignore_hashed D hash (λ raw. too_old e.wallclock raw.slot m.slot_at) m.dedup_at e

-- ===== src/Event/Attestation/Epochs.antt =====
-- The epochs of an attestation's checkpoints in pkg/event/gossipsub/attestation.go.
use xatu_sidecar.Prelude.{ℕ, ◌/◌, ◌≡◌, none, some, arith}
use xatu_sidecar.Prelude.Int.{ℤ}
use xatu_sidecar.Outcome.{ok}
use xatu_sidecar.Wallclock.{EpochLaws}
use xatu_sidecar.Proto.{DecoratedEvent}
use xatu_sidecar.Proto.Additional.{AdditionalData, AttestationData}
use xatu_sidecar.Event.Gossip.{gossip_data}
use xatu_sidecar.Event.Attestation.{RawAttestation, Attestation, decorate}

-- If an epoch of the wallclock is a run of so many slots, and the metadata held no additional data
-- before, the start times that a decorated attestation carries for its target and source are those of
-- the epochs whose numbers are the checkpoints' epoch numbers divided by the slots in an epoch,
-- because the epoch numbers are looked up as slot numbers.
pub decorate_checkpoint_epochs :
    (e : Attestation) (raw : RawAttestation) (d : DecoratedEvent) (extra : AttestationData)
    (slots_per_epoch : ℕ) (epoch_start : ℕ → ℤ)
    → EpochLaws e.wallclock slots_per_epoch epoch_start
    → e.raw ≡ some raw
    → e.client_meta.additional_data ≡ none
    → decorate e ≡ ok d
    → d.client.additional_data ≡ some (AdditionalData.beacon_attestation extra)
    → (extra.target_epoch.start_date_time ≡ epoch_start (raw.target_epoch / slots_per_epoch))
      × (extra.source_epoch.start_date_time ≡ epoch_start (raw.source_epoch / slots_per_epoch))
unfolding decorate gossip_data
decorate_checkpoint_epochs e raw d extra n epoch_start laws p clean q r =
    ground (arith, laws.start raw.target_epoch, laws.start raw.source_epoch)

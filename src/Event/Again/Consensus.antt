-- ===== src/Event/Again/Consensus.antt =====
-- `ShouldIgnore` of the consensus gossip events of pkg/event/gossipsub, made twice.
use xatu_sidecar.Prelude.{ℕ, ◌≡◌, false, some}
use xatu_sidecar.Prelude.Int.{ℤ}
use xatu_sidecar.Outcome.{Outcome, ok}
use xatu_sidecar.Ttl.{TtlCache, TtlLaws}
use xatu_sidecar.Event.Source.{Moment}
use xatu_sidecar.Event.Freshness.{too_old}
use xatu_sidecar.Event.Freshness.Twice.{Stopped, InTerm, should_ignore_hashed-Stopped}
use xatu_sidecar.Event.BeaconBlock
use xatu_sidecar.Event.BeaconBlock.{BeaconBlock, RawBeaconBlock}
use xatu_sidecar.Event.Attestation
use xatu_sidecar.Event.Attestation.{Attestation, RawAttestation}
use xatu_sidecar.Event.AggregateAndProof
use xatu_sidecar.Event.AggregateAndProof.{AggregateAndProof, RawAggregateAndProof}
use xatu_sidecar.Event.BlobSidecar
use xatu_sidecar.Event.BlobSidecar.{BlobSidecar, RawBlobSidecar}
use xatu_sidecar.Event.DataColumnSidecar
use xatu_sidecar.Event.DataColumnSidecar.{DataColumnSidecar, RawDataColumnSidecar}
use xatu_sidecar.Event.DataColumnSidecarGloas
use xatu_sidecar.Event.DataColumnSidecarGloas.{DataColumnSidecarGloas, RawDataColumnSidecarGloas}
use xatu_sidecar.Event.ExecutionPayloadEnvelope
use xatu_sidecar.Event.ExecutionPayloadEnvelope.{
  ExecutionPayloadEnvelope, RawExecutionPayloadEnvelope,
}
use xatu_sidecar.Event.ExecutionPayloadBid
use xatu_sidecar.Event.ExecutionPayloadBid.{ExecutionPayloadBid, RawExecutionPayloadBid}
use xatu_sidecar.Event.PayloadAttestationMessage
use xatu_sidecar.Event.PayloadAttestationMessage.{
  PayloadAttestationMessage, RawPayloadAttestationMessage,
}
use xatu_sidecar.Event.ProposerPreferences
use xatu_sidecar.Event.ProposerPreferences.{ProposerPreferences, RawProposerPreferences}

module _ (D : TtlCache ℤ) (laws : TtlLaws D) (m n : Moment) (c : D.Cache) where
  -- The second test comes within the time to live of the first.
  abbrev Again : Type 0
  Again = InTerm D laws m.dedup_at n.dedup_at c

  pub beacon_block-Stopped :
      (hash : RawBeaconBlock → Outcome ℕ) (e₁ e₂ : BeaconBlock) (raw : RawBeaconBlock)
      → e₁.raw ≡ some raw
      → e₂.raw ≡ some raw
      → Again
      → Stopped
          (BeaconBlock.should_ignore D hash n e₂ (BeaconBlock.should_ignore D hash m e₁ c).1).0
  unfolding BeaconBlock.should_ignore
  beacon_block-Stopped hash e₁ e₂ raw p q i =
      should_ignore_hashed-Stopped D laws hash (λ r. too_old e₁.wallclock r.slot m.slot_at)
        (λ r. too_old e₂.wallclock r.slot n.slot_at) m.dedup_at n.dedup_at e₁ e₂ raw c p q i

  pub attestation-Stopped :
      (hash : RawAttestation → Outcome ℕ) (e₁ e₂ : Attestation) (raw : RawAttestation)
      → e₁.raw ≡ some raw
      → e₂.raw ≡ some raw
      → Again
      → Stopped
          (Attestation.should_ignore D hash n e₂ (Attestation.should_ignore D hash m e₁ c).1).0
  unfolding Attestation.should_ignore
  attestation-Stopped hash e₁ e₂ raw p q i =
      should_ignore_hashed-Stopped D laws hash (λ r. too_old e₁.wallclock r.slot m.slot_at)
        (λ r. too_old e₂.wallclock r.slot n.slot_at) m.dedup_at n.dedup_at e₁ e₂ raw c p q i

  pub aggregate_and_proof-Stopped :
      (hash : RawAggregateAndProof → Outcome ℕ) (e₁ e₂ : AggregateAndProof)
      (raw : RawAggregateAndProof)
      → e₁.raw ≡ some raw
      → e₂.raw ≡ some raw
      → Again
      → Stopped
          (AggregateAndProof.should_ignore D hash n e₂
            (AggregateAndProof.should_ignore D hash m e₁ c).1).0
  unfolding AggregateAndProof.should_ignore
  aggregate_and_proof-Stopped hash e₁ e₂ raw p q i =
      should_ignore_hashed-Stopped D laws hash (λ r. too_old e₁.wallclock r.slot m.slot_at)
        (λ r. too_old e₂.wallclock r.slot n.slot_at) m.dedup_at n.dedup_at e₁ e₂ raw c p q i

  pub blob_sidecar-Stopped :
      (hash : RawBlobSidecar → Outcome ℕ) (e₁ e₂ : BlobSidecar) (raw : RawBlobSidecar)
      → e₁.raw ≡ some raw
      → e₂.raw ≡ some raw
      → Again
      → Stopped
          (BlobSidecar.should_ignore D hash n e₂ (BlobSidecar.should_ignore D hash m e₁ c).1).0
  unfolding BlobSidecar.should_ignore
  blob_sidecar-Stopped hash e₁ e₂ raw p q i =
      should_ignore_hashed-Stopped D laws hash (λ r. too_old e₁.wallclock r.slot m.slot_at)
        (λ r. too_old e₂.wallclock r.slot n.slot_at) m.dedup_at n.dedup_at e₁ e₂ raw c p q i

  pub data_column_sidecar-Stopped :
      (hash : RawDataColumnSidecar → Outcome ℕ) (e₁ e₂ : DataColumnSidecar)
      (raw : RawDataColumnSidecar)
      → e₁.raw ≡ some raw
      → e₂.raw ≡ some raw
      → Again
      → Stopped
          (DataColumnSidecar.should_ignore D hash n e₂
            (DataColumnSidecar.should_ignore D hash m e₁ c).1).0
  unfolding DataColumnSidecar.should_ignore
  data_column_sidecar-Stopped hash e₁ e₂ raw p q i =
      should_ignore_hashed-Stopped D laws hash (λ r. too_old e₁.wallclock r.slot m.slot_at)
        (λ r. too_old e₂.wallclock r.slot n.slot_at) m.dedup_at n.dedup_at e₁ e₂ raw c p q i

  pub data_column_sidecar_gloas-Stopped :
      (hash : RawDataColumnSidecarGloas → Outcome ℕ) (e₁ e₂ : DataColumnSidecarGloas)
      (raw : RawDataColumnSidecarGloas)
      → e₁.raw ≡ some raw
      → e₂.raw ≡ some raw
      → Again
      → Stopped
          (DataColumnSidecarGloas.should_ignore D hash n e₂
            (DataColumnSidecarGloas.should_ignore D hash m e₁ c).1).0
  unfolding DataColumnSidecarGloas.should_ignore
  data_column_sidecar_gloas-Stopped hash e₁ e₂ raw p q i =
      should_ignore_hashed-Stopped D laws hash (λ r. too_old e₁.wallclock r.slot m.slot_at)
        (λ r. too_old e₂.wallclock r.slot n.slot_at) m.dedup_at n.dedup_at e₁ e₂ raw c p q i

  pub execution_payload_envelope-Stopped :
      (hash : RawExecutionPayloadEnvelope → Outcome ℕ) (e₁ e₂ : ExecutionPayloadEnvelope)
      (raw : RawExecutionPayloadEnvelope)
      → e₁.raw ≡ some raw
      → e₂.raw ≡ some raw
      → Again
      → Stopped
          (ExecutionPayloadEnvelope.should_ignore D hash n e₂
            (ExecutionPayloadEnvelope.should_ignore D hash m e₁ c).1).0
  unfolding ExecutionPayloadEnvelope.should_ignore
  execution_payload_envelope-Stopped hash e₁ e₂ raw p q i =
      should_ignore_hashed-Stopped D laws hash (λ r. too_old e₁.wallclock r.slot m.slot_at)
        (λ r. too_old e₂.wallclock r.slot n.slot_at) m.dedup_at n.dedup_at e₁ e₂ raw c p q i

  pub execution_payload_bid-Stopped :
      (hash : RawExecutionPayloadBid → Outcome ℕ) (e₁ e₂ : ExecutionPayloadBid)
      (raw : RawExecutionPayloadBid)
      → e₁.raw ≡ some raw
      → e₂.raw ≡ some raw
      → Again
      → Stopped
          (ExecutionPayloadBid.should_ignore D hash n e₂
            (ExecutionPayloadBid.should_ignore D hash m e₁ c).1).0
  unfolding ExecutionPayloadBid.should_ignore
  execution_payload_bid-Stopped hash e₁ e₂ raw p q i =
      should_ignore_hashed-Stopped D laws hash (λ r. too_old e₁.wallclock r.slot m.slot_at)
        (λ r. too_old e₂.wallclock r.slot n.slot_at) m.dedup_at n.dedup_at e₁ e₂ raw c p q i

  pub payload_attestation_message-Stopped :
      (hash : RawPayloadAttestationMessage → Outcome ℕ) (e₁ e₂ : PayloadAttestationMessage)
      (raw : RawPayloadAttestationMessage)
      → e₁.raw ≡ some raw
      → e₂.raw ≡ some raw
      → Again
      → Stopped
          (PayloadAttestationMessage.should_ignore D hash n e₂
            (PayloadAttestationMessage.should_ignore D hash m e₁ c).1).0
  unfolding PayloadAttestationMessage.should_ignore
  payload_attestation_message-Stopped hash e₁ e₂ raw p q i =
      should_ignore_hashed-Stopped D laws hash (λ r. too_old e₁.wallclock r.slot m.slot_at)
        (λ r. too_old e₂.wallclock r.slot n.slot_at) m.dedup_at n.dedup_at e₁ e₂ raw c p q i

  pub proposer_preferences-Stopped :
      (hash : RawProposerPreferences → Outcome ℕ) (e₁ e₂ : ProposerPreferences)
      (raw : RawProposerPreferences)
      → e₁.raw ≡ some raw
      → e₂.raw ≡ some raw
      → Again
      → Stopped
          (ProposerPreferences.should_ignore D hash n e₂
            (ProposerPreferences.should_ignore D hash m e₁ c).1).0
  unfolding ProposerPreferences.should_ignore
  proposer_preferences-Stopped hash e₁ e₂ raw p q i =
      should_ignore_hashed-Stopped D laws hash (λ _. ok false) (λ _. ok false) m.dedup_at n.dedup_at
        e₁ e₂ raw c p q i

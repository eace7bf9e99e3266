-- ===== src/Event/Returning/Payloads.antt =====
-- On panics in the decoration and the tests of the events of pkg/event/gossipsub.
use xatu_sidecar.Prelude.{ℕ, ◌≡◌, some, arith}
use xatu_sidecar.Prelude.Int.{ℤ}
use xatu_sidecar.Outcome.{Outcome}
use xatu_sidecar.Ttl.{TtlCache}
use xatu_sidecar.Event.Instant.{unix_milli}
use xatu_sidecar.Event.Source.{Moment}
use xatu_sidecar.Event.Gossip.{gossip_data}
use xatu_sidecar.Event.Partial.{is_stale_slot, new_block_timing, validate_enum}
use xatu_sidecar.Event.Freshness.{too_old, ignore_duplicate, should_ignore_hashed}
use xatu_sidecar.Event.DataColumnSidecarGloas
use xatu_sidecar.Event.ExecutionPayloadEnvelope
use xatu_sidecar.Event.ExecutionPayloadBid
use xatu_sidecar.Event.PayloadAttestationMessage
use xatu_sidecar.Event.ProposerPreferences
use xatu_sidecar.Event.Returning.{Returns, Answers}

pub data_column_sidecar_gloas-decorate-Returns :
    (e : DataColumnSidecarGloas.DataColumnSidecarGloas)
    (raw : DataColumnSidecarGloas.RawDataColumnSidecarGloas)
    → e.raw ≡ some raw
    → Answers e.wallclock
    → Returns (DataColumnSidecarGloas.decorate e)
unfolding DataColumnSidecarGloas.decorate gossip_data new_block_timing
data_column_sidecar_gloas-decorate-Returns e raw p a =
    let n = a.from_time (unix_milli raw.timestamp_ms) in ground (arith, n, p)

pub data_column_sidecar_gloas-should_ignore-Returns :
    (D : TtlCache ℤ) (hash : DataColumnSidecarGloas.RawDataColumnSidecarGloas → Outcome ℕ)
    (m : Moment) (e : DataColumnSidecarGloas.DataColumnSidecarGloas)
    (raw : DataColumnSidecarGloas.RawDataColumnSidecarGloas) (c : D.Cache)
    → e.raw ≡ some raw
    → Answers e.wallclock
    → Returns (hash raw)
    → Returns (DataColumnSidecarGloas.should_ignore D hash m e c).0
unfolding DataColumnSidecarGloas.should_ignore should_ignore_hashed ignore_duplicate too_old
    is_stale_slot validate_enum
data_column_sidecar_gloas-should_ignore-Returns D hash m e raw c p a k =
    let n = a.now m.slot_at in ground (arith, n, p, k)

pub execution_payload_envelope-decorate-Returns :
    (e : ExecutionPayloadEnvelope.ExecutionPayloadEnvelope)
    (raw : ExecutionPayloadEnvelope.RawExecutionPayloadEnvelope)
    → e.raw ≡ some raw
    → Answers e.wallclock
    → Returns (ExecutionPayloadEnvelope.decorate e)
unfolding ExecutionPayloadEnvelope.decorate gossip_data new_block_timing
execution_payload_envelope-decorate-Returns e raw p a =
    let n = a.from_time (unix_milli raw.timestamp_ms) in ground (arith, n, p)

pub execution_payload_envelope-should_ignore-Returns :
    (D : TtlCache ℤ) (hash : ExecutionPayloadEnvelope.RawExecutionPayloadEnvelope → Outcome ℕ)
    (m : Moment) (e : ExecutionPayloadEnvelope.ExecutionPayloadEnvelope)
    (raw : ExecutionPayloadEnvelope.RawExecutionPayloadEnvelope) (c : D.Cache)
    → e.raw ≡ some raw
    → Answers e.wallclock
    → Returns (hash raw)
    → Returns (ExecutionPayloadEnvelope.should_ignore D hash m e c).0
unfolding ExecutionPayloadEnvelope.should_ignore should_ignore_hashed ignore_duplicate too_old
    is_stale_slot validate_enum
execution_payload_envelope-should_ignore-Returns D hash m e raw c p a k =
    let n = a.now m.slot_at in ground (arith, n, p, k)

pub execution_payload_bid-decorate-Returns :
    (e : ExecutionPayloadBid.ExecutionPayloadBid) (raw : ExecutionPayloadBid.RawExecutionPayloadBid)
    → e.raw ≡ some raw
    → Answers e.wallclock
    → Returns (ExecutionPayloadBid.decorate e)
unfolding ExecutionPayloadBid.decorate gossip_data new_block_timing
execution_payload_bid-decorate-Returns e raw p a =
    let n = a.from_time (unix_milli raw.timestamp_ms) in ground (arith, n, p)

pub execution_payload_bid-should_ignore-Returns :
    (D : TtlCache ℤ) (hash : ExecutionPayloadBid.RawExecutionPayloadBid → Outcome ℕ) (m : Moment)
    (e : ExecutionPayloadBid.ExecutionPayloadBid) (raw : ExecutionPayloadBid.RawExecutionPayloadBid)
    (c : D.Cache)
    → e.raw ≡ some raw
    → Answers e.wallclock
    → Returns (hash raw)
    → Returns (ExecutionPayloadBid.should_ignore D hash m e c).0
unfolding ExecutionPayloadBid.should_ignore should_ignore_hashed ignore_duplicate too_old
    is_stale_slot validate_enum
execution_payload_bid-should_ignore-Returns D hash m e raw c p a k =
    let n = a.now m.slot_at in ground (arith, n, p, k)

pub payload_attestation_message-decorate-Returns :
    (e : PayloadAttestationMessage.PayloadAttestationMessage)
    (raw : PayloadAttestationMessage.RawPayloadAttestationMessage)
    → e.raw ≡ some raw
    → Answers e.wallclock
    → Returns (PayloadAttestationMessage.decorate e)
unfolding PayloadAttestationMessage.decorate gossip_data new_block_timing
payload_attestation_message-decorate-Returns e raw p a =
    let n = a.from_time (unix_milli raw.timestamp_ms) in ground (arith, n, p)

pub payload_attestation_message-should_ignore-Returns :
    (D : TtlCache ℤ) (hash : PayloadAttestationMessage.RawPayloadAttestationMessage → Outcome ℕ)
    (m : Moment) (e : PayloadAttestationMessage.PayloadAttestationMessage)
    (raw : PayloadAttestationMessage.RawPayloadAttestationMessage) (c : D.Cache)
    → e.raw ≡ some raw
    → Answers e.wallclock
    → Returns (hash raw)
    → Returns (PayloadAttestationMessage.should_ignore D hash m e c).0
unfolding PayloadAttestationMessage.should_ignore should_ignore_hashed ignore_duplicate too_old
    is_stale_slot validate_enum
payload_attestation_message-should_ignore-Returns D hash m e raw c p a k =
    let n = a.now m.slot_at in ground (arith, n, p, k)

pub proposer_preferences-decorate-Returns :
    (e : ProposerPreferences.ProposerPreferences) (raw : ProposerPreferences.RawProposerPreferences)
    → e.raw ≡ some raw
    → Answers e.wallclock
    → Returns (ProposerPreferences.decorate e)
unfolding ProposerPreferences.decorate gossip_data new_block_timing
proposer_preferences-decorate-Returns e raw p a =
    let n = a.from_time (unix_milli raw.timestamp_ms) in ground (arith, n, p)

pub proposer_preferences-should_ignore-Returns :
    (D : TtlCache ℤ) (hash : ProposerPreferences.RawProposerPreferences → Outcome ℕ) (m : Moment)
    (e : ProposerPreferences.ProposerPreferences) (raw : ProposerPreferences.RawProposerPreferences)
    (c : D.Cache)
    → e.raw ≡ some raw
    → Answers e.wallclock
    → Returns (hash raw)
    → Returns (ProposerPreferences.should_ignore D hash m e c).0
unfolding ProposerPreferences.should_ignore should_ignore_hashed ignore_duplicate too_old
    is_stale_slot validate_enum
proposer_preferences-should_ignore-Returns D hash m e raw c p a k =
    let n = a.now m.slot_at in ground (arith, n, p, k)

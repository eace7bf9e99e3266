-- ===== src/Event.antt =====
-- pkg/event/gossipsub: one module for each file, over the steps that the files share.
pub mod Instant
pub mod Source
pub mod Freshness
pub mod Gossip
pub mod BeaconBlock
pub mod BlobSidecar
pub mod DataColumnSidecar
pub mod DataColumnSidecarGloas
pub mod ExecutionPayloadEnvelope
pub mod ExecutionPayloadBid
pub mod PayloadAttestationMessage
pub mod ProposerPreferences
pub mod Attestation
pub mod AggregateAndProof
pub mod Partial
pub mod PartialDataColumn
pub mod DataColumnCompleted
pub mod PartialDataColumnOutcome
pub mod Again
pub mod Decoding
pub mod RoundTrip
pub mod Returning

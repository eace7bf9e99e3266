-- ===== src/Event/Returning/Blocks.antt =====
-- On panics in the decoration and the tests of the events of pkg/event/gossipsub.
use xatu_sidecar.Prelude.{ℕ, ◌≡◌, some, arith}
use xatu_sidecar.Prelude.Int.{ℤ}
use xatu_sidecar.Outcome.{Outcome}
use xatu_sidecar.Ttl.{TtlCache}
use xatu_sidecar.Event.Instant.{unix_milli}
use xatu_sidecar.Event.Source.{Moment}
use xatu_sidecar.Event.Gossip.{gossip_data}
use xatu_sidecar.Event.Partial.{is_stale_slot, new_block_timing, validate_enum}
use xatu_sidecar.Event.Freshness.{too_old, ignore_duplicate, should_ignore_hashed}
use xatu_sidecar.Event.BeaconBlock
use xatu_sidecar.Event.Attestation
use xatu_sidecar.Event.AggregateAndProof
use xatu_sidecar.Event.BlobSidecar
use xatu_sidecar.Event.DataColumnSidecar
use xatu_sidecar.Event.Returning.{Returns, Answers}

pub beacon_block-decorate-Returns :
    (e : BeaconBlock.BeaconBlock) (raw : BeaconBlock.RawBeaconBlock)
    → e.raw ≡ some raw
    → Answers e.wallclock
    → Returns (BeaconBlock.decorate e)
unfolding BeaconBlock.decorate gossip_data new_block_timing
beacon_block-decorate-Returns e raw p a =
    let n = a.from_time (unix_milli raw.timestamp_ms) in ground (arith, n, p)

pub beacon_block-should_ignore-Returns :
    (D : TtlCache ℤ) (hash : BeaconBlock.RawBeaconBlock → Outcome ℕ) (m : Moment)
    (e : BeaconBlock.BeaconBlock) (raw : BeaconBlock.RawBeaconBlock) (c : D.Cache)
    → e.raw ≡ some raw
    → Answers e.wallclock
    → Returns (hash raw)
    → Returns (BeaconBlock.should_ignore D hash m e c).0
unfolding BeaconBlock.should_ignore should_ignore_hashed ignore_duplicate too_old is_stale_slot
    validate_enum
beacon_block-should_ignore-Returns D hash m e raw c p a k =
    let n = a.now m.slot_at in ground (arith, n, p, k)

pub attestation-decorate-Returns :
    (e : Attestation.Attestation) (raw : Attestation.RawAttestation)
    → e.raw ≡ some raw
    → Answers e.wallclock
    → Returns (Attestation.decorate e)
unfolding Attestation.decorate gossip_data new_block_timing
attestation-decorate-Returns e raw p a =
    let n = a.from_time (unix_milli raw.timestamp_ms) in ground (arith, n, p)

pub attestation-should_ignore-Returns :
    (D : TtlCache ℤ) (hash : Attestation.RawAttestation → Outcome ℕ) (m : Moment)
    (e : Attestation.Attestation) (raw : Attestation.RawAttestation) (c : D.Cache)
    → e.raw ≡ some raw
    → Answers e.wallclock
    → Returns (hash raw)
    → Returns (Attestation.should_ignore D hash m e c).0
unfolding Attestation.should_ignore should_ignore_hashed ignore_duplicate too_old is_stale_slot
    validate_enum
attestation-should_ignore-Returns D hash m e raw c p a k =
    let n = a.now m.slot_at in ground (arith, n, p, k)

pub aggregate_and_proof-decorate-Returns :
    (e : AggregateAndProof.AggregateAndProof) (raw : AggregateAndProof.RawAggregateAndProof)
    → e.raw ≡ some raw
    → Answers e.wallclock
    → Returns (AggregateAndProof.decorate e)
unfolding AggregateAndProof.decorate gossip_data new_block_timing
aggregate_and_proof-decorate-Returns e raw p a =
    let n = a.from_time (unix_milli raw.timestamp_ms) in ground (arith, n, p)

pub aggregate_and_proof-should_ignore-Returns :
    (D : TtlCache ℤ) (hash : AggregateAndProof.RawAggregateAndProof → Outcome ℕ) (m : Moment)
    (e : AggregateAndProof.AggregateAndProof) (raw : AggregateAndProof.RawAggregateAndProof)
    (c : D.Cache)
    → e.raw ≡ some raw
    → Answers e.wallclock
    → Returns (hash raw)
    → Returns (AggregateAndProof.should_ignore D hash m e c).0
unfolding AggregateAndProof.should_ignore should_ignore_hashed ignore_duplicate too_old
    is_stale_slot validate_enum
aggregate_and_proof-should_ignore-Returns D hash m e raw c p a k =
    let n = a.now m.slot_at in ground (arith, n, p, k)

pub blob_sidecar-decorate-Returns :
    (e : BlobSidecar.BlobSidecar) (raw : BlobSidecar.RawBlobSidecar)
    → e.raw ≡ some raw
    → Answers e.wallclock
    → Returns (BlobSidecar.decorate e)
unfolding BlobSidecar.decorate gossip_data new_block_timing
blob_sidecar-decorate-Returns e raw p a =
    let n = a.from_time (unix_milli raw.timestamp_ms) in ground (arith, n, p)

pub blob_sidecar-should_ignore-Returns :
    (D : TtlCache ℤ) (hash : BlobSidecar.RawBlobSidecar → Outcome ℕ) (m : Moment)
    (e : BlobSidecar.BlobSidecar) (raw : BlobSidecar.RawBlobSidecar) (c : D.Cache)
    → e.raw ≡ some raw
    → Answers e.wallclock
    → Returns (hash raw)
    → Returns (BlobSidecar.should_ignore D hash m e c).0
unfolding BlobSidecar.should_ignore should_ignore_hashed ignore_duplicate too_old is_stale_slot
    validate_enum
blob_sidecar-should_ignore-Returns D hash m e raw c p a k =
    let n = a.now m.slot_at in ground (arith, n, p, k)

pub data_column_sidecar-decorate-Returns :
    (e : DataColumnSidecar.DataColumnSidecar) (raw : DataColumnSidecar.RawDataColumnSidecar)
    → e.raw ≡ some raw
    → Answers e.wallclock
    → Returns (DataColumnSidecar.decorate e)
unfolding DataColumnSidecar.decorate gossip_data new_block_timing
data_column_sidecar-decorate-Returns e raw p a =
    let n = a.from_time (unix_milli raw.timestamp_ms) in ground (arith, n, p)

pub data_column_sidecar-should_ignore-Returns :
    (D : TtlCache ℤ) (hash : DataColumnSidecar.RawDataColumnSidecar → Outcome ℕ) (m : Moment)
    (e : DataColumnSidecar.DataColumnSidecar) (raw : DataColumnSidecar.RawDataColumnSidecar)
    (c : D.Cache)
    → e.raw ≡ some raw
    → Answers e.wallclock
    → Returns (hash raw)
    → Returns (DataColumnSidecar.should_ignore D hash m e c).0
unfolding DataColumnSidecar.should_ignore should_ignore_hashed ignore_duplicate too_old
    is_stale_slot validate_enum
data_column_sidecar-should_ignore-Returns D hash m e raw c p a k =
    let n = a.now m.slot_at in ground (arith, n, p, k)

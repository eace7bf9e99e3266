-- ===== src/Cache/Duplicate.antt =====
-- pkg/cache/duplicate.go: one TTL cache of first sightings for each kind of event. The goroutines
-- that `Start` spawns only evict items whose term has run out.
use xatu_sidecar.Prelude.{ℕ, ◌*◌, true}
use xatu_sidecar.Prelude.Int.{ℤ}
use xatu_sidecar.Ttl.{TtlCache}

-- 7 * time.Minute
abbrev pub consensus_ttl : ℕ
consensus_ttl = 7 * 60_000_000_000

-- 30 * time.Second
abbrev pub partial_ttl : ℕ
partial_ttl = 30 * 1_000_000_000

pub record DuplicateCache (D : TtlCache ℤ) : Type 0 where
  pub gossipsub_beacon_block : D.Cache
  pub gossipsub_aggregate_and_proof : D.Cache
  pub gossipsub_attestation : D.Cache
  pub gossipsub_blob_sidecar : D.Cache
  pub gossipsub_data_column_sidecar : D.Cache
  pub gossipsub_execution_payload_envelope : D.Cache
  pub gossipsub_execution_payload_bid : D.Cache
  pub gossipsub_payload_attestation_message : D.Cache
  pub gossipsub_proposer_preferences : D.Cache
  pub gossipsub_partial_data_column : D.Cache
  pub gossipsub_partial_data_column_outcome : D.Cache
  pub data_column_completed : D.Cache

unfoldable pub new_duplicate_cache : (D : TtlCache ℤ) → DuplicateCache D
new_duplicate_cache D = record {
  gossipsub_beacon_block = D.new consensus_ttl true;
  gossipsub_aggregate_and_proof = D.new consensus_ttl true;
  gossipsub_attestation = D.new consensus_ttl true;
  gossipsub_blob_sidecar = D.new consensus_ttl true;
  gossipsub_data_column_sidecar = D.new consensus_ttl true;
  gossipsub_execution_payload_envelope = D.new consensus_ttl true;
  gossipsub_execution_payload_bid = D.new consensus_ttl true;
  gossipsub_payload_attestation_message = D.new consensus_ttl true;
  gossipsub_proposer_preferences = D.new consensus_ttl true;
  gossipsub_partial_data_column = D.new partial_ttl true;
  gossipsub_partial_data_column_outcome = D.new partial_ttl true;
  data_column_completed = D.new consensus_ttl true;
}

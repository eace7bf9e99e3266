-- ===== src/Cache/Field.antt =====
-- The fields of the duplicate cache of pkg/cache/duplicate.go, as the references to one of them that
-- an event holds.
use xatu_sidecar.Prelude.Int.{ℤ}
use xatu_sidecar.Ttl.{TtlCache}
use xatu_sidecar.Cache.Duplicate.{DuplicateCache}

pub record CacheField (D : TtlCache ℤ) : Type 0 where
  pub get : DuplicateCache D → D.Cache
  pub put : D.Cache → DuplicateCache D → DuplicateCache D

module _ (D : TtlCache ℤ) where
  abbrev pub gossipsub_beacon_block : CacheField D
  gossipsub_beacon_block = record {
    get = λ d. d.gossipsub_beacon_block;
    put = λ c d. record d { gossipsub_beacon_block = c };
  }

  abbrev pub gossipsub_aggregate_and_proof : CacheField D
  gossipsub_aggregate_and_proof = record {
    get = λ d. d.gossipsub_aggregate_and_proof;
    put = λ c d. record d { gossipsub_aggregate_and_proof = c };
  }

  abbrev pub gossipsub_attestation : CacheField D
  gossipsub_attestation = record {
    get = λ d. d.gossipsub_attestation;
    put = λ c d. record d { gossipsub_attestation = c };
  }

  abbrev pub gossipsub_blob_sidecar : CacheField D
  gossipsub_blob_sidecar = record {
    get = λ d. d.gossipsub_blob_sidecar;
    put = λ c d. record d { gossipsub_blob_sidecar = c };
  }

  abbrev pub gossipsub_data_column_sidecar : CacheField D
  gossipsub_data_column_sidecar = record {
    get = λ d. d.gossipsub_data_column_sidecar;
    put = λ c d. record d { gossipsub_data_column_sidecar = c };
  }

  abbrev pub gossipsub_execution_payload_envelope : CacheField D
  gossipsub_execution_payload_envelope = record {
    get = λ d. d.gossipsub_execution_payload_envelope;
    put = λ c d. record d { gossipsub_execution_payload_envelope = c };
  }

  abbrev pub gossipsub_execution_payload_bid : CacheField D
  gossipsub_execution_payload_bid = record {
    get = λ d. d.gossipsub_execution_payload_bid;
    put = λ c d. record d { gossipsub_execution_payload_bid = c };
  }

  abbrev pub gossipsub_payload_attestation_message : CacheField D
  gossipsub_payload_attestation_message = record {
    get = λ d. d.gossipsub_payload_attestation_message;
    put = λ c d. record d { gossipsub_payload_attestation_message = c };
  }

  abbrev pub gossipsub_proposer_preferences : CacheField D
  gossipsub_proposer_preferences = record {
    get = λ d. d.gossipsub_proposer_preferences;
    put = λ c d. record d { gossipsub_proposer_preferences = c };
  }

  abbrev pub gossipsub_partial_data_column : CacheField D
  gossipsub_partial_data_column = record {
    get = λ d. d.gossipsub_partial_data_column;
    put = λ c d. record d { gossipsub_partial_data_column = c };
  }

  abbrev pub gossipsub_partial_data_column_outcome : CacheField D
  gossipsub_partial_data_column_outcome = record {
    get = λ d. d.gossipsub_partial_data_column_outcome;
    put = λ c d. record d { gossipsub_partial_data_column_outcome = c };
  }

  abbrev pub data_column_completed : CacheField D
  data_column_completed = record {
    get = λ d. d.data_column_completed;
    put = λ c d. record d { data_column_completed = c };
  }

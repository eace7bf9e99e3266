-- ===== src/Processor/Dispatch/Twice/Consensus.antt =====
-- A message handled twice by pkg/processor/handler.go: the consensus gossip events.
use xatu_sidecar.Json.{Json}
use xatu_sidecar.Event.Decoding.{
  decode_aggregate_and_proof, decode_attestation, decode_beacon_block, decode_blob_sidecar,
  decode_data_column_sidecar, decode_data_column_sidecar_gloas, decode_execution_payload_bid,
  decode_execution_payload_envelope, decode_payload_attestation_message,
  decode_proposer_preferences,
}
use xatu_sidecar.Prelude.{refl}
use xatu_sidecar.Ttl.{TtlLaws}
use xatu_sidecar.Cache.Field
use xatu_sidecar.Cache.Field.{CacheField}
use xatu_sidecar.Event.Source.{Moment}
use xatu_sidecar.Event.Again
use xatu_sidecar.Processor.Externals.{Externals}
use xatu_sidecar.Processor.EventType.{EventType}
use xatu_sidecar.Processor.Handler.{Handler}
use xatu_sidecar.Processor.Dispatch.{
  handle_beacon_block, handle_attestation, handle_aggregate_and_proof, handle_blob_sidecar,
  handle_data_column_sidecar, handle_data_column_sidecar_gloas, handle_execution_payload_envelope,
  handle_execution_payload_bid, handle_payload_attestation_message, handle_proposer_preferences,
}
use xatu_sidecar.Processor.Dispatch.Twice.{Quiet, continue-Quiet, exports-Quiet, InTermFor}

module _ (X : Externals) (laws : TtlLaws X.duplicates) where
  pub handle_beacon_block-Quiet :
      (m n : Moment) (message : Json) (h : Handler X)
      → InTermFor X laws EventType.beacon_block m n h
      → Quiet X
          (handle_beacon_block X m message h).1
          (handle_beacon_block X n message (handle_beacon_block X m message h).1)
  unfolding handle_beacon_block
  handle_beacon_block-Quiet m n message h i =
      continue-Quiet X (decode_beacon_block message) _ _ h λ raw _.
        exports-Quiet X (Field.gossipsub_beacon_block X.duplicates) _ _ _ _ _ _ (λ c d. refl)
          (Again.beacon_block-Stopped X.duplicates laws m n _ X.hash.beacon_block _ _ raw refl refl
            i)

  pub handle_attestation-Quiet :
      (m n : Moment) (message : Json) (h : Handler X)
      → InTermFor X laws EventType.attestation m n h
      → Quiet X
          (handle_attestation X m message h).1
          (handle_attestation X n message (handle_attestation X m message h).1)
  unfolding handle_attestation
  handle_attestation-Quiet m n message h i =
      continue-Quiet X (decode_attestation message) _ _ h λ raw _.
        exports-Quiet X (Field.gossipsub_attestation X.duplicates) _ _ _ _ _ _ (λ c d. refl)
          (Again.attestation-Stopped X.duplicates laws m n _ X.hash.attestation _ _ raw refl refl i)

  pub handle_aggregate_and_proof-Quiet :
      (m n : Moment) (message : Json) (h : Handler X)
      → InTermFor X laws EventType.aggregate_and_proof m n h
      → Quiet X
          (handle_aggregate_and_proof X m message h).1
          (handle_aggregate_and_proof X n message (handle_aggregate_and_proof X m message h).1)
  unfolding handle_aggregate_and_proof
  handle_aggregate_and_proof-Quiet m n message h i =
      continue-Quiet X (decode_aggregate_and_proof message) _ _ h λ raw _.
        exports-Quiet X (Field.gossipsub_aggregate_and_proof X.duplicates) _ _ _ _ _ _ (λ c d. refl)
          (Again.aggregate_and_proof-Stopped X.duplicates laws m n _ X.hash.aggregate_and_proof _ _
            raw refl refl i)

  pub handle_blob_sidecar-Quiet :
      (m n : Moment) (message : Json) (h : Handler X)
      → InTermFor X laws EventType.blob_sidecar m n h
      → Quiet X
          (handle_blob_sidecar X m message h).1
          (handle_blob_sidecar X n message (handle_blob_sidecar X m message h).1)
  unfolding handle_blob_sidecar
  handle_blob_sidecar-Quiet m n message h i =
      continue-Quiet X (decode_blob_sidecar message) _ _ h λ raw _.
        exports-Quiet X (Field.gossipsub_blob_sidecar X.duplicates) _ _ _ _ _ _ (λ c d. refl)
          (Again.blob_sidecar-Stopped X.duplicates laws m n _ X.hash.blob_sidecar _ _ raw refl refl
            i)

  pub handle_data_column_sidecar-Quiet :
      (m n : Moment) (message : Json) (h : Handler X)
      → InTermFor X laws EventType.data_column_sidecar m n h
      → Quiet X
          (handle_data_column_sidecar X m message h).1
          (handle_data_column_sidecar X n message (handle_data_column_sidecar X m message h).1)
  unfolding handle_data_column_sidecar
  handle_data_column_sidecar-Quiet m n message h i =
      continue-Quiet X (decode_data_column_sidecar message) _ _ h λ raw _.
        exports-Quiet X (Field.gossipsub_data_column_sidecar X.duplicates) _ _ _ _ _ _ (λ c d. refl)
          (Again.data_column_sidecar-Stopped X.duplicates laws m n _ X.hash.data_column_sidecar _ _
            raw refl refl i)

  pub handle_data_column_sidecar_gloas-Quiet :
      (m n : Moment) (message : Json) (h : Handler X)
      → InTermFor X laws EventType.data_column_sidecar_gloas m n h
      → Quiet X (handle_data_column_sidecar_gloas X m message h).1 (
          handle_data_column_sidecar_gloas X n message
            (handle_data_column_sidecar_gloas X m message h).1)
  unfolding handle_data_column_sidecar_gloas
  handle_data_column_sidecar_gloas-Quiet m n message h i =
      continue-Quiet X (decode_data_column_sidecar_gloas message) _ _ h λ raw _.
        exports-Quiet X (Field.gossipsub_data_column_sidecar X.duplicates) _ _ _ _ _ _ (λ c d. refl)
          (Again.data_column_sidecar_gloas-Stopped X.duplicates laws m n _
            X.hash.data_column_sidecar_gloas _ _ raw refl refl i)

  pub handle_execution_payload_envelope-Quiet :
      (m n : Moment) (message : Json) (h : Handler X)
      → InTermFor X laws EventType.execution_payload_envelope m n h
      → Quiet X (handle_execution_payload_envelope X m message h).1 (
          handle_execution_payload_envelope X n message
            (handle_execution_payload_envelope X m message h).1)
  unfolding handle_execution_payload_envelope
  handle_execution_payload_envelope-Quiet m n message h i =
      continue-Quiet X (decode_execution_payload_envelope message) _ _ h λ raw _.
        exports-Quiet X (Field.gossipsub_execution_payload_envelope X.duplicates) _ _ _ _ _ _
          (λ c d. refl)
          (Again.execution_payload_envelope-Stopped X.duplicates laws m n _
            X.hash.execution_payload_envelope _ _ raw refl refl i)

  pub handle_execution_payload_bid-Quiet :
      (m n : Moment) (message : Json) (h : Handler X)
      → InTermFor X laws EventType.execution_payload_bid m n h
      → Quiet X
          (handle_execution_payload_bid X m message h).1
          (handle_execution_payload_bid X n message (handle_execution_payload_bid X m message h).1)
  unfolding handle_execution_payload_bid
  handle_execution_payload_bid-Quiet m n message h i =
      continue-Quiet X (decode_execution_payload_bid message) _ _ h λ raw _.
        exports-Quiet X (Field.gossipsub_execution_payload_bid X.duplicates) _ _ _ _ _ _
          (λ c d. refl)
          (Again.execution_payload_bid-Stopped X.duplicates laws m n _ X.hash.execution_payload_bid
            _ _ raw refl refl i)

  pub handle_payload_attestation_message-Quiet :
      (m n : Moment) (message : Json) (h : Handler X)
      → InTermFor X laws EventType.payload_attestation_message m n h
      → Quiet X (handle_payload_attestation_message X m message h).1 (
          handle_payload_attestation_message X n message
            (handle_payload_attestation_message X m message h).1)
  unfolding handle_payload_attestation_message
  handle_payload_attestation_message-Quiet m n message h i =
      continue-Quiet X (decode_payload_attestation_message message) _ _ h λ raw _.
        exports-Quiet X (Field.gossipsub_payload_attestation_message X.duplicates) _ _ _ _ _ _
          (λ c d. refl)
          (Again.payload_attestation_message-Stopped X.duplicates laws m n _
            X.hash.payload_attestation_message _ _ raw refl refl i)

  pub handle_proposer_preferences-Quiet :
      (m n : Moment) (message : Json) (h : Handler X)
      → InTermFor X laws EventType.proposer_preferences m n h
      → Quiet X
          (handle_proposer_preferences X m message h).1
          (handle_proposer_preferences X n message (handle_proposer_preferences X m message h).1)
  unfolding handle_proposer_preferences
  handle_proposer_preferences-Quiet m n message h i =
      continue-Quiet X (decode_proposer_preferences message) _ _ h λ raw _.
        exports-Quiet X (Field.gossipsub_proposer_preferences X.duplicates) _ _ _ _ _ _
          (λ c d. refl)
          (Again.proposer_preferences-Stopped X.duplicates laws m n _ X.hash.proposer_preferences _
            _ raw refl refl i)

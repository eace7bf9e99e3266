-- ===== src/Processor/Dispatch/Panics/Consensus.antt =====
-- The cases of the consensus gossip events in `HandleRawEvent` of pkg/processor/handler.go.
use xatu_sidecar.Event.Decoding.Returning.{
  decode_aggregate_and_proof-Returns, decode_attestation-Returns, decode_beacon_block-Returns,
  decode_blob_sidecar-Returns, decode_data_column_sidecar-Returns,
  decode_data_column_sidecar_gloas-Returns, decode_execution_payload_bid-Returns,
  decode_execution_payload_envelope-Returns, decode_payload_attestation_message-Returns,
  decode_proposer_preferences-Returns,
}
use xatu_sidecar.Json.{Json}
use xatu_sidecar.Event.Decoding.{
  decode_aggregate_and_proof, decode_attestation, decode_beacon_block, decode_blob_sidecar,
  decode_data_column_sidecar, decode_data_column_sidecar_gloas, decode_execution_payload_bid,
  decode_execution_payload_envelope, decode_payload_attestation_message,
  decode_proposer_preferences,
}
use xatu_sidecar.Prelude.{refl}
use xatu_sidecar.Cache.Field
use xatu_sidecar.Cache.Field.{CacheField}
use xatu_sidecar.Event.Source.{Moment}
use xatu_sidecar.Event.Returning.{Returns, Answers}
use xatu_sidecar.Event.Returning.Blocks
use xatu_sidecar.Event.Returning.Payloads
use xatu_sidecar.Event.BeaconBlock
use xatu_sidecar.Event.Attestation
use xatu_sidecar.Event.AggregateAndProof
use xatu_sidecar.Event.BlobSidecar
use xatu_sidecar.Event.DataColumnSidecar
use xatu_sidecar.Event.DataColumnSidecarGloas
use xatu_sidecar.Event.ExecutionPayloadEnvelope
use xatu_sidecar.Event.ExecutionPayloadBid
use xatu_sidecar.Event.PayloadAttestationMessage
use xatu_sidecar.Event.ProposerPreferences
use xatu_sidecar.Processor.Externals.{Externals}
use xatu_sidecar.Processor.Handler.{Handler, create_new_client_meta}
use xatu_sidecar.Processor.Dispatch.{
  handle_beacon_block, handle_attestation, handle_aggregate_and_proof, handle_blob_sidecar,
  handle_data_column_sidecar, handle_data_column_sidecar_gloas, handle_execution_payload_envelope,
  handle_execution_payload_bid, handle_payload_attestation_message, handle_proposer_preferences,
}
use xatu_sidecar.Processor.Dispatch.Panics.{Answering, continue-Returns, export_event-Returns}

module _ (X : Externals) (quiet : Answering X) where
  pub handle_beacon_block-Returns :
      (m : Moment) (message : Json) (h : Handler X)
      → Answers h.wallclock
      → Returns (handle_beacon_block X m message h).0
  unfolding handle_beacon_block
  handle_beacon_block-Returns m message h a =
      continue-Returns (decode_beacon_block message) h _ (decode_beacon_block-Returns message)
        λ raw.
          let event =
            BeaconBlock.new_beacon_block raw h.clock_drift h.wallclock
              (create_new_client_meta X h h.clock_drift) m.uuid in
          export_event-Returns X quiet (Field.gossipsub_beacon_block X.duplicates)
            (BeaconBlock.should_ignore X.duplicates X.hash.beacon_block m event)
            (BeaconBlock.decorate event) _
            (Blocks.beacon_block-should_ignore-Returns X.duplicates X.hash.beacon_block m event raw
              _ refl a (quiet.hash_beacon_block raw))
            (Blocks.beacon_block-decorate-Returns event raw refl a)

  pub handle_attestation-Returns :
      (m : Moment) (message : Json) (h : Handler X)
      → Answers h.wallclock
      → Returns (handle_attestation X m message h).0
  unfolding handle_attestation
  handle_attestation-Returns m message h a =
      continue-Returns (decode_attestation message) h _ (decode_attestation-Returns message) λ raw.
        let event =
          Attestation.new_attestation raw h.clock_drift h.wallclock
            (create_new_client_meta X h h.clock_drift) m.uuid in
        export_event-Returns X quiet (Field.gossipsub_attestation X.duplicates)
          (Attestation.should_ignore X.duplicates X.hash.attestation m event)
          (Attestation.decorate event) _
          (Blocks.attestation-should_ignore-Returns X.duplicates X.hash.attestation m event raw _
            refl a (quiet.hash_attestation raw))
          (Blocks.attestation-decorate-Returns event raw refl a)

  pub handle_aggregate_and_proof-Returns :
      (m : Moment) (message : Json) (h : Handler X)
      → Answers h.wallclock
      → Returns (handle_aggregate_and_proof X m message h).0
  unfolding handle_aggregate_and_proof
  handle_aggregate_and_proof-Returns m message h a =
      continue-Returns (decode_aggregate_and_proof message) h _
        (decode_aggregate_and_proof-Returns message)
        λ raw.
          let event =
            AggregateAndProof.new_aggregate_and_proof raw h.clock_drift h.wallclock
              (create_new_client_meta X h h.clock_drift) m.uuid in
          export_event-Returns X quiet (Field.gossipsub_aggregate_and_proof X.duplicates)
            (AggregateAndProof.should_ignore X.duplicates X.hash.aggregate_and_proof m event)
            (AggregateAndProof.decorate event) _
            (Blocks.aggregate_and_proof-should_ignore-Returns X.duplicates
              X.hash.aggregate_and_proof m event raw _ refl a (quiet.hash_aggregate_and_proof raw))
            (Blocks.aggregate_and_proof-decorate-Returns event raw refl a)

  pub handle_blob_sidecar-Returns :
      (m : Moment) (message : Json) (h : Handler X)
      → Answers h.wallclock
      → Returns (handle_blob_sidecar X m message h).0
  unfolding handle_blob_sidecar
  handle_blob_sidecar-Returns m message h a =
      continue-Returns (decode_blob_sidecar message) h _ (decode_blob_sidecar-Returns message)
        λ raw.
          let event =
            BlobSidecar.new_blob_sidecar raw h.clock_drift h.wallclock
              (create_new_client_meta X h h.clock_drift) m.uuid in
          export_event-Returns X quiet (Field.gossipsub_blob_sidecar X.duplicates)
            (BlobSidecar.should_ignore X.duplicates X.hash.blob_sidecar m event)
            (BlobSidecar.decorate event) _
            (Blocks.blob_sidecar-should_ignore-Returns X.duplicates X.hash.blob_sidecar m event raw
              _ refl a (quiet.hash_blob_sidecar raw))
            (Blocks.blob_sidecar-decorate-Returns event raw refl a)

  pub handle_data_column_sidecar-Returns :
      (m : Moment) (message : Json) (h : Handler X)
      → Answers h.wallclock
      → Returns (handle_data_column_sidecar X m message h).0
  unfolding handle_data_column_sidecar
  handle_data_column_sidecar-Returns m message h a =
      continue-Returns (decode_data_column_sidecar message) h _
        (decode_data_column_sidecar-Returns message)
        λ raw.
          let event =
            DataColumnSidecar.new_data_column_sidecar raw h.clock_drift h.wallclock
              (create_new_client_meta X h h.clock_drift) m.uuid in
          export_event-Returns X quiet (Field.gossipsub_data_column_sidecar X.duplicates)
            (DataColumnSidecar.should_ignore X.duplicates X.hash.data_column_sidecar m event)
            (DataColumnSidecar.decorate event) _
            (Blocks.data_column_sidecar-should_ignore-Returns X.duplicates
              X.hash.data_column_sidecar m event raw _ refl a (quiet.hash_data_column_sidecar raw))
            (Blocks.data_column_sidecar-decorate-Returns event raw refl a)

  pub handle_data_column_sidecar_gloas-Returns :
      (m : Moment) (message : Json) (h : Handler X)
      → Answers h.wallclock
      → Returns (handle_data_column_sidecar_gloas X m message h).0
  unfolding handle_data_column_sidecar_gloas
  handle_data_column_sidecar_gloas-Returns m message h a =
      continue-Returns (decode_data_column_sidecar_gloas message) h _
        (decode_data_column_sidecar_gloas-Returns message)
        λ raw.
          let event =
            DataColumnSidecarGloas.new_data_column_sidecar_gloas raw h.clock_drift h.wallclock
              (create_new_client_meta X h h.clock_drift) m.uuid in
          export_event-Returns X quiet (Field.gossipsub_data_column_sidecar X.duplicates)
            (DataColumnSidecarGloas.should_ignore X.duplicates X.hash.data_column_sidecar_gloas m
              event)
            (DataColumnSidecarGloas.decorate event) _
            (Payloads.data_column_sidecar_gloas-should_ignore-Returns X.duplicates
              X.hash.data_column_sidecar_gloas m event raw _ refl a
              (quiet.hash_data_column_sidecar_gloas raw))
            (Payloads.data_column_sidecar_gloas-decorate-Returns event raw refl a)

  pub handle_execution_payload_envelope-Returns :
      (m : Moment) (message : Json) (h : Handler X)
      → Answers h.wallclock
      → Returns (handle_execution_payload_envelope X m message h).0
  unfolding handle_execution_payload_envelope
  handle_execution_payload_envelope-Returns m message h a =
      continue-Returns (decode_execution_payload_envelope message) h _
        (decode_execution_payload_envelope-Returns message)
        λ raw.
          let event =
            ExecutionPayloadEnvelope.new_execution_payload_envelope raw h.clock_drift h.wallclock
              (create_new_client_meta X h h.clock_drift) m.uuid in
          export_event-Returns X quiet (Field.gossipsub_execution_payload_envelope X.duplicates)
            (ExecutionPayloadEnvelope.should_ignore X.duplicates X.hash.execution_payload_envelope m
              event)
            (ExecutionPayloadEnvelope.decorate event) _
            (Payloads.execution_payload_envelope-should_ignore-Returns X.duplicates
              X.hash.execution_payload_envelope m event raw _ refl a
              (quiet.hash_execution_payload_envelope raw))
            (Payloads.execution_payload_envelope-decorate-Returns event raw refl a)

  pub handle_execution_payload_bid-Returns :
      (m : Moment) (message : Json) (h : Handler X)
      → Answers h.wallclock
      → Returns (handle_execution_payload_bid X m message h).0
  unfolding handle_execution_payload_bid
  handle_execution_payload_bid-Returns m message h a =
      continue-Returns (decode_execution_payload_bid message) h _
        (decode_execution_payload_bid-Returns message)
        λ raw.
          let event =
            ExecutionPayloadBid.new_execution_payload_bid raw h.clock_drift h.wallclock
              (create_new_client_meta X h h.clock_drift) m.uuid in
          export_event-Returns X quiet (Field.gossipsub_execution_payload_bid X.duplicates)
            (ExecutionPayloadBid.should_ignore X.duplicates X.hash.execution_payload_bid m event)
            (ExecutionPayloadBid.decorate event) _
            (Payloads.execution_payload_bid-should_ignore-Returns X.duplicates
              X.hash.execution_payload_bid m event raw _ refl a
              (quiet.hash_execution_payload_bid raw))
            (Payloads.execution_payload_bid-decorate-Returns event raw refl a)

  pub handle_payload_attestation_message-Returns :
      (m : Moment) (message : Json) (h : Handler X)
      → Answers h.wallclock
      → Returns (handle_payload_attestation_message X m message h).0
  unfolding handle_payload_attestation_message
  handle_payload_attestation_message-Returns m message h a =
      continue-Returns (decode_payload_attestation_message message) h _
        (decode_payload_attestation_message-Returns message)
        λ raw.
          let event =
            PayloadAttestationMessage.new_payload_attestation_message raw h.clock_drift h.wallclock
              (create_new_client_meta X h h.clock_drift) m.uuid in
          export_event-Returns X quiet (Field.gossipsub_payload_attestation_message X.duplicates)
            (PayloadAttestationMessage.should_ignore X.duplicates X.hash.payload_attestation_message
              m event)
            (PayloadAttestationMessage.decorate event) _
            (Payloads.payload_attestation_message-should_ignore-Returns X.duplicates
              X.hash.payload_attestation_message m event raw _ refl a
              (quiet.hash_payload_attestation_message raw))
            (Payloads.payload_attestation_message-decorate-Returns event raw refl a)

  pub handle_proposer_preferences-Returns :
      (m : Moment) (message : Json) (h : Handler X)
      → Answers h.wallclock
      → Returns (handle_proposer_preferences X m message h).0
  unfolding handle_proposer_preferences
  handle_proposer_preferences-Returns m message h a =
      continue-Returns (decode_proposer_preferences message) h _
        (decode_proposer_preferences-Returns message)
        λ raw.
          let event =
            ProposerPreferences.new_proposer_preferences raw h.clock_drift h.wallclock
              (create_new_client_meta X h h.clock_drift) m.uuid in
          export_event-Returns X quiet (Field.gossipsub_proposer_preferences X.duplicates)
            (ProposerPreferences.should_ignore X.duplicates X.hash.proposer_preferences m event)
            (ProposerPreferences.decorate event) _
            (Payloads.proposer_preferences-should_ignore-Returns X.duplicates
              X.hash.proposer_preferences m event raw _ refl a
              (quiet.hash_proposer_preferences raw))
            (Payloads.proposer_preferences-decorate-Returns event raw refl a)

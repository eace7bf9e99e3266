-- ===== src/Processor/Dispatch/Exported/Consensus.antt =====
-- When the consensus events that are handled by pkg/processor/handler.go are exported.
use xatu_sidecar.Prelude.{ℕ, ◌≡◌, refl, ◌∙◌, Bool, false, some}
use xatu_sidecar.Json.{Json}
use xatu_sidecar.Outcome.{Outcome, ok}
use xatu_sidecar.Cache.BlockSlot.{resolve}
use xatu_sidecar.Ttl.{TtlLaws}
use xatu_sidecar.Cache.Field
use xatu_sidecar.Cache.Field.{CacheField}
use xatu_sidecar.Proto.{DecoratedEvent}
use xatu_sidecar.Event.Source.{Source, Moment}
use xatu_sidecar.Event.Freshness.{should_ignore_hashed, too_old}
use xatu_sidecar.Event.RoundTrip.Typed.{Decodes, RawEvent}
use xatu_sidecar.Event.BeaconBlock
use xatu_sidecar.Event.BeaconBlock.{new_beacon_block}
use xatu_sidecar.Event.Attestation
use xatu_sidecar.Event.Attestation.{new_attestation}
use xatu_sidecar.Event.AggregateAndProof
use xatu_sidecar.Event.AggregateAndProof.{new_aggregate_and_proof}
use xatu_sidecar.Event.BlobSidecar
use xatu_sidecar.Event.BlobSidecar.{new_blob_sidecar}
use xatu_sidecar.Event.DataColumnSidecar
use xatu_sidecar.Event.DataColumnSidecar.{new_data_column_sidecar}
use xatu_sidecar.Event.DataColumnSidecarGloas
use xatu_sidecar.Event.DataColumnSidecarGloas.{new_data_column_sidecar_gloas}
use xatu_sidecar.Event.ExecutionPayloadEnvelope
use xatu_sidecar.Event.ExecutionPayloadEnvelope.{new_execution_payload_envelope}
use xatu_sidecar.Event.ExecutionPayloadBid
use xatu_sidecar.Event.ExecutionPayloadBid.{new_execution_payload_bid}
use xatu_sidecar.Event.PayloadAttestationMessage
use xatu_sidecar.Event.PayloadAttestationMessage.{new_payload_attestation_message}
use xatu_sidecar.Event.ProposerPreferences
use xatu_sidecar.Event.ProposerPreferences.{new_proposer_preferences}
use xatu_sidecar.Event.BeaconBlock.{RawBeaconBlock}
use xatu_sidecar.Event.Attestation.{RawAttestation}
use xatu_sidecar.Event.AggregateAndProof.{RawAggregateAndProof}
use xatu_sidecar.Event.BlobSidecar.{RawBlobSidecar}
use xatu_sidecar.Event.DataColumnSidecar.{RawDataColumnSidecar}
use xatu_sidecar.Event.DataColumnSidecarGloas.{RawDataColumnSidecarGloas}
use xatu_sidecar.Event.ExecutionPayloadEnvelope.{RawExecutionPayloadEnvelope}
use xatu_sidecar.Event.ExecutionPayloadBid.{RawExecutionPayloadBid}
use xatu_sidecar.Event.PayloadAttestationMessage.{RawPayloadAttestationMessage}
use xatu_sidecar.Event.ProposerPreferences.{RawProposerPreferences}
use xatu_sidecar.Processor.Externals.{Externals}
use xatu_sidecar.Processor.Handler.{Handler, create_new_client_meta, export_event}
use xatu_sidecar.Processor.Handler.Delivery.{CalmSinks}
use xatu_sidecar.Processor.Dispatch.Fresh.{UnseenHash, Fresh, decorated}
use xatu_sidecar.Processor.Dispatch.Exported.{Sent, export_event-Sent, should_ignore_hashed-new}
use xatu_sidecar.Processor.Dispatch.{
  handle_beacon_block, handle_attestation, handle_aggregate_and_proof, handle_blob_sidecar,
  handle_data_column_sidecar, handle_data_column_sidecar_gloas, handle_execution_payload_envelope,
  handle_execution_payload_bid, handle_payload_attestation_message, handle_proposer_preferences,
}

module _ (X : Externals) (laws : TtlLaws X.duplicates) (calm : CalmSinks X) where
  -- An event that passes the test by its hash and can be decorated is sent.
  hashed-Sent :
      {Raw : Type 0} (hash : Raw → Outcome ℕ) (rest : Raw → Outcome Bool) (m : Moment)
      (field : CacheField X.duplicates) (e : Source Raw) (raw : Raw)
      (outgoing : Outcome DecoratedEvent) (event : DecoratedEvent) (h : Handler X)
      → e.raw ≡ some raw
      → UnseenHash X m (field.get h.duplicate_cache) (hash raw) (rest raw)
      → outgoing ≡ ok event
      → Sent X event h (
          export_event X field
            (should_ignore_hashed X.duplicates hash rest m.dedup_at e)
            outgoing
            h)
  hashed-Sent hash rest m field e raw outgoing event h p (k, q, (r, late)) d =
      export_event-Sent X calm field (should_ignore_hashed X.duplicates hash rest m.dedup_at e)
        outgoing event h
        (should_ignore_hashed-new X.duplicates laws hash rest m.dedup_at k e raw
            (field.get h.duplicate_cache) p q r
          ∙ late)
        d

  pub handle_beacon_block-Sent :
      (m : Moment) (message : Json) (h : Handler X) (raw : RawBeaconBlock) (event : DecoratedEvent)
      → Decodes (RawEvent.beacon_block raw) message
      → Fresh X m h (RawEvent.beacon_block raw)
      → decorated X m h (RawEvent.beacon_block raw) ≡ ok event
      → Sent X event h (handle_beacon_block X m message h)
  unfolding handle_beacon_block BeaconBlock.should_ignore
  handle_beacon_block-Sent m message h raw event p fresh d = rw p (
      hashed-Sent X.hash.beacon_block (λ (r : RawBeaconBlock). too_old h.wallclock r.slot m.slot_at)
        m (Field.gossipsub_beacon_block X.duplicates)
        (new_beacon_block raw h.clock_drift h.wallclock (create_new_client_meta X h h.clock_drift)
          m.uuid)
        raw _ event
        (record h {
          block_slots = (resolve X.slots m.resolve_at raw.block_root raw.slot h.block_slots).1;
        })
        refl fresh d)

  pub handle_attestation-Sent :
      (m : Moment) (message : Json) (h : Handler X) (raw : RawAttestation) (event : DecoratedEvent)
      → Decodes (RawEvent.attestation raw) message
      → Fresh X m h (RawEvent.attestation raw)
      → decorated X m h (RawEvent.attestation raw) ≡ ok event
      → Sent X event h (handle_attestation X m message h)
  unfolding handle_attestation Attestation.should_ignore
  handle_attestation-Sent m message h raw event p fresh d = rw p (
      hashed-Sent X.hash.attestation (λ (r : RawAttestation). too_old h.wallclock r.slot m.slot_at)
        m (Field.gossipsub_attestation X.duplicates)
        (new_attestation raw h.clock_drift h.wallclock (create_new_client_meta X h h.clock_drift)
          m.uuid)
        raw _ event h refl fresh d)

  pub handle_aggregate_and_proof-Sent :
      (m : Moment) (message : Json) (h : Handler X) (raw : RawAggregateAndProof)
      (event : DecoratedEvent)
      → Decodes (RawEvent.aggregate_and_proof raw) message
      → Fresh X m h (RawEvent.aggregate_and_proof raw)
      → decorated X m h (RawEvent.aggregate_and_proof raw) ≡ ok event
      → Sent X event h (handle_aggregate_and_proof X m message h)
  unfolding handle_aggregate_and_proof AggregateAndProof.should_ignore
  handle_aggregate_and_proof-Sent m message h raw event p fresh d = rw p (
      hashed-Sent X.hash.aggregate_and_proof
        (λ (r : RawAggregateAndProof). too_old h.wallclock r.slot m.slot_at) m
        (Field.gossipsub_aggregate_and_proof X.duplicates)
        (new_aggregate_and_proof raw h.clock_drift h.wallclock
          (create_new_client_meta X h h.clock_drift) m.uuid)
        raw _ event h refl fresh d)

  pub handle_blob_sidecar-Sent :
      (m : Moment) (message : Json) (h : Handler X) (raw : RawBlobSidecar) (event : DecoratedEvent)
      → Decodes (RawEvent.blob_sidecar raw) message
      → Fresh X m h (RawEvent.blob_sidecar raw)
      → decorated X m h (RawEvent.blob_sidecar raw) ≡ ok event
      → Sent X event h (handle_blob_sidecar X m message h)
  unfolding handle_blob_sidecar BlobSidecar.should_ignore
  handle_blob_sidecar-Sent m message h raw event p fresh d = rw p (
      hashed-Sent X.hash.blob_sidecar (λ (r : RawBlobSidecar). too_old h.wallclock r.slot m.slot_at)
        m (Field.gossipsub_blob_sidecar X.duplicates)
        (new_blob_sidecar raw h.clock_drift h.wallclock (create_new_client_meta X h h.clock_drift)
          m.uuid)
        raw _ event h refl fresh d)

  pub handle_data_column_sidecar-Sent :
      (m : Moment) (message : Json) (h : Handler X) (raw : RawDataColumnSidecar)
      (event : DecoratedEvent)
      → Decodes (RawEvent.data_column_sidecar raw) message
      → Fresh X m h (RawEvent.data_column_sidecar raw)
      → decorated X m h (RawEvent.data_column_sidecar raw) ≡ ok event
      → Sent X event h (handle_data_column_sidecar X m message h)
  unfolding handle_data_column_sidecar DataColumnSidecar.should_ignore
  handle_data_column_sidecar-Sent m message h raw event p fresh d = rw p (
      hashed-Sent X.hash.data_column_sidecar
        (λ (r : RawDataColumnSidecar). too_old h.wallclock r.slot m.slot_at) m
        (Field.gossipsub_data_column_sidecar X.duplicates)
        (new_data_column_sidecar raw h.clock_drift h.wallclock
          (create_new_client_meta X h h.clock_drift) m.uuid)
        raw _ event
        (record h {
          block_slots = (resolve X.slots m.resolve_at raw.block_root raw.slot h.block_slots).1;
        })
        refl fresh d)

  pub handle_data_column_sidecar_gloas-Sent :
      (m : Moment) (message : Json) (h : Handler X) (raw : RawDataColumnSidecarGloas)
      (event : DecoratedEvent)
      → Decodes (RawEvent.data_column_sidecar_gloas raw) message
      → Fresh X m h (RawEvent.data_column_sidecar_gloas raw)
      → decorated X m h (RawEvent.data_column_sidecar_gloas raw) ≡ ok event
      → Sent X event h (handle_data_column_sidecar_gloas X m message h)
  unfolding handle_data_column_sidecar_gloas DataColumnSidecarGloas.should_ignore
  handle_data_column_sidecar_gloas-Sent m message h raw event p fresh d = rw p (
      hashed-Sent X.hash.data_column_sidecar_gloas
        (λ (r : RawDataColumnSidecarGloas). too_old h.wallclock r.slot m.slot_at) m
        (Field.gossipsub_data_column_sidecar X.duplicates)
        (new_data_column_sidecar_gloas raw h.clock_drift h.wallclock
          (create_new_client_meta X h h.clock_drift) m.uuid)
        raw _ event
        (record h {
          block_slots = (resolve X.slots m.resolve_at raw.block_root raw.slot h.block_slots).1;
        })
        refl fresh d)

  pub handle_execution_payload_envelope-Sent :
      (m : Moment) (message : Json) (h : Handler X) (raw : RawExecutionPayloadEnvelope)
      (event : DecoratedEvent)
      → Decodes (RawEvent.execution_payload_envelope raw) message
      → Fresh X m h (RawEvent.execution_payload_envelope raw)
      → decorated X m h (RawEvent.execution_payload_envelope raw) ≡ ok event
      → Sent X event h (handle_execution_payload_envelope X m message h)
  unfolding handle_execution_payload_envelope ExecutionPayloadEnvelope.should_ignore
  handle_execution_payload_envelope-Sent m message h raw event p fresh d = rw p (
      hashed-Sent X.hash.execution_payload_envelope
        (λ (r : RawExecutionPayloadEnvelope). too_old h.wallclock r.slot m.slot_at) m
        (Field.gossipsub_execution_payload_envelope X.duplicates)
        (new_execution_payload_envelope raw h.clock_drift h.wallclock
          (create_new_client_meta X h h.clock_drift) m.uuid)
        raw _ event h refl fresh d)

  pub handle_execution_payload_bid-Sent :
      (m : Moment) (message : Json) (h : Handler X) (raw : RawExecutionPayloadBid)
      (event : DecoratedEvent)
      → Decodes (RawEvent.execution_payload_bid raw) message
      → Fresh X m h (RawEvent.execution_payload_bid raw)
      → decorated X m h (RawEvent.execution_payload_bid raw) ≡ ok event
      → Sent X event h (handle_execution_payload_bid X m message h)
  unfolding handle_execution_payload_bid ExecutionPayloadBid.should_ignore
  handle_execution_payload_bid-Sent m message h raw event p fresh d = rw p (
      hashed-Sent X.hash.execution_payload_bid
        (λ (r : RawExecutionPayloadBid). too_old h.wallclock r.slot m.slot_at) m
        (Field.gossipsub_execution_payload_bid X.duplicates)
        (new_execution_payload_bid raw h.clock_drift h.wallclock
          (create_new_client_meta X h h.clock_drift) m.uuid)
        raw _ event h refl fresh d)

  pub handle_payload_attestation_message-Sent :
      (m : Moment) (message : Json) (h : Handler X) (raw : RawPayloadAttestationMessage)
      (event : DecoratedEvent)
      → Decodes (RawEvent.payload_attestation_message raw) message
      → Fresh X m h (RawEvent.payload_attestation_message raw)
      → decorated X m h (RawEvent.payload_attestation_message raw) ≡ ok event
      → Sent X event h (handle_payload_attestation_message X m message h)
  unfolding handle_payload_attestation_message PayloadAttestationMessage.should_ignore
  handle_payload_attestation_message-Sent m message h raw event p fresh d = rw p (
      hashed-Sent X.hash.payload_attestation_message
        (λ (r : RawPayloadAttestationMessage). too_old h.wallclock r.slot m.slot_at) m
        (Field.gossipsub_payload_attestation_message X.duplicates)
        (new_payload_attestation_message raw h.clock_drift h.wallclock
          (create_new_client_meta X h h.clock_drift) m.uuid)
        raw _ event h refl fresh d)

  pub handle_proposer_preferences-Sent :
      (m : Moment) (message : Json) (h : Handler X) (raw : RawProposerPreferences)
      (event : DecoratedEvent)
      → Decodes (RawEvent.proposer_preferences raw) message
      → Fresh X m h (RawEvent.proposer_preferences raw)
      → decorated X m h (RawEvent.proposer_preferences raw) ≡ ok event
      → Sent X event h (handle_proposer_preferences X m message h)
  unfolding handle_proposer_preferences ProposerPreferences.should_ignore
  handle_proposer_preferences-Sent m message h raw event p fresh d = rw p (
      hashed-Sent X.hash.proposer_preferences (λ (r : RawProposerPreferences). ok false) m
        (Field.gossipsub_proposer_preferences X.duplicates)
        (new_proposer_preferences raw h.clock_drift h.wallclock
          (create_new_client_meta X h h.clock_drift) m.uuid)
        raw _ event h refl fresh d)

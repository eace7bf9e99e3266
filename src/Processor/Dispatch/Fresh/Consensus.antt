-- ===== src/Processor/Dispatch/Fresh/Consensus.antt =====
-- Which consensus events pkg/processor/handler.go exports.
use xatu_sidecar.Prelude.{ℕ, ◌≡◌, refl, Bool, false, some}
use xatu_sidecar.Json.{Json}
use xatu_sidecar.Outcome.{Outcome, ok}
use xatu_sidecar.Ttl.{TtlLaws}
use xatu_sidecar.Cache.Field
use xatu_sidecar.Cache.Field.{CacheField}
use xatu_sidecar.Proto.{DecoratedEvent}
use xatu_sidecar.Event.Source.{Source, Moment}
use xatu_sidecar.Event.Freshness.{should_ignore_hashed, too_old}
use xatu_sidecar.Event.RoundTrip.Typed.{RawEvent}
use xatu_sidecar.Event.Decoding.{
  decode_beacon_block, decode_attestation, decode_aggregate_and_proof, decode_blob_sidecar,
  decode_data_column_sidecar, decode_data_column_sidecar_gloas, decode_execution_payload_envelope,
  decode_execution_payload_bid, decode_payload_attestation_message, decode_proposer_preferences,
}
use xatu_sidecar.Event.BeaconBlock
use xatu_sidecar.Event.BeaconBlock.{RawBeaconBlock, new_beacon_block}
use xatu_sidecar.Event.Attestation
use xatu_sidecar.Event.Attestation.{RawAttestation, new_attestation}
use xatu_sidecar.Event.AggregateAndProof
use xatu_sidecar.Event.AggregateAndProof.{RawAggregateAndProof, new_aggregate_and_proof}
use xatu_sidecar.Event.BlobSidecar
use xatu_sidecar.Event.BlobSidecar.{RawBlobSidecar, new_blob_sidecar}
use xatu_sidecar.Event.DataColumnSidecar
use xatu_sidecar.Event.DataColumnSidecar.{RawDataColumnSidecar, new_data_column_sidecar}
use xatu_sidecar.Event.DataColumnSidecarGloas
use xatu_sidecar.Event.DataColumnSidecarGloas.{
  RawDataColumnSidecarGloas, new_data_column_sidecar_gloas,
}
use xatu_sidecar.Event.ExecutionPayloadEnvelope
use xatu_sidecar.Event.ExecutionPayloadEnvelope.{
  RawExecutionPayloadEnvelope, new_execution_payload_envelope,
}
use xatu_sidecar.Event.ExecutionPayloadBid
use xatu_sidecar.Event.ExecutionPayloadBid.{RawExecutionPayloadBid, new_execution_payload_bid}
use xatu_sidecar.Event.PayloadAttestationMessage
use xatu_sidecar.Event.PayloadAttestationMessage.{
  RawPayloadAttestationMessage, new_payload_attestation_message,
}
use xatu_sidecar.Event.ProposerPreferences
use xatu_sidecar.Event.ProposerPreferences.{RawProposerPreferences, new_proposer_preferences}
use xatu_sidecar.Processor.Externals.{Externals}
use xatu_sidecar.Processor.EventType.{EventType}
use xatu_sidecar.Processor.Handler.{Handler, create_new_client_meta, export_event}
use xatu_sidecar.Processor.Handler.Delivery.{CalmSinks}
use xatu_sidecar.Processor.Dispatch.Effect.{Effect, continue-Effect, export_event-Passed}
use xatu_sidecar.Processor.Dispatch.Fresh.{UnseenHash, FreshEvent}
use xatu_sidecar.Processor.Dispatch.Fresh.Passing.{should_ignore_hashed-Unseen}
use xatu_sidecar.Processor.Dispatch.{
  handle_beacon_block, handle_attestation, handle_aggregate_and_proof, handle_blob_sidecar,
  handle_data_column_sidecar, handle_data_column_sidecar_gloas, handle_execution_payload_envelope,
  handle_execution_payload_bid, handle_payload_attestation_message, handle_proposer_preferences,
}

module _ (X : Externals) (laws : TtlLaws X.duplicates) (calm : CalmSinks X) where
  -- An event that goes out after the test by its hash.
  hashed-Effect :
      {Raw : Type 0} (hash : Raw → Outcome ℕ) (rest : Raw → Outcome Bool) (m : Moment)
      (field : CacheField X.duplicates) (e : Source Raw) (raw : Raw)
      (outgoing : Outcome DecoratedEvent) (h : Handler X) (P : DecoratedEvent → Type 0)
      → e.raw ≡ some raw
      → (UnseenHash X m (field.get h.duplicate_cache) (hash raw) (rest raw)
          → (event : DecoratedEvent) → outgoing ≡ ok event
          → P event)
      → Effect X P h (
          export_event X field
            (should_ignore_hashed X.duplicates hash rest m.dedup_at e)
            outgoing
            h)
  hashed-Effect hash rest m field e raw outgoing h P q p =
      export_event-Passed X calm P field (should_ignore_hashed X.duplicates hash rest m.dedup_at e)
        outgoing h
        λ passed. p (
          should_ignore_hashed-Unseen X laws m hash rest e raw (field.get h.duplicate_cache) q
            passed)

  pub handle_beacon_block-Fresh :
      (m : Moment) (message : Json) (h : Handler X)
      → Effect X
          (FreshEvent X m message EventType.beacon_block h)
          h
          (handle_beacon_block X m message h)
  unfolding handle_beacon_block BeaconBlock.should_ignore
  handle_beacon_block-Fresh m message h =
      continue-Effect X _ h (decode_beacon_block message) _ λ raw decoded.
        hashed-Effect X.hash.beacon_block
          (λ (r : RawBeaconBlock). too_old h.wallclock r.slot m.slot_at) m
          (Field.gossipsub_beacon_block X.duplicates)
          (new_beacon_block raw h.clock_drift h.wallclock (create_new_client_meta X h h.clock_drift)
            m.uuid)
          raw _ _ _ refl λ fresh event d. (RawEvent.beacon_block raw, refl, decoded, fresh, d)

  pub handle_attestation-Fresh :
      (m : Moment) (message : Json) (h : Handler X)
      → Effect X
          (FreshEvent X m message EventType.attestation h)
          h
          (handle_attestation X m message h)
  unfolding handle_attestation Attestation.should_ignore
  handle_attestation-Fresh m message h =
      continue-Effect X _ h (decode_attestation message) _ λ raw decoded.
        hashed-Effect X.hash.attestation
          (λ (r : RawAttestation). too_old h.wallclock r.slot m.slot_at) m
          (Field.gossipsub_attestation X.duplicates)
          (new_attestation raw h.clock_drift h.wallclock (create_new_client_meta X h h.clock_drift)
            m.uuid)
          raw _ _ _ refl λ fresh event d. (RawEvent.attestation raw, refl, decoded, fresh, d)

  pub handle_aggregate_and_proof-Fresh :
      (m : Moment) (message : Json) (h : Handler X)
      → Effect X
          (FreshEvent X m message EventType.aggregate_and_proof h)
          h
          (handle_aggregate_and_proof X m message h)
  unfolding handle_aggregate_and_proof AggregateAndProof.should_ignore
  handle_aggregate_and_proof-Fresh m message h =
      continue-Effect X _ h (decode_aggregate_and_proof message) _ λ raw decoded.
        hashed-Effect X.hash.aggregate_and_proof
          (λ (r : RawAggregateAndProof). too_old h.wallclock r.slot m.slot_at) m
          (Field.gossipsub_aggregate_and_proof X.duplicates)
          (new_aggregate_and_proof raw h.clock_drift h.wallclock
            (create_new_client_meta X h h.clock_drift) m.uuid)
          raw _ _ _ refl
          λ fresh event d. (RawEvent.aggregate_and_proof raw, refl, decoded, fresh, d)

  pub handle_blob_sidecar-Fresh :
      (m : Moment) (message : Json) (h : Handler X)
      → Effect X
          (FreshEvent X m message EventType.blob_sidecar h)
          h
          (handle_blob_sidecar X m message h)
  unfolding handle_blob_sidecar BlobSidecar.should_ignore
  handle_blob_sidecar-Fresh m message h =
      continue-Effect X _ h (decode_blob_sidecar message) _ λ raw decoded.
        hashed-Effect X.hash.blob_sidecar
          (λ (r : RawBlobSidecar). too_old h.wallclock r.slot m.slot_at) m
          (Field.gossipsub_blob_sidecar X.duplicates)
          (new_blob_sidecar raw h.clock_drift h.wallclock (create_new_client_meta X h h.clock_drift)
            m.uuid)
          raw _ _ _ refl λ fresh event d. (RawEvent.blob_sidecar raw, refl, decoded, fresh, d)

  pub handle_data_column_sidecar-Fresh :
      (m : Moment) (message : Json) (h : Handler X)
      → Effect X
          (FreshEvent X m message EventType.data_column_sidecar h)
          h
          (handle_data_column_sidecar X m message h)
  unfolding handle_data_column_sidecar DataColumnSidecar.should_ignore
  handle_data_column_sidecar-Fresh m message h =
      continue-Effect X _ h (decode_data_column_sidecar message) _ λ raw decoded.
        hashed-Effect X.hash.data_column_sidecar
          (λ (r : RawDataColumnSidecar). too_old h.wallclock r.slot m.slot_at) m
          (Field.gossipsub_data_column_sidecar X.duplicates)
          (new_data_column_sidecar raw h.clock_drift h.wallclock
            (create_new_client_meta X h h.clock_drift) m.uuid)
          raw _ _ _ refl
          λ fresh event d. (RawEvent.data_column_sidecar raw, refl, decoded, fresh, d)

  pub handle_data_column_sidecar_gloas-Fresh :
      (m : Moment) (message : Json) (h : Handler X)
      → Effect X
          (FreshEvent X m message EventType.data_column_sidecar_gloas h)
          h
          (handle_data_column_sidecar_gloas X m message h)
  unfolding handle_data_column_sidecar_gloas DataColumnSidecarGloas.should_ignore
  handle_data_column_sidecar_gloas-Fresh m message h =
      continue-Effect X _ h (decode_data_column_sidecar_gloas message) _ λ raw decoded.
        hashed-Effect X.hash.data_column_sidecar_gloas
          (λ (r : RawDataColumnSidecarGloas). too_old h.wallclock r.slot m.slot_at) m
          (Field.gossipsub_data_column_sidecar X.duplicates)
          (new_data_column_sidecar_gloas raw h.clock_drift h.wallclock
            (create_new_client_meta X h h.clock_drift) m.uuid)
          raw _ _ _ refl
          λ fresh event d. (RawEvent.data_column_sidecar_gloas raw, refl, decoded, fresh, d)

  pub handle_execution_payload_envelope-Fresh :
      (m : Moment) (message : Json) (h : Handler X)
      → Effect X
          (FreshEvent X m message EventType.execution_payload_envelope h)
          h
          (handle_execution_payload_envelope X m message h)
  unfolding handle_execution_payload_envelope ExecutionPayloadEnvelope.should_ignore
  handle_execution_payload_envelope-Fresh m message h =
      continue-Effect X _ h (decode_execution_payload_envelope message) _ λ raw decoded.
        hashed-Effect X.hash.execution_payload_envelope
          (λ (r : RawExecutionPayloadEnvelope). too_old h.wallclock r.slot m.slot_at) m
          (Field.gossipsub_execution_payload_envelope X.duplicates)
          (new_execution_payload_envelope raw h.clock_drift h.wallclock
            (create_new_client_meta X h h.clock_drift) m.uuid)
          raw _ _ _ refl
          λ fresh event d. (RawEvent.execution_payload_envelope raw, refl, decoded, fresh, d)

  pub handle_execution_payload_bid-Fresh :
      (m : Moment) (message : Json) (h : Handler X)
      → Effect X
          (FreshEvent X m message EventType.execution_payload_bid h)
          h
          (handle_execution_payload_bid X m message h)
  unfolding handle_execution_payload_bid ExecutionPayloadBid.should_ignore
  handle_execution_payload_bid-Fresh m message h =
      continue-Effect X _ h (decode_execution_payload_bid message) _ λ raw decoded.
        hashed-Effect X.hash.execution_payload_bid
          (λ (r : RawExecutionPayloadBid). too_old h.wallclock r.slot m.slot_at) m
          (Field.gossipsub_execution_payload_bid X.duplicates)
          (new_execution_payload_bid raw h.clock_drift h.wallclock
            (create_new_client_meta X h h.clock_drift) m.uuid)
          raw _ _ _ refl
          λ fresh event d. (RawEvent.execution_payload_bid raw, refl, decoded, fresh, d)

  pub handle_payload_attestation_message-Fresh :
      (m : Moment) (message : Json) (h : Handler X)
      → Effect X
          (FreshEvent X m message EventType.payload_attestation_message h)
          h
          (handle_payload_attestation_message X m message h)
  unfolding handle_payload_attestation_message PayloadAttestationMessage.should_ignore
  handle_payload_attestation_message-Fresh m message h =
      continue-Effect X _ h (decode_payload_attestation_message message) _ λ raw decoded.
        hashed-Effect X.hash.payload_attestation_message
          (λ (r : RawPayloadAttestationMessage). too_old h.wallclock r.slot m.slot_at) m
          (Field.gossipsub_payload_attestation_message X.duplicates)
          (new_payload_attestation_message raw h.clock_drift h.wallclock
            (create_new_client_meta X h h.clock_drift) m.uuid)
          raw _ _ _ refl
          λ fresh event d. (RawEvent.payload_attestation_message raw, refl, decoded, fresh, d)

  pub handle_proposer_preferences-Fresh :
      (m : Moment) (message : Json) (h : Handler X)
      → Effect X
          (FreshEvent X m message EventType.proposer_preferences h)
          h
          (handle_proposer_preferences X m message h)
  unfolding handle_proposer_preferences ProposerPreferences.should_ignore
  handle_proposer_preferences-Fresh m message h =
      continue-Effect X _ h (decode_proposer_preferences message) _ λ raw decoded.
        hashed-Effect X.hash.proposer_preferences (λ (r : RawProposerPreferences). ok false) m
          (Field.gossipsub_proposer_preferences X.duplicates)
          (new_proposer_preferences raw h.clock_drift h.wallclock
            (create_new_client_meta X h h.clock_drift) m.uuid)
          raw _ _ _ refl
          λ fresh event d. (RawEvent.proposer_preferences raw, refl, decoded, fresh, d)

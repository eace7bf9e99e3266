-- ===== src/Processor/Dispatch/Cases/Consensus.antt =====
-- The cases of pkg/processor/handler.go: the consensus gossip events.
use xatu_sidecar.Json.{Json}
use xatu_sidecar.Event.Decoding.{
  decode_aggregate_and_proof, decode_attestation, decode_beacon_block, decode_blob_sidecar,
  decode_data_column_sidecar, decode_data_column_sidecar_gloas, decode_execution_payload_bid,
  decode_execution_payload_envelope, decode_payload_attestation_message,
  decode_proposer_preferences,
}
use xatu_sidecar.Prelude.{ap, arith}
use xatu_sidecar.Proto.{ClientMeta, XatuEvent}
use xatu_sidecar.Event.Source.{Moment, attach_lem}
use xatu_sidecar.Event.BeaconBlock
use xatu_sidecar.Event.Attestation
use xatu_sidecar.Event.AggregateAndProof
use xatu_sidecar.Event.BlobSidecar
use xatu_sidecar.Event.DataColumnSidecar
use xatu_sidecar.Event.DataColumnSidecarGloas
use xatu_sidecar.Event.ExecutionPayloadEnvelope
use xatu_sidecar.Event.ExecutionPayloadBid
use xatu_sidecar.Event.PayloadAttestationMessage
use xatu_sidecar.Event.ProposerPreferences
use xatu_sidecar.Processor.Externals.{Externals}
use xatu_sidecar.Processor.EventType.{EventType}
use xatu_sidecar.Processor.Handler.{Handler}
use xatu_sidecar.Processor.Handler.Delivery.{CalmSinks}
use xatu_sidecar.Processor.Dispatch.Effect.{Effect, continue-Effect, export_event-Effect}
use xatu_sidecar.Processor.Dispatch.{
  handle_beacon_block, handle_attestation, handle_aggregate_and_proof, handle_blob_sidecar,
  handle_data_column_sidecar, handle_data_column_sidecar_gloas, handle_execution_payload_envelope,
  handle_execution_payload_bid, handle_payload_attestation_message, handle_proposer_preferences,
}
use xatu_sidecar.Processor.Dispatch.Cases.{IsEventOf}

module _ (X : Externals) where
  pub handle_beacon_block-Effect :
      CalmSinks X
      → (m : Moment) (message : Json) (h : Handler X)
      → Effect X
          (IsEventOf X EventType.beacon_block m message h)
          h
          (handle_beacon_block X m message h)
  unfolding handle_beacon_block BeaconBlock.decorate
  handle_beacon_block-Effect calm m message h =
      continue-Effect X _ h (decode_beacon_block message) _ λ raw decoded.
        export_event-Effect X calm _ _ _ _ _ λ d made.
          let (event, payload, client) = attach_lem _ _ d made in
          record {
            name = ap (λ (e : XatuEvent). e.name) event;
            id = ap (λ (e : XatuEvent). e.id) event;
            date_time = λ ms read. ground (arith, decoded, event);
            clock_drift = ap (λ (c : ClientMeta). c.clock_drift) client;
          }

  pub handle_attestation-Effect :
      CalmSinks X
      → (m : Moment) (message : Json) (h : Handler X)
      → Effect X
          (IsEventOf X EventType.attestation m message h)
          h
          (handle_attestation X m message h)
  unfolding handle_attestation Attestation.decorate
  handle_attestation-Effect calm m message h =
      continue-Effect X _ h (decode_attestation message) _ λ raw decoded.
        export_event-Effect X calm _ _ _ _ _ λ d made.
          let (event, payload, client) = attach_lem _ _ d made in
          record {
            name = ap (λ (e : XatuEvent). e.name) event;
            id = ap (λ (e : XatuEvent). e.id) event;
            date_time = λ ms read. ground (arith, decoded, event);
            clock_drift = ap (λ (c : ClientMeta). c.clock_drift) client;
          }

  pub handle_aggregate_and_proof-Effect :
      CalmSinks X
      → (m : Moment) (message : Json) (h : Handler X)
      → Effect X
          (IsEventOf X EventType.aggregate_and_proof m message h)
          h
          (handle_aggregate_and_proof X m message h)
  unfolding handle_aggregate_and_proof AggregateAndProof.decorate
  handle_aggregate_and_proof-Effect calm m message h =
      continue-Effect X _ h (decode_aggregate_and_proof message) _ λ raw decoded.
        export_event-Effect X calm _ _ _ _ _ λ d made.
          let (event, payload, client) = attach_lem _ _ d made in
          record {
            name = ap (λ (e : XatuEvent). e.name) event;
            id = ap (λ (e : XatuEvent). e.id) event;
            date_time = λ ms read. ground (arith, decoded, event);
            clock_drift = ap (λ (c : ClientMeta). c.clock_drift) client;
          }

  pub handle_blob_sidecar-Effect :
      CalmSinks X
      → (m : Moment) (message : Json) (h : Handler X)
      → Effect X
          (IsEventOf X EventType.blob_sidecar m message h)
          h
          (handle_blob_sidecar X m message h)
  unfolding handle_blob_sidecar BlobSidecar.decorate
  handle_blob_sidecar-Effect calm m message h =
      continue-Effect X _ h (decode_blob_sidecar message) _ λ raw decoded.
        export_event-Effect X calm _ _ _ _ _ λ d made.
          let (event, payload, client) = attach_lem _ _ d made in
          record {
            name = ap (λ (e : XatuEvent). e.name) event;
            id = ap (λ (e : XatuEvent). e.id) event;
            date_time = λ ms read. ground (arith, decoded, event);
            clock_drift = ap (λ (c : ClientMeta). c.clock_drift) client;
          }

  pub handle_data_column_sidecar-Effect :
      CalmSinks X
      → (m : Moment) (message : Json) (h : Handler X)
      → Effect X
          (IsEventOf X EventType.data_column_sidecar m message h)
          h
          (handle_data_column_sidecar X m message h)
  unfolding handle_data_column_sidecar DataColumnSidecar.decorate
  handle_data_column_sidecar-Effect calm m message h =
      continue-Effect X _ h (decode_data_column_sidecar message) _ λ raw decoded.
        export_event-Effect X calm _ _ _ _ _ λ d made.
          let (event, payload, client) = attach_lem _ _ d made in
          record {
            name = ap (λ (e : XatuEvent). e.name) event;
            id = ap (λ (e : XatuEvent). e.id) event;
            date_time = λ ms read. ground (arith, decoded, event);
            clock_drift = ap (λ (c : ClientMeta). c.clock_drift) client;
          }

  pub handle_data_column_sidecar_gloas-Effect :
      CalmSinks X
      → (m : Moment) (message : Json) (h : Handler X)
      → Effect X
          (IsEventOf X EventType.data_column_sidecar_gloas m message h)
          h
          (handle_data_column_sidecar_gloas X m message h)
  unfolding handle_data_column_sidecar_gloas DataColumnSidecarGloas.decorate
  handle_data_column_sidecar_gloas-Effect calm m message h =
      continue-Effect X _ h (decode_data_column_sidecar_gloas message) _ λ raw decoded.
        export_event-Effect X calm _ _ _ _ _ λ d made.
          let (event, payload, client) = attach_lem _ _ d made in
          record {
            name = ap (λ (e : XatuEvent). e.name) event;
            id = ap (λ (e : XatuEvent). e.id) event;
            date_time = λ ms read. ground (arith, decoded, event);
            clock_drift = ap (λ (c : ClientMeta). c.clock_drift) client;
          }

  pub handle_execution_payload_envelope-Effect :
      CalmSinks X
      → (m : Moment) (message : Json) (h : Handler X)
      → Effect X
          (IsEventOf X EventType.execution_payload_envelope m message h)
          h
          (handle_execution_payload_envelope X m message h)
  unfolding handle_execution_payload_envelope ExecutionPayloadEnvelope.decorate
  handle_execution_payload_envelope-Effect calm m message h =
      continue-Effect X _ h (decode_execution_payload_envelope message) _ λ raw decoded.
        export_event-Effect X calm _ _ _ _ _ λ d made.
          let (event, payload, client) = attach_lem _ _ d made in
          record {
            name = ap (λ (e : XatuEvent). e.name) event;
            id = ap (λ (e : XatuEvent). e.id) event;
            date_time = λ ms read. ground (arith, decoded, event);
            clock_drift = ap (λ (c : ClientMeta). c.clock_drift) client;
          }

  pub handle_execution_payload_bid-Effect :
      CalmSinks X
      → (m : Moment) (message : Json) (h : Handler X)
      → Effect X
          (IsEventOf X EventType.execution_payload_bid m message h)
          h
          (handle_execution_payload_bid X m message h)
  unfolding handle_execution_payload_bid ExecutionPayloadBid.decorate
  handle_execution_payload_bid-Effect calm m message h =
      continue-Effect X _ h (decode_execution_payload_bid message) _ λ raw decoded.
        export_event-Effect X calm _ _ _ _ _ λ d made.
          let (event, payload, client) = attach_lem _ _ d made in
          record {
            name = ap (λ (e : XatuEvent). e.name) event;
            id = ap (λ (e : XatuEvent). e.id) event;
            date_time = λ ms read. ground (arith, decoded, event);
            clock_drift = ap (λ (c : ClientMeta). c.clock_drift) client;
          }

  pub handle_payload_attestation_message-Effect :
      CalmSinks X
      → (m : Moment) (message : Json) (h : Handler X)
      → Effect X
          (IsEventOf X EventType.payload_attestation_message m message h)
          h
          (handle_payload_attestation_message X m message h)
  unfolding handle_payload_attestation_message PayloadAttestationMessage.decorate
  handle_payload_attestation_message-Effect calm m message h =
      continue-Effect X _ h (decode_payload_attestation_message message) _ λ raw decoded.
        export_event-Effect X calm _ _ _ _ _ λ d made.
          let (event, payload, client) = attach_lem _ _ d made in
          record {
            name = ap (λ (e : XatuEvent). e.name) event;
            id = ap (λ (e : XatuEvent). e.id) event;
            date_time = λ ms read. ground (arith, decoded, event);
            clock_drift = ap (λ (c : ClientMeta). c.clock_drift) client;
          }

  pub handle_proposer_preferences-Effect :
      CalmSinks X
      → (m : Moment) (message : Json) (h : Handler X)
      → Effect X
          (IsEventOf X EventType.proposer_preferences m message h)
          h
          (handle_proposer_preferences X m message h)
  unfolding handle_proposer_preferences ProposerPreferences.decorate
  handle_proposer_preferences-Effect calm m message h =
      continue-Effect X _ h (decode_proposer_preferences message) _ λ raw decoded.
        export_event-Effect X calm _ _ _ _ _ λ d made.
          let (event, payload, client) = attach_lem _ _ d made in
          record {
            name = ap (λ (e : XatuEvent). e.name) event;
            id = ap (λ (e : XatuEvent). e.id) event;
            date_time = λ ms read. ground (arith, decoded, event);
            clock_drift = ap (λ (c : ClientMeta). c.clock_drift) client;
          }

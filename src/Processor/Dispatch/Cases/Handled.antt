-- ===== src/Processor/Dispatch/Cases/Handled.antt =====
-- The cases of pkg/processor/handler.go: the partial data column
-- events, and the switch as a whole.
use xatu_sidecar.Json.{Json}
use xatu_sidecar.Event.Decoding.{
  decode_data_column_completed, decode_partial_data_column, decode_partial_data_column_outcome,
}
use xatu_sidecar.Prelude.{ap, arith}
use xatu_sidecar.Proto.{ClientMeta, XatuEvent}
use xatu_sidecar.Event.Source.{Moment, attach_lem}
use xatu_sidecar.Event.PartialDataColumn
use xatu_sidecar.Event.DataColumnCompleted
use xatu_sidecar.Event.PartialDataColumnOutcome
use xatu_sidecar.Processor.Externals.{Externals}
use xatu_sidecar.Processor.EventType.{EventType}
use xatu_sidecar.Processor.Handler.{Handler}
use xatu_sidecar.Processor.Handler.Delivery.{CalmSinks}
use xatu_sidecar.Processor.Dispatch.Effect.{Effect, continue-Effect, export_event-Effect}
use xatu_sidecar.Processor.Dispatch.{
  handle_partial_data_column, handle_data_column_completed, handle_partial_data_column_outcome,
  handle,
}
use xatu_sidecar.Processor.Dispatch.Cases.{IsEventOf}
use xatu_sidecar.Processor.Dispatch.Cases.Consensus.{
  handle_beacon_block-Effect, handle_attestation-Effect, handle_aggregate_and_proof-Effect,
  handle_blob_sidecar-Effect, handle_data_column_sidecar-Effect,
  handle_data_column_sidecar_gloas-Effect, handle_execution_payload_envelope-Effect,
  handle_execution_payload_bid-Effect, handle_payload_attestation_message-Effect,
  handle_proposer_preferences-Effect,
}

module _ (X : Externals) where
  handle_partial_data_column-Effect :
      CalmSinks X
      → (m : Moment) (message : Json) (h : Handler X)
      → Effect X
          (IsEventOf X EventType.partial_data_column m message h)
          h
          (handle_partial_data_column X m message h)
  unfolding handle_partial_data_column PartialDataColumn.decorate
      PartialDataColumn.new_partial_data_column
  handle_partial_data_column-Effect calm m message h =
      continue-Effect X _ h (decode_partial_data_column message) _ λ raw decoded.
        export_event-Effect X calm _ _ _ _ _ λ d made.
          let (event, payload, client) = attach_lem _ _ d made in
          record {
            name = ap (λ (e : XatuEvent). e.name) event;
            id = ap (λ (e : XatuEvent). e.id) event;
            date_time = λ ms read. ground (arith, decoded, event);
            clock_drift = ap (λ (c : ClientMeta). c.clock_drift) client;
          }

  handle_data_column_completed-Effect :
      CalmSinks X
      → (m : Moment) (message : Json) (h : Handler X)
      → Effect X
          (IsEventOf X EventType.data_column_completed m message h)
          h
          (handle_data_column_completed X m message h)
  unfolding handle_data_column_completed DataColumnCompleted.decorate
      DataColumnCompleted.new_data_column_completed
  handle_data_column_completed-Effect calm m message h =
      continue-Effect X _ h (decode_data_column_completed message) _ λ raw decoded.
        export_event-Effect X calm _ _ _ _ _ λ d made.
          let (event, payload, client) = attach_lem _ _ d made in
          record {
            name = ap (λ (e : XatuEvent). e.name) event;
            id = ap (λ (e : XatuEvent). e.id) event;
            date_time = λ ms read. ground (arith, decoded, event);
            clock_drift = ap (λ (c : ClientMeta). c.clock_drift) client;
          }

  handle_partial_data_column_outcome-Effect :
      CalmSinks X
      → (m : Moment) (message : Json) (h : Handler X)
      → Effect X
          (IsEventOf X EventType.partial_data_column_outcome m message h)
          h
          (handle_partial_data_column_outcome X m message h)
  unfolding handle_partial_data_column_outcome PartialDataColumnOutcome.decorate
      PartialDataColumnOutcome.new_partial_data_column_outcome
  handle_partial_data_column_outcome-Effect calm m message h =
      continue-Effect X _ h (decode_partial_data_column_outcome message) _ λ raw decoded.
        export_event-Effect X calm _ _ _ _ _ λ d made.
          let (event, payload, client) = attach_lem _ _ d made in
          record {
            name = ap (λ (e : XatuEvent). e.name) event;
            id = ap (λ (e : XatuEvent). e.id) event;
            date_time = λ ms read. ground (arith, decoded, event);
            clock_drift = ap (λ (c : ClientMeta). c.clock_drift) client;
          }

  pub handle-Effect :
      CalmSinks X
      → (t : EventType) (m : Moment) (message : Json) (h : Handler X)
      → Effect X (IsEventOf X t m message h) h (handle X t m message h)
  unfolding handle
  handle-Effect calm EventType.beacon_block m message h =
      handle_beacon_block-Effect X calm m message h
  handle-Effect calm EventType.attestation m message h =
      handle_attestation-Effect X calm m message h
  handle-Effect calm EventType.aggregate_and_proof m message h =
      handle_aggregate_and_proof-Effect X calm m message h
  handle-Effect calm EventType.blob_sidecar m message h =
      handle_blob_sidecar-Effect X calm m message h
  handle-Effect calm EventType.data_column_sidecar m message h =
      handle_data_column_sidecar-Effect X calm m message h
  handle-Effect calm EventType.data_column_sidecar_gloas m message h =
      handle_data_column_sidecar_gloas-Effect X calm m message h
  handle-Effect calm EventType.execution_payload_envelope m message h =
      handle_execution_payload_envelope-Effect X calm m message h
  handle-Effect calm EventType.execution_payload_bid m message h =
      handle_execution_payload_bid-Effect X calm m message h
  handle-Effect calm EventType.payload_attestation_message m message h =
      handle_payload_attestation_message-Effect X calm m message h
  handle-Effect calm EventType.proposer_preferences m message h =
      handle_proposer_preferences-Effect X calm m message h
  handle-Effect calm EventType.partial_data_column m message h =
      handle_partial_data_column-Effect calm m message h
  handle-Effect calm EventType.data_column_completed m message h =
      handle_data_column_completed-Effect calm m message h
  handle-Effect calm EventType.partial_data_column_outcome m message h =
      handle_partial_data_column_outcome-Effect calm m message h

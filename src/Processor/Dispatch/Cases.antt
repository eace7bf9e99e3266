-- ===== src/Processor/Dispatch/Cases.antt =====
-- What each case of `HandleRawEvent` in pkg/processor/handler.go exports.
pub mod Consensus
pub mod Handled
use xatu_sidecar.Json.{Json}
use xatu_sidecar.Event.Decoding.{
  decode_aggregate_and_proof, decode_attestation, decode_beacon_block, decode_blob_sidecar,
  decode_data_column_completed, decode_data_column_sidecar, decode_data_column_sidecar_gloas,
  decode_execution_payload_bid, decode_execution_payload_envelope, decode_partial_data_column,
  decode_partial_data_column_outcome, decode_payload_attestation_message,
  decode_proposer_preferences,
}
use xatu_sidecar.Prelude.{◌≡◌}
use xatu_sidecar.Prelude.Int.{ℤ, ◌+ℤ◌}
use xatu_sidecar.Outcome.{Outcome, ok, map_ok}
use xatu_sidecar.Proto.{DecoratedEvent, EventName, ClientMeta, XatuEvent}
use xatu_sidecar.Event.Instant.{unix_milli}
use xatu_sidecar.Event.Source.{Moment, attach_lem}
use xatu_sidecar.Processor.Drift.{clock_drift_millis}
use xatu_sidecar.Event.BeaconBlock
use xatu_sidecar.Event.Attestation
use xatu_sidecar.Event.AggregateAndProof
use xatu_sidecar.Event.BlobSidecar
use xatu_sidecar.Event.DataColumnSidecar
use xatu_sidecar.Event.DataColumnSidecarGloas
use xatu_sidecar.Event.ExecutionPayloadEnvelope
use xatu_sidecar.Event.ExecutionPayloadBid
use xatu_sidecar.Event.PayloadAttestationMessage
use xatu_sidecar.Event.ProposerPreferences
use xatu_sidecar.Event.PartialDataColumn
use xatu_sidecar.Event.DataColumnCompleted
use xatu_sidecar.Event.PartialDataColumnOutcome
use xatu_sidecar.Processor.Externals.{Externals}
use xatu_sidecar.Processor.EventType.{EventType}
use xatu_sidecar.Processor.Handler.{Handler}
use xatu_sidecar.Processor.Handler.Delivery.{CalmSinks}
use xatu_sidecar.Processor.Dispatch.Effect.{Effect, continue-Effect, export_event-Effect}
use xatu_sidecar.Processor.Dispatch.{
  handle_beacon_block, handle_attestation, handle_aggregate_and_proof, handle_blob_sidecar,
  handle_data_column_sidecar, handle_data_column_sidecar_gloas, handle_execution_payload_envelope,
  handle_execution_payload_bid, handle_payload_attestation_message, handle_proposer_preferences,
  handle_partial_data_column, handle_data_column_completed, handle_partial_data_column_outcome,
  handle,
}

-- The name under which each type of event is exported; both forms of a data column sidecar share
-- theirs.
abbrev pub event_name : EventType → EventName
event_name EventType.beacon_block = EventName.libp2p_trace_gossipsub_beacon_block
event_name EventType.attestation = EventName.libp2p_trace_gossipsub_beacon_attestation
event_name EventType.aggregate_and_proof = EventName.libp2p_trace_gossipsub_aggregate_and_proof
event_name EventType.blob_sidecar = EventName.libp2p_trace_gossipsub_blob_sidecar
event_name EventType.data_column_sidecar = EventName.libp2p_trace_gossipsub_data_column_sidecar
event_name EventType.data_column_sidecar_gloas =
    EventName.libp2p_trace_gossipsub_data_column_sidecar
event_name EventType.execution_payload_envelope =
    EventName.libp2p_trace_gossipsub_execution_payload_envelope
event_name EventType.execution_payload_bid = EventName.libp2p_trace_gossipsub_execution_payload_bid
event_name EventType.payload_attestation_message =
    EventName.libp2p_trace_gossipsub_payload_attestation_message
event_name EventType.proposer_preferences = EventName.libp2p_trace_gossipsub_proposer_preferences
event_name EventType.partial_data_column = EventName.libp2p_trace_gossipsub_partial_data_column
event_name EventType.data_column_completed = EventName.libp2p_trace_data_column_completed
event_name EventType.partial_data_column_outcome =
    EventName.libp2p_trace_gossipsub_partial_data_column_outcome

-- The timestamp that a message of a type carries, if it can be decoded.
abbrev pub timestamp_of : (X : Externals) → EventType → Json → Outcome ℤ
timestamp_of X EventType.beacon_block message =
    map_ok (λ raw. raw.timestamp_ms) (decode_beacon_block message)
timestamp_of X EventType.attestation message =
    map_ok (λ raw. raw.timestamp_ms) (decode_attestation message)
timestamp_of X EventType.aggregate_and_proof message =
    map_ok (λ raw. raw.timestamp_ms) (decode_aggregate_and_proof message)
timestamp_of X EventType.blob_sidecar message =
    map_ok (λ raw. raw.timestamp_ms) (decode_blob_sidecar message)
timestamp_of X EventType.data_column_sidecar message =
    map_ok (λ raw. raw.timestamp_ms) (decode_data_column_sidecar message)
timestamp_of X EventType.data_column_sidecar_gloas message =
    map_ok (λ raw. raw.timestamp_ms) (decode_data_column_sidecar_gloas message)
timestamp_of X EventType.execution_payload_envelope message =
    map_ok (λ raw. raw.timestamp_ms) (decode_execution_payload_envelope message)
timestamp_of X EventType.execution_payload_bid message =
    map_ok (λ raw. raw.timestamp_ms) (decode_execution_payload_bid message)
timestamp_of X EventType.payload_attestation_message message =
    map_ok (λ raw. raw.timestamp_ms) (decode_payload_attestation_message message)
timestamp_of X EventType.proposer_preferences message =
    map_ok (λ raw. raw.timestamp_ms) (decode_proposer_preferences message)
timestamp_of X EventType.partial_data_column message =
    map_ok (λ raw. raw.timestamp_ms) (decode_partial_data_column message)
timestamp_of X EventType.data_column_completed message =
    map_ok (λ raw. raw.timestamp_ms) (decode_data_column_completed message)
timestamp_of X EventType.partial_data_column_outcome message =
    map_ok (λ raw. raw.timestamp_ms) (decode_partial_data_column_outcome message)

module _ (X : Externals) where
  -- The exported event has the name of its type, a new id, the time of the message corrected by the
  -- clock's drift, and the size of that drift in its metadata.
  pub record IsEventOf (t : EventType) (m : Moment) (message : Json) (h : Handler X)
      (event : DecoratedEvent) : Type 0 where
    pub name : event.event.name ≡ event_name t
    pub id : event.event.id ≡ m.uuid
    pub date_time :
        (ms : ℤ)
        → timestamp_of X t message ≡ ok ms
        → event.event.date_time ≡ unix_milli ms +ℤ h.clock_drift
    pub clock_drift : event.client.clock_drift ≡ clock_drift_millis h.clock_drift

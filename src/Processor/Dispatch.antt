-- ===== src/Processor/Dispatch.antt =====
-- `HandleRawEvent` of pkg/processor/handler.go: a function for each case of its switch. The clock
-- drift and the client metadata are read off the handler, which a case does not change before it
-- builds its event but for the block slots.
pub mod Effect
pub mod Cases
pub mod Twice
pub mod RawEvent
pub mod Fresh
pub mod Exported
pub mod Learning
pub mod Panics
use xatu_sidecar.Json.{Json}
use xatu_sidecar.Event.Decoding.{
  decode_aggregate_and_proof, decode_attestation, decode_beacon_block, decode_blob_sidecar,
  decode_data_column_completed, decode_data_column_sidecar, decode_data_column_sidecar_gloas,
  decode_execution_payload_bid, decode_execution_payload_envelope, decode_partial_data_column,
  decode_partial_data_column_outcome, decode_payload_attestation_message,
  decode_proposer_preferences,
}
use xatu_sidecar.Prelude.{String, none, some}
use xatu_sidecar.Proto.{ClientMeta}
use xatu_sidecar.Outcome.{err, ok, Method, lift, unsupported_event_type, ◌>>=◌, ◌>>◌}
use xatu_sidecar.Cache.Field
use xatu_sidecar.Event.Source.{Moment}
use xatu_sidecar.Event.BeaconBlock
use xatu_sidecar.Event.BeaconBlock.{new_beacon_block}
use xatu_sidecar.Event.Attestation
use xatu_sidecar.Event.Attestation.{new_attestation}
use xatu_sidecar.Event.AggregateAndProof
use xatu_sidecar.Event.AggregateAndProof.{new_aggregate_and_proof}
use xatu_sidecar.Event.BlobSidecar
use xatu_sidecar.Event.BlobSidecar.{new_blob_sidecar}
use xatu_sidecar.Event.DataColumnSidecar
use xatu_sidecar.Event.DataColumnSidecar.{new_data_column_sidecar}
use xatu_sidecar.Event.DataColumnSidecarGloas
use xatu_sidecar.Event.DataColumnSidecarGloas.{new_data_column_sidecar_gloas}
use xatu_sidecar.Event.ExecutionPayloadEnvelope
use xatu_sidecar.Event.ExecutionPayloadEnvelope.{new_execution_payload_envelope}
use xatu_sidecar.Event.ExecutionPayloadBid
use xatu_sidecar.Event.ExecutionPayloadBid.{new_execution_payload_bid}
use xatu_sidecar.Event.PayloadAttestationMessage
use xatu_sidecar.Event.PayloadAttestationMessage.{new_payload_attestation_message}
use xatu_sidecar.Event.ProposerPreferences
use xatu_sidecar.Event.ProposerPreferences.{new_proposer_preferences}
use xatu_sidecar.Event.PartialDataColumn
use xatu_sidecar.Event.PartialDataColumn.{new_partial_data_column}
use xatu_sidecar.Event.DataColumnCompleted
use xatu_sidecar.Event.DataColumnCompleted.{new_data_column_completed}
use xatu_sidecar.Event.PartialDataColumnOutcome
use xatu_sidecar.Event.PartialDataColumnOutcome.{new_partial_data_column_outcome}
use xatu_sidecar.Processor.Externals.{Externals}
use xatu_sidecar.Processor.EventType.{EventType, event_type?}
use xatu_sidecar.Processor.Handler.{
  Handler, create_new_client_meta, resolve_slot, on_block_slots, export_event, current_clock_drift,
}

module _ (X : Externals) where
  abbrev get : Method (Handler X) (Handler X)
  get h = (ok h, h)

  abbrev meta : Handler X → ClientMeta
  meta h = create_new_client_meta X h (current_clock_drift X h)

  unfoldable pub handle_beacon_block : Moment → Json → Method (Handler X) (Unit {0})
  handle_beacon_block m message = do
    raw ← lift (decode_beacon_block message)
    resolve_slot X m raw.block_root raw.slot
    h ← get
    let event = new_beacon_block raw (current_clock_drift X h) h.wallclock (meta h) m.uuid
    export_event X (Field.gossipsub_beacon_block X.duplicates)
        (BeaconBlock.should_ignore X.duplicates X.hash.beacon_block m event)
        (BeaconBlock.decorate event)

  unfoldable pub handle_attestation : Moment → Json → Method (Handler X) (Unit {0})
  handle_attestation m message = do
    raw ← lift (decode_attestation message)
    h ← get
    let event = new_attestation raw (current_clock_drift X h) h.wallclock (meta h) m.uuid
    export_event X (Field.gossipsub_attestation X.duplicates)
        (Attestation.should_ignore X.duplicates X.hash.attestation m event)
        (Attestation.decorate event)

  unfoldable pub handle_aggregate_and_proof : Moment → Json → Method (Handler X) (Unit {0})
  handle_aggregate_and_proof m message = do
    raw ← lift (decode_aggregate_and_proof message)
    h ← get
    let event = new_aggregate_and_proof raw (current_clock_drift X h) h.wallclock (meta h) m.uuid
    export_event X (Field.gossipsub_aggregate_and_proof X.duplicates)
        (AggregateAndProof.should_ignore X.duplicates X.hash.aggregate_and_proof m event)
        (AggregateAndProof.decorate event)

  unfoldable pub handle_blob_sidecar : Moment → Json → Method (Handler X) (Unit {0})
  handle_blob_sidecar m message = do
    raw ← lift (decode_blob_sidecar message)
    h ← get
    let event = new_blob_sidecar raw (current_clock_drift X h) h.wallclock (meta h) m.uuid
    export_event X (Field.gossipsub_blob_sidecar X.duplicates)
        (BlobSidecar.should_ignore X.duplicates X.hash.blob_sidecar m event)
        (BlobSidecar.decorate event)

  unfoldable pub handle_data_column_sidecar : Moment → Json → Method (Handler X) (Unit {0})
  handle_data_column_sidecar m message = do
    raw ← lift (decode_data_column_sidecar message)
    resolve_slot X m raw.block_root raw.slot
    h ← get
    let event = new_data_column_sidecar raw (current_clock_drift X h) h.wallclock (meta h) m.uuid
    export_event X (Field.gossipsub_data_column_sidecar X.duplicates)
        (DataColumnSidecar.should_ignore X.duplicates X.hash.data_column_sidecar m event)
        (DataColumnSidecar.decorate event)

  unfoldable pub handle_data_column_sidecar_gloas : Moment → Json → Method (Handler X) (Unit {0})
  handle_data_column_sidecar_gloas m message = do
    raw ← lift (decode_data_column_sidecar_gloas message)
    resolve_slot X m raw.block_root raw.slot
    h ← get
    let event =
        new_data_column_sidecar_gloas raw (current_clock_drift X h) h.wallclock (meta h) m.uuid
    export_event X (Field.gossipsub_data_column_sidecar X.duplicates)
        (DataColumnSidecarGloas.should_ignore X.duplicates X.hash.data_column_sidecar_gloas m event)
        (DataColumnSidecarGloas.decorate event)

  unfoldable pub handle_execution_payload_envelope : Moment → Json → Method (Handler X) (Unit {0})
  handle_execution_payload_envelope m message = do
    raw ← lift (decode_execution_payload_envelope message)
    h ← get
    let event =
        new_execution_payload_envelope raw (current_clock_drift X h) h.wallclock (meta h) m.uuid
    export_event X (Field.gossipsub_execution_payload_envelope X.duplicates)
        (ExecutionPayloadEnvelope.should_ignore X.duplicates X.hash.execution_payload_envelope m
          event)
        (ExecutionPayloadEnvelope.decorate event)

  unfoldable pub handle_execution_payload_bid : Moment → Json → Method (Handler X) (Unit {0})
  handle_execution_payload_bid m message = do
    raw ← lift (decode_execution_payload_bid message)
    h ← get
    let event = new_execution_payload_bid raw (current_clock_drift X h) h.wallclock (meta h) m.uuid
    export_event X (Field.gossipsub_execution_payload_bid X.duplicates)
        (ExecutionPayloadBid.should_ignore X.duplicates X.hash.execution_payload_bid m event)
        (ExecutionPayloadBid.decorate event)

  unfoldable pub handle_payload_attestation_message : Moment → Json → Method (Handler X) (Unit {0})
  handle_payload_attestation_message m message = do
    raw ← lift (decode_payload_attestation_message message)
    h ← get
    let event =
        new_payload_attestation_message raw (current_clock_drift X h) h.wallclock (meta h) m.uuid
    export_event X (Field.gossipsub_payload_attestation_message X.duplicates)
        (PayloadAttestationMessage.should_ignore X.duplicates X.hash.payload_attestation_message m
          event)
        (PayloadAttestationMessage.decorate event)

  unfoldable pub handle_proposer_preferences : Moment → Json → Method (Handler X) (Unit {0})
  handle_proposer_preferences m message = do
    raw ← lift (decode_proposer_preferences message)
    h ← get
    let event = new_proposer_preferences raw (current_clock_drift X h) h.wallclock (meta h) m.uuid
    export_event X (Field.gossipsub_proposer_preferences X.duplicates)
        (ProposerPreferences.should_ignore X.duplicates X.hash.proposer_preferences m event)
        (ProposerPreferences.decorate event)

  unfoldable pub handle_partial_data_column : Moment → Json → Method (Handler X) (Unit {0})
  handle_partial_data_column m message = do
    raw ← lift (decode_partial_data_column message)
    h ← get
    event ←
        on_block_slots X
          (new_partial_data_column X.slots m raw (current_clock_drift X h) h.wallclock (meta h))
    export_event X (Field.gossipsub_partial_data_column X.duplicates)
        (PartialDataColumn.should_ignore X.duplicates X.hash.partial_data_column m event)
        (PartialDataColumn.decorate event)

  unfoldable pub handle_data_column_completed : Moment → Json → Method (Handler X) (Unit {0})
  handle_data_column_completed m message = do
    raw ← lift (decode_data_column_completed message)
    h ← get
    event ←
        on_block_slots X
          (new_data_column_completed X.slots m raw (current_clock_drift X h) h.wallclock (meta h))
    export_event X (Field.data_column_completed X.duplicates)
        (DataColumnCompleted.should_ignore X.duplicates m event)
        (DataColumnCompleted.decorate event)

  unfoldable pub handle_partial_data_column_outcome : Moment → Json → Method (Handler X) (Unit {0})
  handle_partial_data_column_outcome m message = do
    raw ← lift (decode_partial_data_column_outcome message)
    h ← get
    event ← on_block_slots X (
        new_partial_data_column_outcome X.slots m raw (current_clock_drift X h) h.wallclock
          (meta h))
    export_event X (Field.gossipsub_partial_data_column_outcome X.duplicates)
        (PartialDataColumnOutcome.should_ignore X.duplicates X.hash.partial_data_column_outcome m
          event)
        (PartialDataColumnOutcome.decorate event)

  unfoldable pub handle : EventType → Moment → Json → Method (Handler X) (Unit {0})
  handle EventType.beacon_block = handle_beacon_block
  handle EventType.attestation = handle_attestation
  handle EventType.aggregate_and_proof = handle_aggregate_and_proof
  handle EventType.blob_sidecar = handle_blob_sidecar
  handle EventType.data_column_sidecar = handle_data_column_sidecar
  handle EventType.data_column_sidecar_gloas = handle_data_column_sidecar_gloas
  handle EventType.execution_payload_envelope = handle_execution_payload_envelope
  handle EventType.execution_payload_bid = handle_execution_payload_bid
  handle EventType.payload_attestation_message = handle_payload_attestation_message
  handle EventType.proposer_preferences = handle_proposer_preferences
  handle EventType.partial_data_column = handle_partial_data_column
  handle EventType.data_column_completed = handle_data_column_completed
  handle EventType.partial_data_column_outcome = handle_partial_data_column_outcome

  unfoldable pub handle_raw_event : Moment → Json → String → Method (Handler X) (Unit {0})
  handle_raw_event m message event_type h = elim (event_type? event_type) [
    | some t ↦ handle t m message h
    | none ↦ (err unsupported_event_type, h)
  ]

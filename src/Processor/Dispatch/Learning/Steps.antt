-- ===== src/Processor/Dispatch/Learning/Steps.antt =====
-- What each case of pkg/processor/handler.go does to the block slots.
use xatu_sidecar.Prelude.{◌≡◌, refl, Option, none, some}
use xatu_sidecar.Json.{Json}
use xatu_sidecar.Outcome.{Outcome, ok, err, panic, Method, continue}
use xatu_sidecar.Cache.BlockSlot.{resolve}
use xatu_sidecar.Cache.BlockSlot.Learned.{Call}
use xatu_sidecar.Event.Source.{Moment}
use xatu_sidecar.Event.BeaconBlock.{RawBeaconBlock}
use xatu_sidecar.Event.DataColumnSidecar.{RawDataColumnSidecar}
use xatu_sidecar.Event.DataColumnSidecarGloas.{RawDataColumnSidecarGloas}
use xatu_sidecar.Event.PartialDataColumn
use xatu_sidecar.Event.PartialDataColumn.{RawPartialDataColumn}
use xatu_sidecar.Event.DataColumnCompleted
use xatu_sidecar.Event.DataColumnCompleted.{RawDataColumnCompleted}
use xatu_sidecar.Event.PartialDataColumnOutcome
use xatu_sidecar.Event.PartialDataColumnOutcome.{RawPartialDataColumnOutcome}
use xatu_sidecar.Event.Decoding.{
  decode_beacon_block, decode_attestation, decode_aggregate_and_proof, decode_blob_sidecar,
  decode_data_column_sidecar, decode_data_column_sidecar_gloas, decode_execution_payload_envelope,
  decode_execution_payload_bid, decode_payload_attestation_message, decode_proposer_preferences,
  decode_partial_data_column, decode_data_column_completed, decode_partial_data_column_outcome,
}
use xatu_sidecar.Processor.Externals.{Externals}
use xatu_sidecar.Processor.EventType.{EventType}
use xatu_sidecar.Processor.Handler.{Handler}
use xatu_sidecar.Processor.Dispatch.Learning.{export_event-slots}
use xatu_sidecar.Processor.Dispatch.{
  handle, handle_beacon_block, handle_attestation, handle_aggregate_and_proof, handle_blob_sidecar,
  handle_data_column_sidecar, handle_data_column_sidecar_gloas, handle_execution_payload_envelope,
  handle_execution_payload_bid, handle_payload_attestation_message, handle_proposer_preferences,
  handle_partial_data_column, handle_data_column_completed, handle_partial_data_column_outcome,
}

-- The call that a decoded event makes.
abbrev pub called {ℓ} : {A : Type ℓ} → Outcome A → (A → Call) → Option Call
called (ok raw) call = some (call raw)
called (err e) call = none
called panic call = none

-- The call of `Resolve` that a message of a type makes: the types that carry a block root and a
-- slot make one once they are decoded.
abbrev pub slot_call : EventType → Moment → Json → Option Call
slot_call EventType.beacon_block m message =
    called (decode_beacon_block message)
      λ (raw : RawBeaconBlock). record { at = m.resolve_at; root = raw.block_root; slot = raw.slot }
slot_call EventType.data_column_sidecar m message =
    called (decode_data_column_sidecar message) λ (raw : RawDataColumnSidecar). record {
      at = m.resolve_at;
      root = raw.block_root;
      slot = raw.slot;
    }
slot_call EventType.data_column_sidecar_gloas m message =
    called (decode_data_column_sidecar_gloas message) λ (raw : RawDataColumnSidecarGloas). record {
      at = m.resolve_at;
      root = raw.block_root;
      slot = raw.slot;
    }
slot_call EventType.partial_data_column m message =
    called (decode_partial_data_column message) λ (raw : RawPartialDataColumn). record {
      at = m.resolve_at;
      root = raw.block_root;
      slot = raw.slot;
    }
slot_call EventType.data_column_completed m message =
    called (decode_data_column_completed message) λ (raw : RawDataColumnCompleted). record {
      at = m.resolve_at;
      root = raw.block_root;
      slot = raw.slot;
    }
slot_call EventType.partial_data_column_outcome m message =
    called (decode_partial_data_column_outcome message) λ (raw : RawPartialDataColumnOutcome).
      record { at = m.resolve_at; root = raw.block_root; slot = raw.slot }
slot_call _ m message = none

module _ (X : Externals) where
  abbrev pub resolved : Option Call → X.slots.Cache → X.slots.Cache
  resolved none c = c
  resolved (some call) c = (resolve X.slots call.at call.root call.slot c).1

  continue-kept :
      {A : Type 0} (o : Outcome A) (f : A → Method (Handler X) (Unit {0})) (h : Handler X)
      → ((a : A) → (f a h).1.block_slots ≡ h.block_slots)
      → (continue (o, h) f).1.block_slots ≡ h.block_slots
  continue-kept (ok a) f h k = k a
  continue-kept (err e) f h k = refl
  continue-kept panic f h k = refl

  continue-resolved :
      {A : Type 0} (o : Outcome A) (f : A → Method (Handler X) (Unit {0})) (h : Handler X)
      (call : A → Call)
      → ((a : A) → (f a h).1.block_slots ≡ resolved (some (call a)) h.block_slots)
      → (continue (o, h) f).1.block_slots ≡ resolved (called o call) h.block_slots
  continue-resolved (ok a) f h call k = k a
  continue-resolved (err e) f h call k = refl
  continue-resolved panic f h call k = refl

  -- Whatever becomes of an event, the block slots change by its call only.
  pub handle-slots :
      (t : EventType) (m : Moment) (message : Json) (h : Handler X)
      → (handle X t m message h).1.block_slots ≡ resolved (slot_call t m message) h.block_slots
  unfolding handle handle_beacon_block handle_attestation handle_aggregate_and_proof
      handle_blob_sidecar handle_data_column_sidecar handle_data_column_sidecar_gloas
      handle_execution_payload_envelope handle_execution_payload_bid
      handle_payload_attestation_message handle_proposer_preferences handle_partial_data_column
      handle_data_column_completed handle_partial_data_column_outcome
      PartialDataColumn.new_partial_data_column DataColumnCompleted.new_data_column_completed
      PartialDataColumnOutcome.new_partial_data_column_outcome
  handle-slots EventType.beacon_block m message h =
      continue-resolved (decode_beacon_block message) _ h _ λ raw. export_event-slots X _ _ _ _
  handle-slots EventType.attestation m message h =
      continue-kept (decode_attestation message) _ h λ raw. export_event-slots X _ _ _ _
  handle-slots EventType.aggregate_and_proof m message h =
      continue-kept (decode_aggregate_and_proof message) _ h λ raw. export_event-slots X _ _ _ _
  handle-slots EventType.blob_sidecar m message h =
      continue-kept (decode_blob_sidecar message) _ h λ raw. export_event-slots X _ _ _ _
  handle-slots EventType.data_column_sidecar m message h =
      continue-resolved (decode_data_column_sidecar message) _ h _
        λ raw. export_event-slots X _ _ _ _
  handle-slots EventType.data_column_sidecar_gloas m message h =
      continue-resolved (decode_data_column_sidecar_gloas message) _ h _
        λ raw. export_event-slots X _ _ _ _
  handle-slots EventType.execution_payload_envelope m message h =
      continue-kept (decode_execution_payload_envelope message) _ h
        λ raw. export_event-slots X _ _ _ _
  handle-slots EventType.execution_payload_bid m message h =
      continue-kept (decode_execution_payload_bid message) _ h λ raw. export_event-slots X _ _ _ _
  handle-slots EventType.payload_attestation_message m message h =
      continue-kept (decode_payload_attestation_message message) _ h
        λ raw. export_event-slots X _ _ _ _
  handle-slots EventType.proposer_preferences m message h =
      continue-kept (decode_proposer_preferences message) _ h λ raw. export_event-slots X _ _ _ _
  handle-slots EventType.partial_data_column m message h =
      continue-resolved (decode_partial_data_column message) _ h _
        λ raw. export_event-slots X _ _ _ _
  handle-slots EventType.data_column_completed m message h =
      continue-resolved (decode_data_column_completed message) _ h _
        λ raw. export_event-slots X _ _ _ _
  handle-slots EventType.partial_data_column_outcome m message h =
      continue-resolved (decode_partial_data_column_outcome message) _ h _
        λ raw. export_event-slots X _ _ _ _

-- ===== src/Event/RoundTrip/Typed.antt =====
-- The raw events of pkg/event/gossipsub as one type, and what each type of message is decoded to.
use xatu_sidecar.Prelude.{◌≡◌, ap}
use xatu_sidecar.Outcome.{Outcome, ok, map_ok}
use xatu_sidecar.Json.{Json}
use xatu_sidecar.Processor.EventType.{EventType}
use xatu_sidecar.Event.BeaconBlock.{RawBeaconBlock}
use xatu_sidecar.Event.Attestation.{RawAttestation}
use xatu_sidecar.Event.AggregateAndProof.{RawAggregateAndProof}
use xatu_sidecar.Event.BlobSidecar.{RawBlobSidecar}
use xatu_sidecar.Event.DataColumnSidecar.{RawDataColumnSidecar}
use xatu_sidecar.Event.DataColumnSidecarGloas.{RawDataColumnSidecarGloas}
use xatu_sidecar.Event.ExecutionPayloadEnvelope.{RawExecutionPayloadEnvelope}
use xatu_sidecar.Event.ExecutionPayloadBid.{RawExecutionPayloadBid}
use xatu_sidecar.Event.PayloadAttestationMessage.{RawPayloadAttestationMessage}
use xatu_sidecar.Event.ProposerPreferences.{RawProposerPreferences}
use xatu_sidecar.Event.PartialDataColumn.{RawPartialDataColumn}
use xatu_sidecar.Event.DataColumnCompleted.{RawDataColumnCompleted}
use xatu_sidecar.Event.PartialDataColumnOutcome.{RawPartialDataColumnOutcome}
use xatu_sidecar.Event.Decoding.Blocks.{
  decode_beacon_block, decode_attestation, decode_aggregate_and_proof, decode_blob_sidecar,
  decode_data_column_sidecar,
}
use xatu_sidecar.Event.Decoding.Payloads.{
  decode_data_column_sidecar_gloas, decode_execution_payload_envelope, decode_execution_payload_bid,
  decode_payload_attestation_message, decode_proposer_preferences,
}
use xatu_sidecar.Event.Decoding.Partials.{
  decode_partial_data_column, decode_data_column_completed, decode_partial_data_column_outcome,
}

pub data RawEvent : Type 0 where
  beacon_block : RawBeaconBlock → RawEvent
  attestation : RawAttestation → RawEvent
  aggregate_and_proof : RawAggregateAndProof → RawEvent
  blob_sidecar : RawBlobSidecar → RawEvent
  data_column_sidecar : RawDataColumnSidecar → RawEvent
  data_column_sidecar_gloas : RawDataColumnSidecarGloas → RawEvent
  execution_payload_envelope : RawExecutionPayloadEnvelope → RawEvent
  execution_payload_bid : RawExecutionPayloadBid → RawEvent
  payload_attestation_message : RawPayloadAttestationMessage → RawEvent
  proposer_preferences : RawProposerPreferences → RawEvent
  partial_data_column : RawPartialDataColumn → RawEvent
  data_column_completed : RawDataColumnCompleted → RawEvent
  partial_data_column_outcome : RawPartialDataColumnOutcome → RawEvent

abbrev pub type_of : RawEvent → EventType
type_of (RawEvent.beacon_block raw) = EventType.beacon_block
type_of (RawEvent.attestation raw) = EventType.attestation
type_of (RawEvent.aggregate_and_proof raw) = EventType.aggregate_and_proof
type_of (RawEvent.blob_sidecar raw) = EventType.blob_sidecar
type_of (RawEvent.data_column_sidecar raw) = EventType.data_column_sidecar
type_of (RawEvent.data_column_sidecar_gloas raw) = EventType.data_column_sidecar_gloas
type_of (RawEvent.execution_payload_envelope raw) = EventType.execution_payload_envelope
type_of (RawEvent.execution_payload_bid raw) = EventType.execution_payload_bid
type_of (RawEvent.payload_attestation_message raw) = EventType.payload_attestation_message
type_of (RawEvent.proposer_preferences raw) = EventType.proposer_preferences
type_of (RawEvent.partial_data_column raw) = EventType.partial_data_column
type_of (RawEvent.data_column_completed raw) = EventType.data_column_completed
type_of (RawEvent.partial_data_column_outcome raw) = EventType.partial_data_column_outcome

-- What the case of a type decodes.
unfoldable pub decode_message : EventType → Json → Outcome RawEvent
decode_message EventType.beacon_block message =
    map_ok RawEvent.beacon_block (decode_beacon_block message)
decode_message EventType.attestation message =
    map_ok RawEvent.attestation (decode_attestation message)
decode_message EventType.aggregate_and_proof message =
    map_ok RawEvent.aggregate_and_proof (decode_aggregate_and_proof message)
decode_message EventType.blob_sidecar message =
    map_ok RawEvent.blob_sidecar (decode_blob_sidecar message)
decode_message EventType.data_column_sidecar message =
    map_ok RawEvent.data_column_sidecar (decode_data_column_sidecar message)
decode_message EventType.data_column_sidecar_gloas message =
    map_ok RawEvent.data_column_sidecar_gloas (decode_data_column_sidecar_gloas message)
decode_message EventType.execution_payload_envelope message =
    map_ok RawEvent.execution_payload_envelope (decode_execution_payload_envelope message)
decode_message EventType.execution_payload_bid message =
    map_ok RawEvent.execution_payload_bid (decode_execution_payload_bid message)
decode_message EventType.payload_attestation_message message =
    map_ok RawEvent.payload_attestation_message (decode_payload_attestation_message message)
decode_message EventType.proposer_preferences message =
    map_ok RawEvent.proposer_preferences (decode_proposer_preferences message)
decode_message EventType.partial_data_column message =
    map_ok RawEvent.partial_data_column (decode_partial_data_column message)
decode_message EventType.data_column_completed message =
    map_ok RawEvent.data_column_completed (decode_data_column_completed message)
decode_message EventType.partial_data_column_outcome message =
    map_ok RawEvent.partial_data_column_outcome (decode_partial_data_column_outcome message)

-- The case of an event's type decodes the event from a message.
abbrev pub Decodes : RawEvent → Json → Type 0
Decodes (RawEvent.beacon_block raw) message = decode_beacon_block message ≡ ok raw
Decodes (RawEvent.attestation raw) message = decode_attestation message ≡ ok raw
Decodes (RawEvent.aggregate_and_proof raw) message = decode_aggregate_and_proof message ≡ ok raw
Decodes (RawEvent.blob_sidecar raw) message = decode_blob_sidecar message ≡ ok raw
Decodes (RawEvent.data_column_sidecar raw) message = decode_data_column_sidecar message ≡ ok raw
Decodes (RawEvent.data_column_sidecar_gloas raw) message =
    decode_data_column_sidecar_gloas message ≡ ok raw
Decodes (RawEvent.execution_payload_envelope raw) message =
    decode_execution_payload_envelope message ≡ ok raw
Decodes (RawEvent.execution_payload_bid raw) message = decode_execution_payload_bid message ≡ ok raw
Decodes (RawEvent.payload_attestation_message raw) message =
    decode_payload_attestation_message message ≡ ok raw
Decodes (RawEvent.proposer_preferences raw) message = decode_proposer_preferences message ≡ ok raw
Decodes (RawEvent.partial_data_column raw) message = decode_partial_data_column message ≡ ok raw
Decodes (RawEvent.data_column_completed raw) message = decode_data_column_completed message ≡ ok raw
Decodes (RawEvent.partial_data_column_outcome raw) message =
    decode_partial_data_column_outcome message ≡ ok raw

-- A message that an event is decoded from.
pub Decodes-decode_message :
    (event : RawEvent) (message : Json)
    → Decodes event message
    → decode_message (type_of event) message ≡ ok event
unfolding decode_message
Decodes-decode_message (RawEvent.beacon_block raw) message p = ap (map_ok RawEvent.beacon_block) p
Decodes-decode_message (RawEvent.attestation raw) message p = ap (map_ok RawEvent.attestation) p
Decodes-decode_message (RawEvent.aggregate_and_proof raw) message p =
    ap (map_ok RawEvent.aggregate_and_proof) p
Decodes-decode_message (RawEvent.blob_sidecar raw) message p = ap (map_ok RawEvent.blob_sidecar) p
Decodes-decode_message (RawEvent.data_column_sidecar raw) message p =
    ap (map_ok RawEvent.data_column_sidecar) p
Decodes-decode_message (RawEvent.data_column_sidecar_gloas raw) message p =
    ap (map_ok RawEvent.data_column_sidecar_gloas) p
Decodes-decode_message (RawEvent.execution_payload_envelope raw) message p =
    ap (map_ok RawEvent.execution_payload_envelope) p
Decodes-decode_message (RawEvent.execution_payload_bid raw) message p =
    ap (map_ok RawEvent.execution_payload_bid) p
Decodes-decode_message (RawEvent.payload_attestation_message raw) message p =
    ap (map_ok RawEvent.payload_attestation_message) p
Decodes-decode_message (RawEvent.proposer_preferences raw) message p =
    ap (map_ok RawEvent.proposer_preferences) p
Decodes-decode_message (RawEvent.partial_data_column raw) message p =
    ap (map_ok RawEvent.partial_data_column) p
Decodes-decode_message (RawEvent.data_column_completed raw) message p =
    ap (map_ok RawEvent.data_column_completed) p
Decodes-decode_message (RawEvent.partial_data_column_outcome raw) message p =
    ap (map_ok RawEvent.partial_data_column_outcome) p

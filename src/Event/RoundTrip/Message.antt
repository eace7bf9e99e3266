-- ===== src/Event/RoundTrip/Message.antt =====
-- Any raw event of pkg/event/gossipsub as the message that README.md documents for it.
use xatu_sidecar.Event.RoundTrip.Typed.{
  RawEvent, type_of, decode_message, Decodes, Decodes-decode_message,
}
use xatu_sidecar.Prelude.{◌≡◌, refl}
use xatu_sidecar.Outcome.{ok}
use xatu_sidecar.Json.{Json, object, names}
use xatu_sidecar.Json.Stored.{values, text_field-stored, unmarshal-Reads}
use xatu_sidecar.Processor.EventType.{EventType, event_type_text}
use xatu_sidecar.Sidecar.{decode_event_type}
use xatu_sidecar.Event.RoundTrip.Blocks.{
  BeaconBlockInRange, beacon_block_members, decode_beacon_block-members, AttestationInRange,
  attestation_members, decode_attestation-members, AggregateAndProofInRange,
  aggregate_and_proof_members, decode_aggregate_and_proof-members,
}
use xatu_sidecar.Event.RoundTrip.Sidecars.{
  BlobSidecarInRange, blob_sidecar_members, decode_blob_sidecar-members, DataColumnSidecarInRange,
  data_column_sidecar_members, decode_data_column_sidecar-members, DataColumnSidecarGloasInRange,
  data_column_sidecar_gloas_members, decode_data_column_sidecar_gloas-members,
}
use xatu_sidecar.Event.RoundTrip.Payloads.{
  ExecutionPayloadEnvelopeInRange, execution_payload_envelope_members,
  decode_execution_payload_envelope-members, ExecutionPayloadBidInRange,
  execution_payload_bid_members, decode_execution_payload_bid-members,
  PayloadAttestationMessageInRange, payload_attestation_message_members,
  decode_payload_attestation_message-members, ProposerPreferencesInRange,
  proposer_preferences_members, decode_proposer_preferences-members,
}
use xatu_sidecar.Event.RoundTrip.Partials.{
  PartialDataColumnInRange, partial_data_column_members, decode_partial_data_column-members,
  DataColumnCompletedInRange, data_column_completed_members, decode_data_column_completed-members,
  PartialDataColumnOutcomeInRange, partial_data_column_outcome_members,
  decode_partial_data_column_outcome-members,
}

-- Every integer is within the range of its type.
abbrev pub InRange : RawEvent → Type 0
InRange (RawEvent.beacon_block raw) = BeaconBlockInRange raw
InRange (RawEvent.attestation raw) = AttestationInRange raw
InRange (RawEvent.aggregate_and_proof raw) = AggregateAndProofInRange raw
InRange (RawEvent.blob_sidecar raw) = BlobSidecarInRange raw
InRange (RawEvent.data_column_sidecar raw) = DataColumnSidecarInRange raw
InRange (RawEvent.data_column_sidecar_gloas raw) = DataColumnSidecarGloasInRange raw
InRange (RawEvent.execution_payload_envelope raw) = ExecutionPayloadEnvelopeInRange raw
InRange (RawEvent.execution_payload_bid raw) = ExecutionPayloadBidInRange raw
InRange (RawEvent.payload_attestation_message raw) = PayloadAttestationMessageInRange raw
InRange (RawEvent.proposer_preferences raw) = ProposerPreferencesInRange raw
InRange (RawEvent.partial_data_column raw) = PartialDataColumnInRange raw
InRange (RawEvent.data_column_completed raw) = DataColumnCompletedInRange raw
InRange (RawEvent.partial_data_column_outcome raw) = PartialDataColumnOutcomeInRange raw

-- The message that README.md documents: an object of the type and the fields.
unfoldable pub message_of : RawEvent → Json
message_of (RawEvent.beacon_block raw) =
    object (beacon_block_members (event_type_text EventType.beacon_block) raw)
message_of (RawEvent.attestation raw) =
    object (attestation_members (event_type_text EventType.attestation) raw)
message_of (RawEvent.aggregate_and_proof raw) =
    object (aggregate_and_proof_members (event_type_text EventType.aggregate_and_proof) raw)
message_of (RawEvent.blob_sidecar raw) =
    object (blob_sidecar_members (event_type_text EventType.blob_sidecar) raw)
message_of (RawEvent.data_column_sidecar raw) =
    object (data_column_sidecar_members (event_type_text EventType.data_column_sidecar) raw)
message_of (RawEvent.data_column_sidecar_gloas raw) =
    object
      (data_column_sidecar_gloas_members (event_type_text EventType.data_column_sidecar_gloas) raw)
message_of (RawEvent.execution_payload_envelope raw) =
    object (
      execution_payload_envelope_members (event_type_text EventType.execution_payload_envelope) raw)
message_of (RawEvent.execution_payload_bid raw) =
    object (execution_payload_bid_members (event_type_text EventType.execution_payload_bid) raw)
message_of (RawEvent.payload_attestation_message raw) = object (
    payload_attestation_message_members (event_type_text EventType.payload_attestation_message) raw)
message_of (RawEvent.proposer_preferences raw) =
    object (proposer_preferences_members (event_type_text EventType.proposer_preferences) raw)
message_of (RawEvent.partial_data_column raw) =
    object (partial_data_column_members (event_type_text EventType.partial_data_column) raw)
message_of (RawEvent.data_column_completed raw) =
    object (data_column_completed_members (event_type_text EventType.data_column_completed) raw)
message_of (RawEvent.partial_data_column_outcome raw) = object (
    partial_data_column_outcome_members (event_type_text EventType.partial_data_column_outcome) raw)

-- Such a message is decoded by the case of its type.
pub message_of-Decodes : (event : RawEvent) → InRange event → Decodes event (message_of event)
unfolding message_of
message_of-Decodes (RawEvent.beacon_block raw) r =
    decode_beacon_block-members (event_type_text EventType.beacon_block) raw r
message_of-Decodes (RawEvent.attestation raw) r =
    decode_attestation-members (event_type_text EventType.attestation) raw r
message_of-Decodes (RawEvent.aggregate_and_proof raw) r =
    decode_aggregate_and_proof-members (event_type_text EventType.aggregate_and_proof) raw r
message_of-Decodes (RawEvent.blob_sidecar raw) r =
    decode_blob_sidecar-members (event_type_text EventType.blob_sidecar) raw r
message_of-Decodes (RawEvent.data_column_sidecar raw) r =
    decode_data_column_sidecar-members (event_type_text EventType.data_column_sidecar) raw r
message_of-Decodes (RawEvent.data_column_sidecar_gloas raw) r =
    decode_data_column_sidecar_gloas-members (event_type_text EventType.data_column_sidecar_gloas)
      raw r
message_of-Decodes (RawEvent.execution_payload_envelope raw) r =
    decode_execution_payload_envelope-members (event_type_text EventType.execution_payload_envelope)
      raw r
message_of-Decodes (RawEvent.execution_payload_bid raw) r =
    decode_execution_payload_bid-members (event_type_text EventType.execution_payload_bid) raw r
message_of-Decodes (RawEvent.payload_attestation_message raw) r =
    decode_payload_attestation_message-members
      (event_type_text EventType.payload_attestation_message) raw r
message_of-Decodes (RawEvent.proposer_preferences raw) r =
    decode_proposer_preferences-members (event_type_text EventType.proposer_preferences) raw r
message_of-Decodes (RawEvent.partial_data_column raw) r =
    decode_partial_data_column-members (event_type_text EventType.partial_data_column) raw r
message_of-Decodes (RawEvent.data_column_completed raw) r =
    decode_data_column_completed-members (event_type_text EventType.data_column_completed) raw r
message_of-Decodes (RawEvent.partial_data_column_outcome raw) r =
    decode_partial_data_column_outcome-members
      (event_type_text EventType.partial_data_column_outcome) raw r

pub message_of-type :
    (event : RawEvent) → decode_event_type (message_of event) ≡ ok (event_type_text (type_of event))
unfolding message_of decode_event_type names values beacon_block_members attestation_members
    aggregate_and_proof_members blob_sidecar_members data_column_sidecar_members
    data_column_sidecar_gloas_members execution_payload_envelope_members
    execution_payload_bid_members payload_attestation_message_members proposer_preferences_members
    partial_data_column_members data_column_completed_members partial_data_column_outcome_members
message_of-type (RawEvent.beacon_block raw) =
    unmarshal-Reads (text_field-stored "event_type" _ (event_type_text EventType.beacon_block) refl)
message_of-type (RawEvent.attestation raw) =
    unmarshal-Reads (text_field-stored "event_type" _ (event_type_text EventType.attestation) refl)
message_of-type (RawEvent.aggregate_and_proof raw) =
    unmarshal-Reads
      (text_field-stored "event_type" _ (event_type_text EventType.aggregate_and_proof) refl)
message_of-type (RawEvent.blob_sidecar raw) =
    unmarshal-Reads (text_field-stored "event_type" _ (event_type_text EventType.blob_sidecar) refl)
message_of-type (RawEvent.data_column_sidecar raw) =
    unmarshal-Reads
      (text_field-stored "event_type" _ (event_type_text EventType.data_column_sidecar) refl)
message_of-type (RawEvent.data_column_sidecar_gloas raw) =
    unmarshal-Reads
      (text_field-stored "event_type" _ (event_type_text EventType.data_column_sidecar_gloas) refl)
message_of-type (RawEvent.execution_payload_envelope raw) =
    unmarshal-Reads
      (text_field-stored "event_type" _ (event_type_text EventType.execution_payload_envelope) refl)
message_of-type (RawEvent.execution_payload_bid raw) =
    unmarshal-Reads
      (text_field-stored "event_type" _ (event_type_text EventType.execution_payload_bid) refl)
message_of-type (RawEvent.payload_attestation_message raw) =
    unmarshal-Reads (
      text_field-stored "event_type" _ (event_type_text EventType.payload_attestation_message) refl)
message_of-type (RawEvent.proposer_preferences raw) =
    unmarshal-Reads
      (text_field-stored "event_type" _ (event_type_text EventType.proposer_preferences) refl)
message_of-type (RawEvent.partial_data_column raw) =
    unmarshal-Reads
      (text_field-stored "event_type" _ (event_type_text EventType.partial_data_column) refl)
message_of-type (RawEvent.data_column_completed raw) =
    unmarshal-Reads
      (text_field-stored "event_type" _ (event_type_text EventType.data_column_completed) refl)
message_of-type (RawEvent.partial_data_column_outcome raw) =
    unmarshal-Reads (
      text_field-stored "event_type" _ (event_type_text EventType.partial_data_column_outcome) refl)

-- A message that names its type and holds the fields of a raw event of that type, integers in the
-- ranges of their types and a missing client as null, is dispatched to the type and decoded to the
-- event.
pub decode_message-message_of :
    (event : RawEvent)
    → InRange event
    → (decode_event_type (message_of event) ≡ ok (event_type_text (type_of event)))
      × (decode_message (type_of event) (message_of event) ≡ ok event)
decode_message-message_of event r = (
  message_of-type event,
  Decodes-decode_message event (message_of event) (message_of-Decodes event r),
)

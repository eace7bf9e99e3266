-- ===== src/Processor/Dispatch/Fresh.antt =====
-- What a raw event of pkg/event/gossipsub must meet to be exported by pkg/processor/handler.go.
pub mod Passing
pub mod Consensus
pub mod Message
use xatu_sidecar.Json.{Json}
use xatu_sidecar.Processor.EventType.{EventType}
use xatu_sidecar.Prelude.{ℕ, String, ◌≡◌, Bool, false, none}
use xatu_sidecar.Outcome.{
  Outcome, ok, invalid_partial_direction, invalid_partial_capture_point, invalid_completed_via,
  invalid_partial_stage, invalid_partial_outcome,
}
use xatu_sidecar.Decimal.{decimal}
use xatu_sidecar.Cache.BlockSlot.{resolve}
use xatu_sidecar.Proto.{DecoratedEvent, ClientMeta}
use xatu_sidecar.Event.Source.{Moment}
use xatu_sidecar.Event.Freshness.{too_old}
use xatu_sidecar.Event.Partial.{validate_enum, is_stale_slot}
use xatu_sidecar.Event.RoundTrip.Typed.{RawEvent, type_of, Decodes}
use xatu_sidecar.Event.BeaconBlock
use xatu_sidecar.Event.BeaconBlock.{new_beacon_block}
use xatu_sidecar.Event.Attestation
use xatu_sidecar.Event.Attestation.{new_attestation}
use xatu_sidecar.Event.AggregateAndProof
use xatu_sidecar.Event.AggregateAndProof.{new_aggregate_and_proof}
use xatu_sidecar.Event.BlobSidecar
use xatu_sidecar.Event.BlobSidecar.{new_blob_sidecar}
use xatu_sidecar.Event.DataColumnSidecar
use xatu_sidecar.Event.DataColumnSidecar.{new_data_column_sidecar}
use xatu_sidecar.Event.DataColumnSidecarGloas
use xatu_sidecar.Event.DataColumnSidecarGloas.{new_data_column_sidecar_gloas}
use xatu_sidecar.Event.ExecutionPayloadEnvelope
use xatu_sidecar.Event.ExecutionPayloadEnvelope.{new_execution_payload_envelope}
use xatu_sidecar.Event.ExecutionPayloadBid
use xatu_sidecar.Event.ExecutionPayloadBid.{new_execution_payload_bid}
use xatu_sidecar.Event.PayloadAttestationMessage
use xatu_sidecar.Event.PayloadAttestationMessage.{new_payload_attestation_message}
use xatu_sidecar.Event.ProposerPreferences
use xatu_sidecar.Event.ProposerPreferences.{new_proposer_preferences}
use xatu_sidecar.Event.PartialDataColumn
use xatu_sidecar.Event.PartialDataColumn.{new_partial_data_column}
use xatu_sidecar.Event.DataColumnCompleted
use xatu_sidecar.Event.DataColumnCompleted.{new_data_column_completed}
use xatu_sidecar.Event.PartialDataColumnOutcome
use xatu_sidecar.Event.PartialDataColumnOutcome.{new_partial_data_column_outcome}
use xatu_sidecar.Event.PartialDataColumn.{directions, capture_points}
use xatu_sidecar.Event.DataColumnCompleted.{completed_vias, completion_key}
use xatu_sidecar.Event.PartialDataColumnOutcome.{stages, outcomes}
use xatu_sidecar.Processor.Externals.{Externals}
use xatu_sidecar.Processor.Handler.{Handler, create_new_client_meta}

module _ (X : Externals) (m : Moment) where
  -- A key that a duplicate cache does not hold, for an event that is not late.
  abbrev pub Unseen : X.duplicates.Cache → String → Outcome Bool → Type 0
  Unseen c key late = (X.duplicates.item c m.dedup_at key ≡ none) × (late ≡ ok false)

  -- The same for the key that is the text of a hash.
  abbrev pub UnseenHash : X.duplicates.Cache → Outcome ℕ → Outcome Bool → Type 0
  UnseenHash c hashed late = (k : ℕ) × (hashed ≡ ok k) × Unseen c (decimal k) late

  -- The slot of an event that may lack one, from the block slot cache.
  abbrev pub slot_of : Handler X → String → ℕ → ℕ
  slot_of h block_root slot = (resolve X.slots m.resolve_at block_root slot h.block_slots).0

  -- The event has a new key and is not late, and its texts are among those allowed.
  abbrev pub Fresh : Handler X → RawEvent → Type 0
  Fresh h (RawEvent.beacon_block raw) =
      UnseenHash h.duplicate_cache.gossipsub_beacon_block (X.hash.beacon_block raw)
        (too_old h.wallclock raw.slot m.slot_at)
  Fresh h (RawEvent.attestation raw) =
      UnseenHash h.duplicate_cache.gossipsub_attestation (X.hash.attestation raw)
        (too_old h.wallclock raw.slot m.slot_at)
  Fresh h (RawEvent.aggregate_and_proof raw) =
      UnseenHash h.duplicate_cache.gossipsub_aggregate_and_proof (X.hash.aggregate_and_proof raw)
        (too_old h.wallclock raw.slot m.slot_at)
  Fresh h (RawEvent.blob_sidecar raw) =
      UnseenHash h.duplicate_cache.gossipsub_blob_sidecar (X.hash.blob_sidecar raw)
        (too_old h.wallclock raw.slot m.slot_at)
  Fresh h (RawEvent.data_column_sidecar raw) =
      UnseenHash h.duplicate_cache.gossipsub_data_column_sidecar (X.hash.data_column_sidecar raw)
        (too_old h.wallclock raw.slot m.slot_at)
  Fresh h (RawEvent.data_column_sidecar_gloas raw) =
      UnseenHash h.duplicate_cache.gossipsub_data_column_sidecar
        (X.hash.data_column_sidecar_gloas raw) (too_old h.wallclock raw.slot m.slot_at)
  Fresh h (RawEvent.execution_payload_envelope raw) =
      UnseenHash h.duplicate_cache.gossipsub_execution_payload_envelope
        (X.hash.execution_payload_envelope raw) (too_old h.wallclock raw.slot m.slot_at)
  Fresh h (RawEvent.execution_payload_bid raw) =
      UnseenHash h.duplicate_cache.gossipsub_execution_payload_bid
        (X.hash.execution_payload_bid raw) (too_old h.wallclock raw.slot m.slot_at)
  Fresh h (RawEvent.payload_attestation_message raw) =
      UnseenHash h.duplicate_cache.gossipsub_payload_attestation_message
        (X.hash.payload_attestation_message raw) (too_old h.wallclock raw.slot m.slot_at)
  Fresh h (RawEvent.proposer_preferences raw) =
      UnseenHash h.duplicate_cache.gossipsub_proposer_preferences (X.hash.proposer_preferences raw)
        (ok false)
  Fresh h (RawEvent.partial_data_column raw) =
      (validate_enum raw.direction directions invalid_partial_direction ≡ ok tt)
      × (validate_enum raw.capture_point capture_points invalid_partial_capture_point ≡ ok tt)
      × UnseenHash h.duplicate_cache.gossipsub_partial_data_column (X.hash.partial_data_column raw)
          (is_stale_slot h.wallclock (slot_of h raw.block_root raw.slot) m.slot_at)
  Fresh h (RawEvent.data_column_completed raw) =
      (validate_enum raw.completed_via completed_vias invalid_completed_via ≡ ok tt)
      × Unseen h.duplicate_cache.data_column_completed
          (completion_key raw.block_root raw.column_index)
          (is_stale_slot h.wallclock raw.slot m.slot_at)
  Fresh h (RawEvent.partial_data_column_outcome raw) =
      (validate_enum raw.stage stages invalid_partial_stage ≡ ok tt)
      × (validate_enum raw.outcome outcomes invalid_partial_outcome ≡ ok tt)
      × UnseenHash h.duplicate_cache.gossipsub_partial_data_column_outcome
          (X.hash.partial_data_column_outcome raw)
          (is_stale_slot h.wallclock (slot_of h raw.block_root raw.slot) m.slot_at)

  abbrev meta : Handler X → ClientMeta
  meta h = create_new_client_meta X h h.clock_drift

  -- The event as it goes out, built with the handler's clock drift, wallclock and client metadata.
  abbrev pub decorated : Handler X → RawEvent → Outcome DecoratedEvent
  decorated h (RawEvent.beacon_block raw) =
      BeaconBlock.decorate (new_beacon_block raw h.clock_drift h.wallclock (meta h) m.uuid)
  decorated h (RawEvent.attestation raw) =
      Attestation.decorate (new_attestation raw h.clock_drift h.wallclock (meta h) m.uuid)
  decorated h (RawEvent.aggregate_and_proof raw) =
      AggregateAndProof.decorate
        (new_aggregate_and_proof raw h.clock_drift h.wallclock (meta h) m.uuid)
  decorated h (RawEvent.blob_sidecar raw) =
      BlobSidecar.decorate (new_blob_sidecar raw h.clock_drift h.wallclock (meta h) m.uuid)
  decorated h (RawEvent.data_column_sidecar raw) =
      DataColumnSidecar.decorate
        (new_data_column_sidecar raw h.clock_drift h.wallclock (meta h) m.uuid)
  decorated h (RawEvent.data_column_sidecar_gloas raw) =
      DataColumnSidecarGloas.decorate
        (new_data_column_sidecar_gloas raw h.clock_drift h.wallclock (meta h) m.uuid)
  decorated h (RawEvent.execution_payload_envelope raw) =
      ExecutionPayloadEnvelope.decorate
        (new_execution_payload_envelope raw h.clock_drift h.wallclock (meta h) m.uuid)
  decorated h (RawEvent.execution_payload_bid raw) =
      ExecutionPayloadBid.decorate
        (new_execution_payload_bid raw h.clock_drift h.wallclock (meta h) m.uuid)
  decorated h (RawEvent.payload_attestation_message raw) =
      PayloadAttestationMessage.decorate
        (new_payload_attestation_message raw h.clock_drift h.wallclock (meta h) m.uuid)
  decorated h (RawEvent.proposer_preferences raw) =
      ProposerPreferences.decorate
        (new_proposer_preferences raw h.clock_drift h.wallclock (meta h) m.uuid)
  decorated h (RawEvent.partial_data_column raw) =
      PartialDataColumn.decorate
        (new_partial_data_column X.slots m raw h.clock_drift h.wallclock (meta h) h.block_slots).0
  decorated h (RawEvent.data_column_completed raw) =
      DataColumnCompleted.decorate
        (new_data_column_completed X.slots m raw h.clock_drift h.wallclock (meta h) h.block_slots).0
  decorated h (RawEvent.partial_data_column_outcome raw) =
      PartialDataColumnOutcome.decorate
        (new_partial_data_column_outcome X.slots m raw h.clock_drift h.wallclock (meta h)
          h.block_slots).0

  -- What goes out for a message of a type: the event decoded from it, fresh, and decorated.
  abbrev pub FreshEvent : Json → EventType → Handler X → DecoratedEvent → Type 0
  FreshEvent message t h event =
      (raw : RawEvent) × (t ≡ type_of raw)
      × Decodes raw message
      × Fresh h raw
      × (decorated h raw ≡ ok event)

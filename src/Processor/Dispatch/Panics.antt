-- ===== src/Processor/Dispatch/Panics.antt =====
-- On panics while pkg/processor/handler.go handles one raw event, and what it calls.
pub mod Consensus
pub mod RawEvent
use xatu_sidecar.Json.{Json}
use xatu_sidecar.Event.Decoding.{
  decode_aggregate_and_proof, decode_attestation, decode_beacon_block, decode_blob_sidecar,
  decode_data_column_completed, decode_data_column_sidecar, decode_data_column_sidecar_gloas,
  decode_execution_payload_bid, decode_execution_payload_envelope, decode_partial_data_column,
  decode_partial_data_column_outcome, decode_payload_attestation_message,
  decode_proposer_preferences,
}
use xatu_sidecar.Prelude.{refl, ap, Bool, true, false}
use xatu_sidecar.Outcome.{unsupported_event_type, Outcome, ok, err, panic, Method, continue}
use xatu_sidecar.Cache.Field
use xatu_sidecar.Cache.Field.{CacheField}
use xatu_sidecar.Proto.{DecoratedEvent}
use xatu_sidecar.Event.Source.{Moment}
use xatu_sidecar.Event.Returning.{Returns, Answers}
use xatu_sidecar.Event.Returning.Blocks
use xatu_sidecar.Event.Returning.Payloads
use xatu_sidecar.Event.Returning.Partials
use xatu_sidecar.Event.BeaconBlock
use xatu_sidecar.Event.Attestation
use xatu_sidecar.Event.AggregateAndProof
use xatu_sidecar.Event.BlobSidecar
use xatu_sidecar.Event.DataColumnSidecar
use xatu_sidecar.Event.DataColumnSidecarGloas
use xatu_sidecar.Event.ExecutionPayloadEnvelope
use xatu_sidecar.Event.ExecutionPayloadBid
use xatu_sidecar.Event.PayloadAttestationMessage
use xatu_sidecar.Event.ProposerPreferences
use xatu_sidecar.Event.PartialDataColumn
use xatu_sidecar.Event.DataColumnCompleted
use xatu_sidecar.Event.PartialDataColumnOutcome
use xatu_sidecar.Processor.EventType.{EventType, event_type?}
use xatu_sidecar.Processor.Externals.{Externals}
use xatu_sidecar.Processor.Handler.{
  Handler, create_new_client_meta, handle_new_decorated_event, export_unless, export_event,
}
use xatu_sidecar.Processor.Handler.Delivery.{CalmSinks, handle_new_decorated_event_all}
use xatu_sidecar.Processor.Dispatch.{
  handle_beacon_block, handle_attestation, handle_aggregate_and_proof, handle_blob_sidecar,
  handle_data_column_sidecar, handle_data_column_sidecar_gloas, handle_execution_payload_envelope,
  handle_execution_payload_bid, handle_payload_attestation_message, handle_proposer_preferences,
  handle_partial_data_column, handle_data_column_completed, handle_partial_data_column_outcome,
  handle, handle_raw_event,
}

pub continue-Returns :
    {S A B : Type 0} (o : Outcome A) (s : S) (f : A → Method S B)
    → Returns o
    → ((a : A) → Returns (f a s).0)
    → Returns (continue (o, s) f).0
continue-Returns (ok a) s f r k = k a
continue-Returns (err e) s f r k = λ q. cc q
continue-Returns panic s f r k = absurd (r refl)

-- The hashes and the sinks end without a panic.
pub record Answering (X : Externals) : Type 0 where
  pub calm : CalmSinks X
  pub hash_beacon_block : (raw : BeaconBlock.RawBeaconBlock) → Returns (X.hash.beacon_block raw)
  pub hash_attestation : (raw : Attestation.RawAttestation) → Returns (X.hash.attestation raw)
  pub hash_aggregate_and_proof :
      (raw : AggregateAndProof.RawAggregateAndProof) → Returns (X.hash.aggregate_and_proof raw)
  pub hash_blob_sidecar : (raw : BlobSidecar.RawBlobSidecar) → Returns (X.hash.blob_sidecar raw)
  pub hash_data_column_sidecar :
      (raw : DataColumnSidecar.RawDataColumnSidecar) → Returns (X.hash.data_column_sidecar raw)
  pub hash_data_column_sidecar_gloas :
      (raw : DataColumnSidecarGloas.RawDataColumnSidecarGloas)
      → Returns (X.hash.data_column_sidecar_gloas raw)
  pub hash_execution_payload_envelope :
      (raw : ExecutionPayloadEnvelope.RawExecutionPayloadEnvelope)
      → Returns (X.hash.execution_payload_envelope raw)
  pub hash_execution_payload_bid :
      (raw : ExecutionPayloadBid.RawExecutionPayloadBid)
      → Returns (X.hash.execution_payload_bid raw)
  pub hash_payload_attestation_message :
      (raw : PayloadAttestationMessage.RawPayloadAttestationMessage)
      → Returns (X.hash.payload_attestation_message raw)
  pub hash_proposer_preferences :
      (raw : ProposerPreferences.RawProposerPreferences) → Returns (X.hash.proposer_preferences raw)
  pub hash_partial_data_column :
      (raw : PartialDataColumn.RawPartialDataColumn) → Returns (X.hash.partial_data_column raw)
  pub hash_partial_data_column_outcome :
      (raw : PartialDataColumnOutcome.RawPartialDataColumnOutcome)
      → Returns (X.hash.partial_data_column_outcome raw)

module _ (X : Externals) (quiet : Answering X) where
  exported-Returns :
      (event : DecoratedEvent) (h : Handler X) → Returns (handle_new_decorated_event X event h).0
  exported-Returns event h q =
      let all = handle_new_decorated_event_all X quiet.calm event h in
      let result = ap (λ (r : Outcome (Unit {0}) × Handler X). r.0) all in cc (result, q)

  pub export_event-Returns :
      (field : CacheField X.duplicates) (m : Method X.duplicates.Cache Bool)
      (decorated : Outcome DecoratedEvent) (h : Handler X)
      → Returns (m (field.get h.duplicate_cache)).0
      → Returns decorated
      → Returns (export_event X field m decorated h).0
  unfolding export_event
  export_event-Returns field m decorated h r d =
      let c = (m (field.get h.duplicate_cache)).1 in
      let h' : Handler X = record h { duplicate_cache = field.put c h.duplicate_cache } in
      continue-Returns (m (field.get h.duplicate_cache)).0 h'
        (λ ignore. export_unless X ignore decorated) r (λ ignore. unless ignore h')
    where
      unless : (ignore : Bool) (h' : Handler X) → Returns (export_unless X ignore decorated h').0
      unless true h' = λ q. cc q
      unless false h' =
          continue-Returns decorated h' (handle_new_decorated_event X) d
            (λ event. exported-Returns event h')

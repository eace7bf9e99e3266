-- ===== src/Processor/Dispatch/Panics/RawEvent.antt =====
-- The cases of the partial data column events in `HandleRawEvent` of pkg/processor/handler.go, and
-- the function as a whole.
use xatu_sidecar.Event.Decoding.Returning.{
  decode_data_column_completed-Returns, decode_partial_data_column-Returns,
  decode_partial_data_column_outcome-Returns,
}
use xatu_sidecar.Json.{Json}
use xatu_sidecar.Event.Decoding.{
  decode_data_column_completed, decode_partial_data_column, decode_partial_data_column_outcome,
}
use xatu_sidecar.Prelude.{String, refl, Option, none, some}
use xatu_sidecar.Outcome.{unsupported_event_type, Outcome, err}
use xatu_sidecar.Cache.Field
use xatu_sidecar.Cache.Field.{CacheField}
use xatu_sidecar.Event.Source.{Moment}
use xatu_sidecar.Event.Returning.{Returns, Answers}
use xatu_sidecar.Event.Returning.Partials
use xatu_sidecar.Event.PartialDataColumn
use xatu_sidecar.Event.DataColumnCompleted
use xatu_sidecar.Event.PartialDataColumnOutcome
use xatu_sidecar.Processor.EventType.{EventType, event_type?}
use xatu_sidecar.Processor.Externals.{Externals}
use xatu_sidecar.Processor.Handler.{Handler, create_new_client_meta}
use xatu_sidecar.Processor.Dispatch.{
  handle_partial_data_column, handle_data_column_completed, handle_partial_data_column_outcome,
  handle, handle_raw_event,
}
use xatu_sidecar.Processor.Dispatch.Panics.{Answering, continue-Returns, export_event-Returns}
use xatu_sidecar.Processor.Dispatch.Panics.Consensus.{
  handle_beacon_block-Returns, handle_attestation-Returns, handle_aggregate_and_proof-Returns,
  handle_blob_sidecar-Returns, handle_data_column_sidecar-Returns,
  handle_data_column_sidecar_gloas-Returns, handle_execution_payload_envelope-Returns,
  handle_execution_payload_bid-Returns, handle_payload_attestation_message-Returns,
  handle_proposer_preferences-Returns,
}

module _ (X : Externals) (quiet : Answering X) where
  pub handle_partial_data_column-Returns :
      (m : Moment) (message : Json) (h : Handler X)
      → Answers h.wallclock
      → Returns (handle_partial_data_column X m message h).0
  unfolding handle_partial_data_column PartialDataColumn.new_partial_data_column
  handle_partial_data_column-Returns m message h a =
      continue-Returns (decode_partial_data_column message) h _
        (decode_partial_data_column-Returns message)
        λ raw.
          let event =
            (PartialDataColumn.new_partial_data_column X.slots m raw h.clock_drift h.wallclock
              (create_new_client_meta X h h.clock_drift) h.block_slots).0 in
          export_event-Returns X quiet (Field.gossipsub_partial_data_column X.duplicates)
            (PartialDataColumn.should_ignore X.duplicates X.hash.partial_data_column m event)
            (PartialDataColumn.decorate event) _
            (Partials.partial_data_column-should_ignore-Returns X.duplicates
              X.hash.partial_data_column m event raw _ refl a (quiet.hash_partial_data_column raw))
            (Partials.partial_data_column-decorate-Returns event raw refl a)

  pub handle_data_column_completed-Returns :
      (m : Moment) (message : Json) (h : Handler X)
      → Answers h.wallclock
      → Returns (handle_data_column_completed X m message h).0
  unfolding handle_data_column_completed DataColumnCompleted.new_data_column_completed
  handle_data_column_completed-Returns m message h a =
      continue-Returns (decode_data_column_completed message) h _
        (decode_data_column_completed-Returns message)
        λ raw.
          let event =
            (DataColumnCompleted.new_data_column_completed X.slots m raw h.clock_drift h.wallclock
              (create_new_client_meta X h h.clock_drift) h.block_slots).0 in
          export_event-Returns X quiet (Field.data_column_completed X.duplicates)
            (DataColumnCompleted.should_ignore X.duplicates m event)
            (DataColumnCompleted.decorate event) _
            (Partials.data_column_completed-should_ignore-Returns X.duplicates m event raw _ refl a)
            (Partials.data_column_completed-decorate-Returns event raw refl a)

  pub handle_partial_data_column_outcome-Returns :
      (m : Moment) (message : Json) (h : Handler X)
      → Answers h.wallclock
      → Returns (handle_partial_data_column_outcome X m message h).0
  unfolding handle_partial_data_column_outcome
      PartialDataColumnOutcome.new_partial_data_column_outcome
  handle_partial_data_column_outcome-Returns m message h a =
      continue-Returns (decode_partial_data_column_outcome message) h _
        (decode_partial_data_column_outcome-Returns message)
        λ raw.
          let event =
            (PartialDataColumnOutcome.new_partial_data_column_outcome X.slots m raw h.clock_drift
              h.wallclock (create_new_client_meta X h h.clock_drift) h.block_slots).0 in
          export_event-Returns X quiet (Field.gossipsub_partial_data_column_outcome X.duplicates)
            (PartialDataColumnOutcome.should_ignore X.duplicates X.hash.partial_data_column_outcome
              m event)
            (PartialDataColumnOutcome.decorate event) _
            (Partials.partial_data_column_outcome-should_ignore-Returns X.duplicates
              X.hash.partial_data_column_outcome m event raw _ refl a
              (quiet.hash_partial_data_column_outcome raw))
            (Partials.partial_data_column_outcome-decorate-Returns event raw refl a)

  handle-Returns :
      (t : EventType) (m : Moment) (message : Json) (h : Handler X)
      → Answers h.wallclock
      → Returns (handle X t m message h).0
  unfolding handle
  handle-Returns EventType.beacon_block m message h a =
      handle_beacon_block-Returns X quiet m message h a
  handle-Returns EventType.attestation m message h a =
      handle_attestation-Returns X quiet m message h a
  handle-Returns EventType.aggregate_and_proof m message h a =
      handle_aggregate_and_proof-Returns X quiet m message h a
  handle-Returns EventType.blob_sidecar m message h a =
      handle_blob_sidecar-Returns X quiet m message h a
  handle-Returns EventType.data_column_sidecar m message h a =
      handle_data_column_sidecar-Returns X quiet m message h a
  handle-Returns EventType.data_column_sidecar_gloas m message h a =
      handle_data_column_sidecar_gloas-Returns X quiet m message h a
  handle-Returns EventType.execution_payload_envelope m message h a =
      handle_execution_payload_envelope-Returns X quiet m message h a
  handle-Returns EventType.execution_payload_bid m message h a =
      handle_execution_payload_bid-Returns X quiet m message h a
  handle-Returns EventType.payload_attestation_message m message h a =
      handle_payload_attestation_message-Returns X quiet m message h a
  handle-Returns EventType.proposer_preferences m message h a =
      handle_proposer_preferences-Returns X quiet m message h a
  handle-Returns EventType.partial_data_column m message h a =
      handle_partial_data_column-Returns m message h a
  handle-Returns EventType.data_column_completed m message h a =
      handle_data_column_completed-Returns m message h a
  handle-Returns EventType.partial_data_column_outcome m message h a =
      handle_partial_data_column_outcome-Returns m message h a

  -- A raw event, whatever its type and message, is handled without a panic if the hashes,
  -- the sinks and the beacon chain clock do not panic: every failure is an error.
  pub handle_raw_event-Returns :
      (m : Moment) (message : Json) (text : String) (h : Handler X)
      → Answers h.wallclock
      → Returns (handle_raw_event X m message text h).0
  unfolding handle_raw_event
  handle_raw_event-Returns m message text h a = go (event_type? text)
    where
      run : Option EventType → Outcome (Unit {0}) × Handler X
      run o = elim o [ some t ↦ handle X t m message h | none ↦ (err unsupported_event_type, h) ]

      go : (o : Option EventType) → Returns (run o).0
      go none = λ q. cc q
      go (some t) = handle-Returns t m message h a

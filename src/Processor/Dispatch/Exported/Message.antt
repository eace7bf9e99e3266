-- ===== src/Processor/Dispatch/Exported/Message.antt =====
-- When a message of any event of pkg/event/gossipsub is exported.
use xatu_sidecar.Prelude.{String, ◌≡◌, refl, Bool, false}
use xatu_sidecar.Json.{Json}
use xatu_sidecar.Outcome.{Outcome, ok}
use xatu_sidecar.Decimal.{decimal}
use xatu_sidecar.Ttl.{TtlLaws}
use xatu_sidecar.Cache.Field
use xatu_sidecar.Cache.Field.{CacheField}
use xatu_sidecar.Proto.{DecoratedEvent}
use xatu_sidecar.Prelude.Int.{ℤ}
use xatu_sidecar.Event.Source.{Moment}
use xatu_sidecar.Event.Freshness.{ignore_duplicate}
use xatu_sidecar.Event.RoundTrip.Typed.{Decodes, RawEvent, type_of}
use xatu_sidecar.Event.PartialDataColumn
use xatu_sidecar.Event.PartialDataColumn.{RawPartialDataColumn, new_partial_data_column}
use xatu_sidecar.Event.DataColumnCompleted
use xatu_sidecar.Event.DataColumnCompleted.{RawDataColumnCompleted, new_data_column_completed}
use xatu_sidecar.Event.PartialDataColumnOutcome
use xatu_sidecar.Event.PartialDataColumnOutcome.{
  RawPartialDataColumnOutcome, new_partial_data_column_outcome,
}
use xatu_sidecar.Processor.Externals.{Externals}
use xatu_sidecar.Processor.Handler.{Handler, create_new_client_meta}
use xatu_sidecar.Processor.Handler.Delivery.{CalmSinks}
use xatu_sidecar.Processor.Dispatch.Fresh.{Unseen, Fresh, decorated}
use xatu_sidecar.Processor.Dispatch.Exported.{Sent, export_event-Sent}
use xatu_sidecar.Processor.Dispatch.Exported.Consensus.{
  handle_beacon_block-Sent, handle_attestation-Sent, handle_aggregate_and_proof-Sent,
  handle_blob_sidecar-Sent, handle_data_column_sidecar-Sent, handle_data_column_sidecar_gloas-Sent,
  handle_execution_payload_envelope-Sent, handle_execution_payload_bid-Sent,
  handle_payload_attestation_message-Sent, handle_proposer_preferences-Sent,
}
use xatu_sidecar.Processor.Dispatch.{
  handle_partial_data_column, handle_data_column_completed, handle_partial_data_column_outcome,
  handle,
}

module _ (X : Externals) (laws : TtlLaws X.duplicates) (calm : CalmSinks X) where
  -- A key that is new leaves the answer to the last test.
  ignore_duplicate-new :
      (m : Moment) (key : String) (now : ℤ) (late : Outcome Bool) (c : X.duplicates.Cache)
      → Unseen X m c key late
      → (ignore_duplicate X.duplicates m.dedup_at key now late c).0 ≡ ok false
  unfolding ignore_duplicate
  ignore_duplicate-new m key now late c (new, p) =
      let miss = (laws.get_or_set_miss m.dedup_at key now c new).1 in rw (miss, p) refl

  handle_partial_data_column-Sent :
      (m : Moment) (message : Json) (h : Handler X) (raw : RawPartialDataColumn)
      (event : DecoratedEvent)
      → Decodes (RawEvent.partial_data_column raw) message
      → Fresh X m h (RawEvent.partial_data_column raw)
      → decorated X m h (RawEvent.partial_data_column raw) ≡ ok event
      → Sent X event h (handle_partial_data_column X m message h)
  unfolding handle_partial_data_column PartialDataColumn.should_ignore
      PartialDataColumn.new_partial_data_column
  handle_partial_data_column-Sent m message h raw event p (v, w, (k, q, new)) d =
      let (e, c) =
        new_partial_data_column X.slots m raw h.clock_drift h.wallclock
          (create_new_client_meta X h h.clock_drift) h.block_slots in
      let passes =
        ignore_duplicate-new m (decimal k) e.now _ h.duplicate_cache.gossipsub_partial_data_column
          new in
      rw p (
        export_event-Sent X calm (Field.gossipsub_partial_data_column X.duplicates)
          (PartialDataColumn.should_ignore X.duplicates X.hash.partial_data_column m e) _ event
          (record h { block_slots = c }) (rw (v, w, q) passes) d)

  handle_data_column_completed-Sent :
      (m : Moment) (message : Json) (h : Handler X) (raw : RawDataColumnCompleted)
      (event : DecoratedEvent)
      → Decodes (RawEvent.data_column_completed raw) message
      → Fresh X m h (RawEvent.data_column_completed raw)
      → decorated X m h (RawEvent.data_column_completed raw) ≡ ok event
      → Sent X event h (handle_data_column_completed X m message h)
  unfolding handle_data_column_completed DataColumnCompleted.should_ignore
      DataColumnCompleted.new_data_column_completed
  handle_data_column_completed-Sent m message h raw event p (v, new) d =
      let (e, c) =
        new_data_column_completed X.slots m raw h.clock_drift h.wallclock
          (create_new_client_meta X h h.clock_drift) h.block_slots in
      let passes = ignore_duplicate-new m _ e.now _ h.duplicate_cache.data_column_completed new in
      rw p (
        export_event-Sent X calm (Field.data_column_completed X.duplicates)
          (DataColumnCompleted.should_ignore X.duplicates m e) _ event
          (record h { block_slots = c }) (rw v passes) d)

  handle_partial_data_column_outcome-Sent :
      (m : Moment) (message : Json) (h : Handler X) (raw : RawPartialDataColumnOutcome)
      (event : DecoratedEvent)
      → Decodes (RawEvent.partial_data_column_outcome raw) message
      → Fresh X m h (RawEvent.partial_data_column_outcome raw)
      → decorated X m h (RawEvent.partial_data_column_outcome raw) ≡ ok event
      → Sent X event h (handle_partial_data_column_outcome X m message h)
  unfolding handle_partial_data_column_outcome PartialDataColumnOutcome.should_ignore
      PartialDataColumnOutcome.new_partial_data_column_outcome
  handle_partial_data_column_outcome-Sent m message h raw event p (v, w, (k, q, new)) d =
      let (e, c) =
        new_partial_data_column_outcome X.slots m raw h.clock_drift h.wallclock
          (create_new_client_meta X h h.clock_drift) h.block_slots in
      let passes =
        ignore_duplicate-new m (decimal k) e.now _
          h.duplicate_cache.gossipsub_partial_data_column_outcome new in
      rw p (
        export_event-Sent X calm (Field.gossipsub_partial_data_column_outcome X.duplicates)
          (PartialDataColumnOutcome.should_ignore X.duplicates X.hash.partial_data_column_outcome m
            e)
          _ event (record h { block_slots = c }) (rw (v, w, q) passes) d)

  pub handle-Sent :
      (m : Moment) (message : Json) (h : Handler X) (raw : RawEvent) (event : DecoratedEvent)
      → Decodes raw message
      → Fresh X m h raw
      → decorated X m h raw ≡ ok event
      → Sent X event h (handle X (type_of raw) m message h)
  unfolding handle
  handle-Sent m message h (RawEvent.beacon_block raw) event p fresh d =
      handle_beacon_block-Sent X laws calm m message h raw event p fresh d
  handle-Sent m message h (RawEvent.attestation raw) event p fresh d =
      handle_attestation-Sent X laws calm m message h raw event p fresh d
  handle-Sent m message h (RawEvent.aggregate_and_proof raw) event p fresh d =
      handle_aggregate_and_proof-Sent X laws calm m message h raw event p fresh d
  handle-Sent m message h (RawEvent.blob_sidecar raw) event p fresh d =
      handle_blob_sidecar-Sent X laws calm m message h raw event p fresh d
  handle-Sent m message h (RawEvent.data_column_sidecar raw) event p fresh d =
      handle_data_column_sidecar-Sent X laws calm m message h raw event p fresh d
  handle-Sent m message h (RawEvent.data_column_sidecar_gloas raw) event p fresh d =
      handle_data_column_sidecar_gloas-Sent X laws calm m message h raw event p fresh d
  handle-Sent m message h (RawEvent.execution_payload_envelope raw) event p fresh d =
      handle_execution_payload_envelope-Sent X laws calm m message h raw event p fresh d
  handle-Sent m message h (RawEvent.execution_payload_bid raw) event p fresh d =
      handle_execution_payload_bid-Sent X laws calm m message h raw event p fresh d
  handle-Sent m message h (RawEvent.payload_attestation_message raw) event p fresh d =
      handle_payload_attestation_message-Sent X laws calm m message h raw event p fresh d
  handle-Sent m message h (RawEvent.proposer_preferences raw) event p fresh d =
      handle_proposer_preferences-Sent X laws calm m message h raw event p fresh d
  handle-Sent m message h (RawEvent.partial_data_column raw) event p fresh d =
      handle_partial_data_column-Sent m message h raw event p fresh d
  handle-Sent m message h (RawEvent.data_column_completed raw) event p fresh d =
      handle_data_column_completed-Sent m message h raw event p fresh d
  handle-Sent m message h (RawEvent.partial_data_column_outcome raw) event p fresh d =
      handle_partial_data_column_outcome-Sent m message h raw event p fresh d

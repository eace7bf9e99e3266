-- ===== src/Processor/Dispatch/Twice/Handled.antt =====
-- A message handled twice by pkg/processor/handler.go: the partial data column
-- events, and the switch as a whole.
use xatu_sidecar.Json.{Json}
use xatu_sidecar.Event.Decoding.{
  decode_data_column_completed, decode_partial_data_column, decode_partial_data_column_outcome,
}
use xatu_sidecar.Prelude.{refl}
use xatu_sidecar.Ttl.{TtlLaws}
use xatu_sidecar.Cache.Field
use xatu_sidecar.Cache.Field.{CacheField}
use xatu_sidecar.Event.Source.{Moment}
use xatu_sidecar.Event.Again
use xatu_sidecar.Event.PartialDataColumn
use xatu_sidecar.Event.DataColumnCompleted
use xatu_sidecar.Event.PartialDataColumnOutcome
use xatu_sidecar.Processor.Externals.{Externals}
use xatu_sidecar.Processor.EventType.{EventType}
use xatu_sidecar.Processor.Handler.{Handler}
use xatu_sidecar.Processor.Dispatch.{
  handle_partial_data_column, handle_data_column_completed, handle_partial_data_column_outcome,
  handle,
}
use xatu_sidecar.Processor.Dispatch.Twice.{Quiet, continue-Quiet, exports-Quiet, InTermFor}
use xatu_sidecar.Processor.Dispatch.Twice.Consensus.{
  handle_beacon_block-Quiet, handle_attestation-Quiet, handle_aggregate_and_proof-Quiet,
  handle_blob_sidecar-Quiet, handle_data_column_sidecar-Quiet,
  handle_data_column_sidecar_gloas-Quiet, handle_execution_payload_envelope-Quiet,
  handle_execution_payload_bid-Quiet, handle_payload_attestation_message-Quiet,
  handle_proposer_preferences-Quiet,
}

module _ (X : Externals) (laws : TtlLaws X.duplicates) where
  handle_partial_data_column-Quiet :
      (m n : Moment) (message : Json) (h : Handler X)
      → InTermFor X laws EventType.partial_data_column m n h
      → Quiet X
          (handle_partial_data_column X m message h).1
          (handle_partial_data_column X n message (handle_partial_data_column X m message h).1)
  unfolding handle_partial_data_column PartialDataColumn.new_partial_data_column
  handle_partial_data_column-Quiet m n message h i =
      continue-Quiet X (decode_partial_data_column message) _ _ h λ raw _.
        exports-Quiet X (Field.gossipsub_partial_data_column X.duplicates) _ _ _ _ _ _ (λ c d. refl)
          (Again.partial_data_column-Stopped X.duplicates laws m n _ X.hash.partial_data_column _ _
            raw refl refl i)

  handle_data_column_completed-Quiet :
      (m n : Moment) (message : Json) (h : Handler X)
      → InTermFor X laws EventType.data_column_completed m n h
      → Quiet X
          (handle_data_column_completed X m message h).1
          (handle_data_column_completed X n message (handle_data_column_completed X m message h).1)
  unfolding handle_data_column_completed DataColumnCompleted.new_data_column_completed
  handle_data_column_completed-Quiet m n message h i =
      continue-Quiet X (decode_data_column_completed message) _ _ h λ raw _.
        exports-Quiet X (Field.data_column_completed X.duplicates) _ _ _ _ _ _ (λ c d. refl)
          (Again.data_column_completed-Stopped X.duplicates laws m n _ _ _ raw refl refl i)

  handle_partial_data_column_outcome-Quiet :
      (m n : Moment) (message : Json) (h : Handler X)
      → InTermFor X laws EventType.partial_data_column_outcome m n h
      → Quiet X (handle_partial_data_column_outcome X m message h).1 (
          handle_partial_data_column_outcome X n message
            (handle_partial_data_column_outcome X m message h).1)
  unfolding handle_partial_data_column_outcome
      PartialDataColumnOutcome.new_partial_data_column_outcome
  handle_partial_data_column_outcome-Quiet m n message h i =
      continue-Quiet X (decode_partial_data_column_outcome message) _ _ h λ raw _.
        exports-Quiet X (Field.gossipsub_partial_data_column_outcome X.duplicates) _ _ _ _ _ _
          (λ c d. refl)
          (Again.partial_data_column_outcome-Stopped X.duplicates laws m n _
            X.hash.partial_data_column_outcome _ _ raw refl refl i)

  -- If the duplicate cache of a type of event renews terms on hits, a message of the type that is
  -- handled a second time, at most the cache's time to live after the first, is not counted and
  -- reaches no sink then, however the first handling ended: decoded or not, exported, ignored, failed
  -- or panicked.
  pub handle_twice :
      (t : EventType) (m n : Moment) (message : Json) (h : Handler X)
      → InTermFor X laws t m n h
      → Quiet X (handle X t m message h).1 (handle X t n message (handle X t m message h).1)
  unfolding handle
  handle_twice EventType.beacon_block m n message h i =
      handle_beacon_block-Quiet X laws m n message h i
  handle_twice EventType.attestation m n message h i =
      handle_attestation-Quiet X laws m n message h i
  handle_twice EventType.aggregate_and_proof m n message h i =
      handle_aggregate_and_proof-Quiet X laws m n message h i
  handle_twice EventType.blob_sidecar m n message h i =
      handle_blob_sidecar-Quiet X laws m n message h i
  handle_twice EventType.data_column_sidecar m n message h i =
      handle_data_column_sidecar-Quiet X laws m n message h i
  handle_twice EventType.data_column_sidecar_gloas m n message h i =
      handle_data_column_sidecar_gloas-Quiet X laws m n message h i
  handle_twice EventType.execution_payload_envelope m n message h i =
      handle_execution_payload_envelope-Quiet X laws m n message h i
  handle_twice EventType.execution_payload_bid m n message h i =
      handle_execution_payload_bid-Quiet X laws m n message h i
  handle_twice EventType.payload_attestation_message m n message h i =
      handle_payload_attestation_message-Quiet X laws m n message h i
  handle_twice EventType.proposer_preferences m n message h i =
      handle_proposer_preferences-Quiet X laws m n message h i
  handle_twice EventType.partial_data_column m n message h i =
      handle_partial_data_column-Quiet m n message h i
  handle_twice EventType.data_column_completed m n message h i =
      handle_data_column_completed-Quiet m n message h i
  handle_twice EventType.partial_data_column_outcome m n message h i =
      handle_partial_data_column_outcome-Quiet m n message h i

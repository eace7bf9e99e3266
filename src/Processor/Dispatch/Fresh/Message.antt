-- ===== src/Processor/Dispatch/Fresh/Message.antt =====
-- Which events `HandleRawEvent` of pkg/processor/handler.go exports: the partial data column events,
-- and the function as a whole.
use xatu_sidecar.Prelude.{ℕ, String, ◌≡◌, refl, ap, ◌∙◌, inl, inr, Bool, false, Option, none, some}
use xatu_sidecar.Prelude.Int.{ℤ}
use xatu_sidecar.Json.{Json}
use xatu_sidecar.Outcome.{
  Outcome, ok, err, Method, unsupported_event_type, continue, invalid_partial_direction,
  invalid_partial_capture_point, invalid_completed_via, invalid_partial_stage,
  invalid_partial_outcome,
}
use xatu_sidecar.Decimal.{decimal}
use xatu_sidecar.Ttl.{TtlLaws}
use xatu_sidecar.Cache.Field
use xatu_sidecar.Cache.Field.{CacheField}
use xatu_sidecar.Proto.{DecoratedEvent}
use xatu_sidecar.Event.Source.{Moment}
use xatu_sidecar.Event.Freshness.{ignore_duplicate}
use xatu_sidecar.Event.Partial.{validate_enum}
use xatu_sidecar.Event.RoundTrip.Typed.{RawEvent, type_of, Decodes}
use xatu_sidecar.Event.Decoding.{
  decode_partial_data_column, decode_data_column_completed, decode_partial_data_column_outcome,
}
use xatu_sidecar.Event.PartialDataColumn
use xatu_sidecar.Event.PartialDataColumn.{
  RawPartialDataColumn, new_partial_data_column, directions, capture_points,
}
use xatu_sidecar.Event.DataColumnCompleted
use xatu_sidecar.Event.DataColumnCompleted.{
  RawDataColumnCompleted, new_data_column_completed, completed_vias, completion_key,
}
use xatu_sidecar.Event.PartialDataColumnOutcome
use xatu_sidecar.Event.PartialDataColumnOutcome.{
  RawPartialDataColumnOutcome, new_partial_data_column_outcome, stages, outcomes,
}
use xatu_sidecar.Processor.Externals.{Externals}
use xatu_sidecar.Processor.EventType.{EventType, event_type?, event_type_text, event_type?_iff}
use xatu_sidecar.Processor.Handler.{Handler}
use xatu_sidecar.Processor.Handler.Delivery.{CalmSinks}
use xatu_sidecar.Processor.Dispatch.Effect.{Effect, continue-Effect, export_event-Passed}
use xatu_sidecar.Processor.Dispatch.Fresh.{UnseenHash, Fresh, decorated, FreshEvent}
use xatu_sidecar.Processor.Dispatch.Fresh.Passing.{continue-passes, ignore_duplicate-Unseen}
use xatu_sidecar.Processor.Dispatch.Fresh.Consensus.{
  handle_beacon_block-Fresh, handle_attestation-Fresh, handle_aggregate_and_proof-Fresh,
  handle_blob_sidecar-Fresh, handle_data_column_sidecar-Fresh,
  handle_data_column_sidecar_gloas-Fresh, handle_execution_payload_envelope-Fresh,
  handle_execution_payload_bid-Fresh, handle_payload_attestation_message-Fresh,
  handle_proposer_preferences-Fresh,
}
use xatu_sidecar.Processor.Dispatch.{
  handle_partial_data_column, handle_data_column_completed, handle_partial_data_column_outcome,
  handle, handle_raw_event,
}

module _ (X : Externals) (laws : TtlLaws X.duplicates) (calm : CalmSinks X) where
  abbrev by_key : Moment → ℤ → Outcome Bool → String → Method X.duplicates.Cache Bool
  by_key m now late key = ignore_duplicate X.duplicates m.dedup_at key now late

  -- Two checks of texts, then the test by the hash.
  validated-UnseenHash :
      (m : Moment) (v w : Outcome (Unit {0})) (hashed : Outcome ℕ) (now : ℤ) (late : Outcome Bool)
      (c : X.duplicates.Cache)
      → (continue
          (v, c)
          λ _ c'.
            continue (w, c') λ _ c''. continue (hashed, c'') λ k. by_key m now late (decimal k)).0
        ≡ ok false
      → (v ≡ ok tt) × (w ≡ ok tt) × UnseenHash X m c hashed late
  validated-UnseenHash m v w hashed now late c p =
      let (_, e, p') =
        continue-passes v
          (λ _ c'.
            continue (w, c') λ _ c''. continue (hashed, c'') λ k. by_key m now late (decimal k))
          c p in
      let (_, f, q) =
        continue-passes w (λ _ c''. continue (hashed, c'') λ k. by_key m now late (decimal k)) c
          p' in
      let (k, g, r) = continue-passes hashed (λ k. by_key m now late (decimal k)) c q in
      (e, f, (k, g, ignore_duplicate-Unseen X laws m (decimal k) now late c r))

  handle_partial_data_column-Fresh :
      (m : Moment) (message : Json) (h : Handler X)
      → Effect X
          (FreshEvent X m message EventType.partial_data_column h)
          h
          (handle_partial_data_column X m message h)
  unfolding handle_partial_data_column PartialDataColumn.should_ignore
      PartialDataColumn.new_partial_data_column
  handle_partial_data_column-Fresh m message h =
      continue-Effect X _ h (decode_partial_data_column message) _ λ raw decoded.
        export_event-Passed X calm _ (Field.gossipsub_partial_data_column X.duplicates) _ _ _
          λ passed event d. (
            RawEvent.partial_data_column raw,
            refl,
            decoded,
            validated-UnseenHash m
                (validate_enum raw.direction directions invalid_partial_direction)
                (validate_enum raw.capture_point capture_points invalid_partial_capture_point)
                (X.hash.partial_data_column raw) _ _ h.duplicate_cache.gossipsub_partial_data_column
                passed,
            d,
          )

  handle_data_column_completed-Fresh :
      (m : Moment) (message : Json) (h : Handler X)
      → Effect X
          (FreshEvent X m message EventType.data_column_completed h)
          h
          (handle_data_column_completed X m message h)
  unfolding handle_data_column_completed DataColumnCompleted.should_ignore
      DataColumnCompleted.new_data_column_completed
  handle_data_column_completed-Fresh m message h =
      continue-Effect X _ h (decode_data_column_completed message) _ λ raw decoded.
        export_event-Passed X calm _ (Field.data_column_completed X.duplicates) _ _ _
          λ passed event d.
            let key = completion_key raw.block_root raw.column_index in
            let c = h.duplicate_cache.data_column_completed in
            let (_, v, q) =
              continue-passes (validate_enum raw.completed_via completed_vias invalid_completed_via)
                (λ _. by_key m _ _ key) c passed in
            (
              RawEvent.data_column_completed raw,
              refl,
              decoded,
              (v, ignore_duplicate-Unseen X laws m key _ _ c q),
              d,
            )

  handle_partial_data_column_outcome-Fresh :
      (m : Moment) (message : Json) (h : Handler X)
      → Effect X
          (FreshEvent X m message EventType.partial_data_column_outcome h)
          h
          (handle_partial_data_column_outcome X m message h)
  unfolding handle_partial_data_column_outcome PartialDataColumnOutcome.should_ignore
      PartialDataColumnOutcome.new_partial_data_column_outcome
  handle_partial_data_column_outcome-Fresh m message h =
      continue-Effect X _ h (decode_partial_data_column_outcome message) _ λ raw decoded.
        export_event-Passed X calm _ (Field.gossipsub_partial_data_column_outcome X.duplicates) _ _
          _
          λ passed event d. (
            RawEvent.partial_data_column_outcome raw,
            refl,
            decoded,
            validated-UnseenHash m (validate_enum raw.stage stages invalid_partial_stage)
                (validate_enum raw.outcome outcomes invalid_partial_outcome)
                (X.hash.partial_data_column_outcome raw) _ _
                h.duplicate_cache.gossipsub_partial_data_column_outcome passed,
            d,
          )

  handle-Fresh :
      (t : EventType) (m : Moment) (message : Json) (h : Handler X)
      → Effect X (FreshEvent X m message t h) h (handle X t m message h)
  unfolding handle
  handle-Fresh EventType.beacon_block m message h =
      handle_beacon_block-Fresh X laws calm m message h
  handle-Fresh EventType.attestation m message h = handle_attestation-Fresh X laws calm m message h
  handle-Fresh EventType.aggregate_and_proof m message h =
      handle_aggregate_and_proof-Fresh X laws calm m message h
  handle-Fresh EventType.blob_sidecar m message h =
      handle_blob_sidecar-Fresh X laws calm m message h
  handle-Fresh EventType.data_column_sidecar m message h =
      handle_data_column_sidecar-Fresh X laws calm m message h
  handle-Fresh EventType.data_column_sidecar_gloas m message h =
      handle_data_column_sidecar_gloas-Fresh X laws calm m message h
  handle-Fresh EventType.execution_payload_envelope m message h =
      handle_execution_payload_envelope-Fresh X laws calm m message h
  handle-Fresh EventType.execution_payload_bid m message h =
      handle_execution_payload_bid-Fresh X laws calm m message h
  handle-Fresh EventType.payload_attestation_message m message h =
      handle_payload_attestation_message-Fresh X laws calm m message h
  handle-Fresh EventType.proposer_preferences m message h =
      handle_proposer_preferences-Fresh X laws calm m message h
  handle-Fresh EventType.partial_data_column m message h =
      handle_partial_data_column-Fresh m message h
  handle-Fresh EventType.data_column_completed m message h =
      handle_data_column_completed-Fresh m message h
  handle-Fresh EventType.partial_data_column_outcome m message h =
      handle_partial_data_column_outcome-Fresh m message h

module _ (X : Externals) where
  -- An event that goes out for the text of a type and a message.
  abbrev pub FreshFor : Moment → Json → String → Handler X → DecoratedEvent → Type 0
  FreshFor m message text h event =
      (raw : RawEvent) × (text ≡ event_type_text (type_of raw))
      × Decodes raw message
      × Fresh X m h raw
      × (decorated X m h raw ≡ ok event)

  relabel :
      (t : EventType) (m : Moment) (message : Json) (text : String) (h : Handler X)
      (res : Outcome (Unit {0}) × Handler X)
      → text ≡ event_type_text t
      → Effect X (FreshEvent X m message t h) h res
      → Effect X (FreshFor m message text h) h res
  relabel t m message text h res e (frame, inl quiet) = (frame, inl quiet)
  relabel t m message text h res e (frame, inr (event, (raw, f, decoded, fresh, made), r, s, d)) =
      (frame, inr (event, (raw, e ∙ ap event_type_text f, decoded, fresh, made), r, s, d))

module _ (X : Externals) (laws : TtlLaws X.duplicates) (calm : CalmSinks X) where
  -- Only fresh events go out. If no sink panics, handling a raw event leaves the sinks, the
  -- configuration, the wallclock, the clock drift and the id as they were, and either counts nothing
  -- and calls no sink, or succeeds, counts one event and gives it to every sink once. That event is
  -- the decoration of a raw event that the message is decoded to and whose type is the one the text
  -- names; the raw event's key was not in the duplicate cache of its type, it was not late, and its
  -- texts are among those allowed.
  pub handle_raw_event-Fresh :
      (m : Moment) (message : Json) (text : String) (h : Handler X)
      → Effect X (FreshFor X m message text h) h (handle_raw_event X m message text h)
  unfolding handle_raw_event
  handle_raw_event-Fresh m message text h = go (event_type? text) refl
    where
      run : Option EventType → Outcome (Unit {0}) × Handler X
      run o = elim o [ some t ↦ handle X t m message h | none ↦ (err unsupported_event_type, h) ]

      go :
          (o : Option EventType)
          → event_type? text ≡ o
          → Effect X (FreshFor X m message text h) h (run o)
      go none e = ((refl, refl, refl, refl, refl), inl (refl, refl))
      go (some t) e =
          relabel X t m message text h (handle X t m message h) ((event_type?_iff text t).0 e)
            (handle-Fresh X laws calm t m message h)

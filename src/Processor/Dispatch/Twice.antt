-- ===== src/Processor/Dispatch/Twice.antt =====
-- A message that is handled twice by pkg/processor/handler.go.
pub mod Consensus
pub mod Handled
use xatu_sidecar.Prelude.{◌≡◌, refl, Bool, true, false, List, [], ◌∷◌, arith}
use xatu_sidecar.Outcome.{Outcome, ok, err, panic, Method, continue}
use xatu_sidecar.Ttl.{TtlLaws}
use xatu_sidecar.Cache.Duplicate.{DuplicateCache}
use xatu_sidecar.Cache.Field
use xatu_sidecar.Cache.Field.{CacheField}
use xatu_sidecar.Proto.{DecoratedEvent}
use xatu_sidecar.Event.Source.{Moment}
use xatu_sidecar.Event.Freshness.Twice.{Stopped, InTerm}
use xatu_sidecar.Event.Again
use xatu_sidecar.Event.PartialDataColumn
use xatu_sidecar.Event.DataColumnCompleted
use xatu_sidecar.Event.PartialDataColumnOutcome
use xatu_sidecar.Processor.Externals.{Externals}
use xatu_sidecar.Processor.EventType.{EventType}
use xatu_sidecar.Processor.Handler.{
  Handler, deliver, count, topic_of, handle_new_decorated_event, export_event, export_unless,
}
use xatu_sidecar.Processor.Dispatch.{
  handle_beacon_block, handle_attestation, handle_aggregate_and_proof, handle_blob_sidecar,
  handle_data_column_sidecar, handle_data_column_sidecar_gloas, handle_execution_payload_envelope,
  handle_execution_payload_bid, handle_payload_attestation_message, handle_proposer_preferences,
  handle_partial_data_column, handle_data_column_completed, handle_partial_data_column_outcome,
  handle,
}

module _ (X : Externals) where
  deliver-cache :
      (sinks : List X.Sink) (event : DecoratedEvent) (h : Handler X)
      → (deliver X sinks event h).1.duplicate_cache ≡ h.duplicate_cache
  unfolding deliver
  deliver-cache [] event h = refl
  deliver-cache (s ∷ rest) event h =
      ground (arith, deliver-cache rest event (record h { sent = (s, event) ∷ h.sent }))

  -- Exporting writes the cache that the test leaves, whatever follows the test.
  export_event-cache :
      (field : CacheField X.duplicates) (m : Method X.duplicates.Cache Bool)
      (decorated : Outcome DecoratedEvent) (h : Handler X)
      → (export_event X field m decorated h).1.duplicate_cache
        ≡ field.put (m (field.get h.duplicate_cache)).1 h.duplicate_cache
  unfolding export_event handle_new_decorated_event
  export_event-cache field m decorated h =
      after (m (field.get h.duplicate_cache)).0 decorated (record h {
        duplicate_cache = field.put (m (field.get h.duplicate_cache)).1 h.duplicate_cache;
      })
    where
      after :
          (r : Outcome Bool) (d : Outcome DecoratedEvent) (h' : Handler X)
          → (continue (r, h') (λ ignore. export_unless X ignore d)).1.duplicate_cache
            ≡ h'.duplicate_cache
      after (ok true) d h' = refl
      after (ok false) (ok event) h' = deliver-cache h'.sinks event (count X (topic_of X event) h')
      after (ok false) (err e) h' = refl
      after (ok false) panic h' = refl
      after (err e) d h' = refl
      after panic d h' = refl

  -- Nothing is counted and no sink is called.
  pub record Quiet (h : Handler X) (res : Outcome (Unit {0}) × Handler X) : Type 0 where
    pub summary : res.1.summary ≡ h.summary
    pub sent : res.1.sent ≡ h.sent

  export_event-Quiet :
      (field : CacheField X.duplicates) (m : Method X.duplicates.Cache Bool)
      (decorated : Outcome DecoratedEvent) (h : Handler X)
      → Stopped (m (field.get h.duplicate_cache)).0
      → Quiet h (export_event X field m decorated h)
  unfolding export_event
  export_event-Quiet field m decorated h s =
      let h' : Handler X = record h {
        duplicate_cache = field.put (m (field.get h.duplicate_cache)).1 h.duplicate_cache;
      } in
      let q = after (m (field.get h.duplicate_cache)).0 h' s in
      record { summary = q.summary; sent = q.sent }
    where
      after :
          (r : Outcome Bool) (h' : Handler X)
          → Stopped r
          → Quiet h' (continue (r, h') (λ ignore. export_unless X ignore decorated))
      after (ok true) h' s = record { summary = refl; sent = refl }
      after (ok false) h' s = absurd (s refl)
      after (err e) h' s = record { summary = refl; sent = refl }
      after panic h' s = record { summary = refl; sent = refl }

  pub continue-Quiet :
      {A : Type 0} (o : Outcome A) (f g : A → Method (Handler X) (Unit {0})) (h : Handler X)
      → ((a : A) → o ≡ ok a → Quiet (f a h).1 (g a (f a h).1))
      → Quiet (continue (o, h) f).1 (continue (o, (continue (o, h) f).1) g)
  continue-Quiet (ok a) f g h k = k a refl
  continue-Quiet (err e) f g h k = record { summary = refl; sent = refl }
  continue-Quiet panic f g h k = record { summary = refl; sent = refl }

  -- A field is read back as it was put.
  abbrev pub IsField : CacheField X.duplicates → Type 0
  IsField field =
      (c : X.duplicates.Cache) (d : DuplicateCache X.duplicates) → field.get (field.put c d) ≡ c

  -- Two exports in a row, with the block slots changed in between: the second is quiet if the test
  -- stops the event on the cache that the first one left.
  pub exports-Quiet :
      (field : CacheField X.duplicates) (m₁ m₂ : Method X.duplicates.Cache Bool)
      (d₁ d₂ : Outcome DecoratedEvent) (h : Handler X) (slots : X.slots.Cache)
      → IsField field
      → Stopped (m₂ (m₁ (field.get h.duplicate_cache)).1).0
      → Quiet (export_event X field m₁ d₁ h).1 (
          export_event X field m₂ d₂
            (record (export_event X field m₁ d₁ h).1 { block_slots = slots }))
  exports-Quiet field m₁ m₂ d₁ d₂ h slots reads s =
      let h' : Handler X = record (export_event X field m₁ d₁ h).1 { block_slots = slots } in
      let q = export_event-Quiet field m₂ d₂ h' (rw (export_event-cache field m₁ d₁ h, reads) s) in
      record { summary = q.summary; sent = q.sent }

-- The duplicate cache of each type of event; both forms of a data column sidecar share theirs.
abbrev pub field_of : (X : Externals) → EventType → CacheField X.duplicates
field_of X EventType.beacon_block = Field.gossipsub_beacon_block X.duplicates
field_of X EventType.attestation = Field.gossipsub_attestation X.duplicates
field_of X EventType.aggregate_and_proof = Field.gossipsub_aggregate_and_proof X.duplicates
field_of X EventType.blob_sidecar = Field.gossipsub_blob_sidecar X.duplicates
field_of X EventType.data_column_sidecar = Field.gossipsub_data_column_sidecar X.duplicates
field_of X EventType.data_column_sidecar_gloas = Field.gossipsub_data_column_sidecar X.duplicates
field_of X EventType.execution_payload_envelope =
    Field.gossipsub_execution_payload_envelope X.duplicates
field_of X EventType.execution_payload_bid = Field.gossipsub_execution_payload_bid X.duplicates
field_of X EventType.payload_attestation_message =
    Field.gossipsub_payload_attestation_message X.duplicates
field_of X EventType.proposer_preferences = Field.gossipsub_proposer_preferences X.duplicates
field_of X EventType.partial_data_column = Field.gossipsub_partial_data_column X.duplicates
field_of X EventType.data_column_completed = Field.data_column_completed X.duplicates
field_of X EventType.partial_data_column_outcome =
    Field.gossipsub_partial_data_column_outcome X.duplicates

module _ (X : Externals) (laws : TtlLaws X.duplicates) where
  abbrev pub InTermFor : EventType → Moment → Moment → Handler X → Type 0
  InTermFor t m n h =
      InTerm X.duplicates laws m.dedup_at n.dedup_at ((field_of X t).get h.duplicate_cache)

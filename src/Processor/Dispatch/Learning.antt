-- ===== src/Processor/Dispatch/Learning.antt =====
-- What an export by pkg/processor/handler.go leaves of the block slots.
pub mod Steps
pub mod History
use xatu_sidecar.Prelude.{◌≡◌, refl, Bool, true, false, List, [], ◌∷◌, arith}
use xatu_sidecar.Outcome.{Outcome, ok, err, panic, Method, continue}
use xatu_sidecar.Cache.Field.{CacheField}
use xatu_sidecar.Proto.{DecoratedEvent}
use xatu_sidecar.Processor.Externals.{Externals}
use xatu_sidecar.Processor.Handler.{
  Handler, deliver, count, topic_of, handle_new_decorated_event, export_unless, export_event,
}

module _ (X : Externals) where
  deliver-slots :
      (sinks : List X.Sink) (event : DecoratedEvent) (h : Handler X)
      → (deliver X sinks event h).1.block_slots ≡ h.block_slots
  unfolding deliver
  deliver-slots [] event h = refl
  deliver-slots (s ∷ rest) event h =
      ground (arith, deliver-slots rest event (record h { sent = (s, event) ∷ h.sent }))

  pub export_event-slots :
      (field : CacheField X.duplicates) (m : Method X.duplicates.Cache Bool)
      (decorated : Outcome DecoratedEvent) (h : Handler X)
      → (export_event X field m decorated h).1.block_slots ≡ h.block_slots
  unfolding export_event handle_new_decorated_event
  export_event-slots field m decorated h =
      after (m (field.get h.duplicate_cache)).0 decorated (record h {
        duplicate_cache = field.put (m (field.get h.duplicate_cache)).1 h.duplicate_cache;
      })
    where
      after :
          (r : Outcome Bool) (d : Outcome DecoratedEvent) (h' : Handler X)
          → (continue (r, h') (λ ignore. export_unless X ignore d)).1.block_slots ≡ h'.block_slots
      after (ok true) d h' = refl
      after (ok false) (ok event) h' = deliver-slots h'.sinks event (count X (topic_of X event) h')
      after (ok false) (err e) h' = refl
      after (ok false) panic h' = refl
      after (err e) d h' = refl
      after panic d h' = refl

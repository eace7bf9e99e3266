-- ===== src/Processor/Handler/Delivery.antt =====
-- How an exported event reaches the sinks in pkg/processor/handler.go.
use xatu_sidecar.Prelude.{◌≡◌, refl, ◌≢◌, List, [], ◌∷◌, arith}
use xatu_sidecar.Outcome.{ok, panic}
use xatu_sidecar.Proto.{DecoratedEvent}
use xatu_sidecar.Processor.Externals.{Externals}
use xatu_sidecar.Processor.Handler.{Handler, deliver, count, topic_of, handle_new_decorated_event}

-- The calls that deliver an event to each sink once, in order; the newest call stands first.
unfoldable pub delivered {ℓ κ} :
    {S : Type ℓ} {E : Type κ} → List S → E → List (S × E) → List (S × E)
delivered [] event sent = sent
delivered (s ∷ rest) event sent = delivered rest event ((s, event) ∷ sent)

module _ (X : Externals) where
  -- No sink panics, whatever was sent before.
  abbrev pub CalmSinks : Type 0
  CalmSinks =
      (sent : List (X.Sink × DecoratedEvent)) (s : X.Sink) (event : DecoratedEvent)
      → X.send sent s event ≢ panic

  deliver-delivered :
      CalmSinks
      → (sinks : List X.Sink) (event : DecoratedEvent) (h : Handler X)
      → deliver X sinks event h ≡ (ok tt, record h { sent = delivered sinks event h.sent })
  unfolding deliver delivered
  deliver-delivered calm [] event h = refl
  deliver-delivered calm (s ∷ rest) event h =
      let again = deliver-delivered calm rest event (record h { sent = (s, event) ∷ h.sent }) in
      let quiet = calm h.sent s event in ground (arith, again, quiet)

  -- An event is counted once under its topic and given to every sink once, in order, whether or not
  -- the sinks before it returned errors, and the call succeeds, if no sink panics.
  pub handle_new_decorated_event_all :
      CalmSinks
      → (event : DecoratedEvent) (h : Handler X)
      → handle_new_decorated_event X event h
        ≡ (ok tt, record (count X (topic_of X event) h) { sent = delivered h.sinks event h.sent })
  unfolding handle_new_decorated_event
  handle_new_decorated_event_all calm event h =
      deliver-delivered calm h.sinks event (count X (topic_of X event) h)

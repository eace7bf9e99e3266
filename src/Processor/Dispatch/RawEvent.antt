-- ===== src/Processor/Dispatch/RawEvent.antt =====
-- `HandleRawEvent` of pkg/processor/handler.go as a whole.
use xatu_sidecar.Json.{Json}
use xatu_sidecar.Prelude.{String, ◌≡◌, refl, ◌≢◌, inl, inr, Option, none, some, Option-cases}
use xatu_sidecar.Outcome.{Outcome, err, unsupported_event_type}
use xatu_sidecar.Proto.{DecoratedEvent}
use xatu_sidecar.Event.Source.{Moment}
use xatu_sidecar.Processor.Externals.{Externals}
use xatu_sidecar.Processor.EventType.{EventType, event_type?, event_type_text, event_type?_iff}
use xatu_sidecar.Processor.Handler.{Handler}
use xatu_sidecar.Processor.Handler.Delivery.{CalmSinks}
use xatu_sidecar.Processor.Dispatch.Effect.{Effect}
use xatu_sidecar.Processor.Dispatch.Cases.{IsEventOf}
use xatu_sidecar.Processor.Dispatch.Cases.Handled.{handle-Effect}
use xatu_sidecar.Processor.Dispatch.{handle, handle_raw_event}

module _ (X : Externals) where
  -- An event that fits a type text and its message.
  abbrev pub Fits : Moment → Json → String → Handler X → DecoratedEvent → Type 0
  Fits m message text h event =
      (t : EventType) × (text ≡ event_type_text t) × IsEventOf X t m message h event

  weaken :
      (t : EventType) (m : Moment) (message : Json) (text : String) (h : Handler X)
      (res : Outcome (Unit {0}) × Handler X)
      → text ≡ event_type_text t
      → Effect X (IsEventOf X t m message h) h res
      → Effect X (Fits m message text h) h res
  weaken t m message text h res e (frame, inl quiet) = (frame, inl quiet)
  weaken t m message text h res e (frame, inr (event, is, r, s, d)) =
      (frame, inr (event, (t, e, is), r, s, d))

  -- If no sink panics, handling a raw event leaves the sinks, the configuration, the wallclock, the
  -- clock drift and the id as they were, and either counts nothing and calls no sink, or succeeds,
  -- counts one event and gives it to every sink once; that event has the name of the type that the
  -- type's text selects, the new id, the message's timestamp corrected by the clock drift, and the
  -- size of the drift in its metadata.
  pub handle_raw_event-Effect :
      CalmSinks X
      → (m : Moment) (message : Json) (text : String) (h : Handler X)
      → Effect X (Fits m message text h) h (handle_raw_event X m message text h)
  unfolding handle_raw_event
  handle_raw_event-Effect calm m message text h = go (event_type? text) refl
    where
      run : Option EventType → Outcome (Unit {0}) × Handler X
      run o = elim o [ some t ↦ handle X t m message h | none ↦ (err unsupported_event_type, h) ]

      go :
          (o : Option EventType) → event_type? text ≡ o → Effect X (Fits m message text h) h (run o)
      go none e = ((refl, refl, refl, refl, refl), inl (refl, refl))
      go (some t) e =
          weaken t m message text h (handle X t m message h) ((event_type?_iff text t).0 e)
            (handle-Effect X calm t m message h)

  -- A type text that is none of the constants is refused, and nothing changes.
  pub handle_raw_event_unsupported :
      (m : Moment) (message : Json) (text : String) (h : Handler X)
      → ((t : EventType) → text ≢ event_type_text t)
      → handle_raw_event X m message text h ≡ (err unsupported_event_type, h)
  unfolding handle_raw_event
  handle_raw_event_unsupported m message text h other = elim (Option-cases (event_type? text)) [
    | inl e ↦ rw (e, handle_raw_event) refl
    | inr (t, e) ↦ absurd (other t ((event_type?_iff text t).0 e))
  ]

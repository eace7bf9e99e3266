-- ===== src/Sidecar/Exported.antt =====
-- A documented message in the loop of `SendEventBatch` of main.go, from its JSON value to the sinks.
use xatu_sidecar.Json.{Json}
use xatu_sidecar.Prelude.{String, ◌≡◌, refl, sym, ap, subst, ◌∙◌}
use xatu_sidecar.Outcome.{Outcome, ok, err, panic}
use xatu_sidecar.Ttl.{TtlLaws}
use xatu_sidecar.Proto.{DecoratedEvent}
use xatu_sidecar.Event.Source.{Moment}
use xatu_sidecar.Event.RoundTrip.Typed.{RawEvent, type_of}
use xatu_sidecar.Event.RoundTrip.Message.{InRange, message_of, message_of-type, message_of-Decodes}
use xatu_sidecar.Processor.EventType.{event_type_text, event_type?_iff, EventType}
use xatu_sidecar.Processor.Externals.{Externals}
use xatu_sidecar.Processor.Handler.{Handler}
use xatu_sidecar.Processor.Handler.Delivery.{CalmSinks}
use xatu_sidecar.Processor.Dispatch.{handle_raw_event, handle}
use xatu_sidecar.Processor.Dispatch.Fresh.{Fresh, decorated}
use xatu_sidecar.Processor.Dispatch.Exported.{Sent}
use xatu_sidecar.Processor.Dispatch.Exported.Message.{handle-Sent}
use xatu_sidecar.Sidecar.{process_event, skip, decode_event_type}

module _ (X : Externals) where
  process_event-typed :
      (m : Moment) (message : Json) (h : Handler X) (text : String)
      → decode_event_type message ≡ ok text
      → process_event X m message h ≡ skip X (handle_raw_event X m message text h)
  unfolding process_event
  process_event-typed m message h text p = rw (p, process_event) refl

  handle_raw_event-typed :
      (m : Moment) (message : Json) (h : Handler X) (t : EventType)
      → handle_raw_event X m message (event_type_text t) h ≡ handle X t m message h
  unfolding handle_raw_event
  handle_raw_event-typed m message h t =
      rw ((event_type?_iff (event_type_text t) t).1 refl, handle_raw_event) refl

  skip-Sent :
      (event : DecoratedEvent) (h : Handler X) (res : Outcome (Unit {0}) × Handler X)
      → Sent X event h res
      → Sent X event h (skip X res)
  skip-Sent event h (ok u, h') sent = sent
  skip-Sent event h (err e, h') (done, counted, given) = (refl, counted, given)
  skip-Sent event h (panic, h') sent = sent

  -- A message with the type and the fields of a raw event, of any of the thirteen types, is
  -- dispatched, decoded, counted once and given to every sink once, and the call succeeds, if the
  -- integers are in the ranges of their types, the event is fresh (its key is not in the duplicate
  -- cache of its type, it is not late, and its texts are among those allowed), it can be decorated
  -- and no sink panics.
  pub process_event-Sent :
      TtlLaws X.duplicates
      → CalmSinks X
      → (m : Moment) (h : Handler X) (raw : RawEvent) (event : DecoratedEvent) → InRange raw
      → Fresh X m h raw
      → decorated X m h raw ≡ ok event
      → Sent X event h (process_event X m (message_of raw) h)
  process_event-Sent laws calm m h raw event r fresh d =
      let message = message_of raw in
      let run =
        process_event-typed m message h _ (message_of-type raw)
        ∙ ap (skip X) (handle_raw_event-typed m message h (type_of raw)) in
      subst (Sent X event h) (sym run) (
        skip-Sent event h (handle X (type_of raw) m message h)
          (handle-Sent X laws calm m message h raw event (message_of-Decodes raw r) fresh d))

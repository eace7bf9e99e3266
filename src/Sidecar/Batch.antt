-- ===== src/Sidecar/Batch.antt =====
-- The loop of `SendEventBatch` in main.go.
use xatu_sidecar.Json.{Json}
use xatu_sidecar.Prelude.{ℕ, suc, String, ◌≡◌, refl, ap, subst, ◌∙◌, ◌⊎◌, inl, inr, List, [], ◌∷◌}
use xatu_sidecar.Prelude.Int.{ℤ}
use xatu_sidecar.Processor.Summary.{Summary}
use xatu_sidecar.Processor.Summary.Counts.{count_event}
use xatu_sidecar.Outcome.{Outcome, ok, err, panic}
use xatu_sidecar.Proto.{DecoratedEvent}
use xatu_sidecar.Event.Source.{Moment}
use xatu_sidecar.Processor.Externals.{Externals}
use xatu_sidecar.Processor.Handler.{Handler, count, topic_of}
use xatu_sidecar.Processor.Handler.Delivery.{CalmSinks, delivered}
use xatu_sidecar.Processor.Dispatch.{handle_raw_event}
use xatu_sidecar.Processor.Dispatch.Effect.{Frame, Effect}
use xatu_sidecar.Processor.Dispatch.RawEvent.{Fits, handle_raw_event-Effect}
use xatu_sidecar.Sidecar.{skip, process_event, process_events, decode_event_type}

module _ (X : Externals) where
  -- A message that has a type, and the event made of it at a moment.
  abbrev pub Made : Moment → Json → Handler X → DecoratedEvent → Type 0
  Made m message h event =
      (text : String) × (decode_event_type message ≡ ok text) × Fits X m message text h event

  skip-Effect :
      (P : DecoratedEvent → Type 0) (h : Handler X) (res : Outcome (Unit {0}) × Handler X)
      → Effect X P h res
      → Effect X P h (skip X res)
  skip-Effect P h (ok u, h') e = e
  skip-Effect P h (err x, h') (frame, inl quiet) = (frame, inl quiet)
  skip-Effect P h (err x, h') (frame, inr (event, is, r, s, d)) = absurd (cc r)
  skip-Effect P h (panic, h') e = e

  pub process_event-Effect :
      CalmSinks X
      → (m : Moment) (message : Json) (h : Handler X)
      → Effect X (Made m message h) h (process_event X m message h)
  unfolding process_event
  process_event-Effect calm m message h = go (decode_event_type message) refl
    where
      run : Outcome String → Outcome (Unit {0}) × Handler X
      run o = elim o [
        | ok t ↦ skip X (handle_raw_event X m message t h)
        | err _ ↦ (ok tt, h)
        | panic ↦ (panic, h)
      ]

      go :
          (o : Outcome String)
          → decode_event_type message ≡ o
          → Effect X (Made m message h) h (run o)
      go (err x) e = ((refl, refl, refl, refl, refl), inl (refl, refl))
      go panic e = ((refl, refl, refl, refl, refl), inl (refl, refl))
      go (ok text) e = skip-Effect (Made m message h) h (handle_raw_event X m message text h) (
          weaken (handle_raw_event X m message text h)
            (handle_raw_event-Effect X calm m message text h))
        where
          weaken :
              (res : Outcome (Unit {0}) × Handler X)
              → Effect X (Fits X m message text h) h res
              → Effect X (Made m message h) h res
          weaken res (frame, inl quiet) = (frame, inl quiet)
          weaken res (frame, inr (event, is, r, s, d)) =
              (frame, inr (event, (text, e, is), r, s, d))

  -- The events that a batch led to, in order: one at most of each message, made at the moment of
  -- the message's position and with the clock drift of the handler.
  unfoldable pub Chosen : (ℕ → Moment) → ℤ → ℕ → List Json → List DecoratedEvent → Type 0
  Chosen moments drift n [] events = events ≡ []
  Chosen moments drift n (message ∷ rest) events =
      Chosen moments drift (suc n) rest events
      ⊎ ((event : DecoratedEvent) × (more : List DecoratedEvent) × (h : Handler X) × (events
            ≡ event ∷ more)
          × (h.clock_drift ≡ drift)
          × Made (moments n) message h event
          × Chosen moments drift (suc n) rest more)

  Chosen-[] :
      (moments : ℕ → Moment) (drift : ℤ) (n : ℕ) (messages : List Json)
      → Chosen moments drift n messages []
  unfolding Chosen
  Chosen-[] moments drift n [] = refl
  Chosen-[] moments drift n (message ∷ rest) = inl (Chosen-[] moments drift (suc n) rest)

  unfoldable pub deliver_all :
      List X.Sink
      → List DecoratedEvent
      → List (X.Sink × DecoratedEvent)
      → List (X.Sink × DecoratedEvent)
  deliver_all sinks [] sent = sent
  deliver_all sinks (event ∷ more) sent = deliver_all sinks more (delivered sinks event sent)

  unfoldable pub count_all : List DecoratedEvent → Summary → Summary
  count_all [] s = s
  count_all (event ∷ more) s = count_all more (count_event (topic_of X event) s)

  -- The handler after a run of exports.
  pub record Exports (h : Handler X) (events : List DecoratedEvent) (h' : Handler X) : Type 0 where
    pub frame : Frame X h h'
    pub summary : h'.summary ≡ count_all events h.summary
    pub sent : h'.sent ≡ deliver_all h.sinks events h.sent

  none_exported :
      (h h' : Handler X)
      → Frame X h h'
      → h'.summary ≡ h.summary
      → h'.sent ≡ h.sent
      → Exports h [] h'
  unfolding deliver_all count_all
  none_exported h h' frame s d = record { frame = frame; summary = s; sent = d }

  after_quiet :
      (h h' h'' : Handler X) (events : List DecoratedEvent)
      → Frame X h h'
      → h'.summary ≡ h.summary
      → h'.sent ≡ h.sent
      → Exports h' events h''
      → Exports h events h''
  after_quiet h h' h'' events (f0, f1, f2, f3, f4) s d e =
      let (g0, g1, g2, g3, g4) = e.frame in
      record {
        frame = (g0 ∙ f0, g1 ∙ f1, g2 ∙ f2, g3 ∙ f3, g4 ∙ f4);
        summary = e.summary ∙ ap (count_all events) s;
        sent = e.sent ∙ cc (f0, d);
      }

  after_export :
      (h h' h'' : Handler X) (event : DecoratedEvent) (events : List DecoratedEvent)
      → Frame X h h'
      → h'.summary ≡ (count X (topic_of X event) h).summary
      → h'.sent ≡ delivered h.sinks event h.sent
      → Exports h' events h''
      → Exports h (event ∷ events) h''
  unfolding deliver_all count_all count_event
  after_export h h' h'' event events (f0, f1, f2, f3, f4) s d e =
      let (g0, g1, g2, g3, g4) = e.frame in
      let given : deliver_all h'.sinks events h'.sent
          ≡ deliver_all h.sinks events (delivered h.sinks event h.sent) =
        cc (f0, d) in
      record {
        frame = (g0 ∙ f0, g1 ∙ f1, g2 ∙ f2, g3 ∙ f3, g4 ∙ f4);
        summary = e.summary ∙ ap (count_all events) s;
        sent = e.sent ∙ given;
      }

  -- What a batch exports from one handler to another.
  abbrev pub Exported : (ℕ → Moment) → ℕ → List Json → Handler X → Handler X → Type 0
  Exported moments n messages h h' =
      (events : List DecoratedEvent) × Chosen moments h.clock_drift n messages events
      × Exports h events h'

  module _ (moments : ℕ → Moment) (n : ℕ) (message : Json) (rest : List Json)
      (again : (h : Handler X)
        → Exported moments (suc n) rest h (process_events X moments (suc n) rest h).1)
      (h : Handler X) where
    next : Outcome (Unit {0}) × Handler X → Outcome (Unit {0}) × Handler X
    next res = elim res.0 [
      | ok _ ↦ process_events X moments (suc n) rest res.1
      | err e ↦ (err e, res.1)
      | panic ↦ (panic, res.1)
    ]

    then_quiet :
        (r : Outcome (Unit {0})) (h' : Handler X)
        → Frame X h h'
        → h'.summary ≡ h.summary
        → h'.sent ≡ h.sent
        → Exported moments n (message ∷ rest) h (next (r, h')).1
    unfolding next Chosen
    then_quiet (err e) h' f s d =
        ([], inl (Chosen-[] moments h.clock_drift (suc n) rest), none_exported h h' f s d)
    then_quiet panic h' f s d =
        ([], inl (Chosen-[] moments h.clock_drift (suc n) rest), none_exported h h' f s d)
    then_quiet (ok u) h' f s d =
        let (events, chosen, e) = again h' in
        (
          events,
          inl (subst (λ x. Chosen moments x (suc n) rest events) f.3 chosen),
          after_quiet h h' _ events f s d e,
        )

    then_export :
        (r : Outcome (Unit {0})) (h' : Handler X) (event : DecoratedEvent)
        → Frame X h h'
        → Made (moments n) message h event
        → r ≡ ok tt
        → h'.summary ≡ (count X (topic_of X event) h).summary
        → h'.sent ≡ delivered h.sinks event h.sent
        → Exported moments n (message ∷ rest) h (next (r, h')).1
    unfolding next Chosen
    then_export (err e) h' event f is r s d = absurd (cc r)
    then_export panic h' event f is r s d = absurd (cc r)
    then_export (ok u) h' event f is r s d =
        let (events, chosen, e) = again h' in
        (
          event ∷ events,
          inr (
            event,
            events,
            h,
            refl,
            refl,
            is,
            subst (λ x. Chosen moments x (suc n) rest events) f.3 chosen,
          ),
          after_export h h' _ event events f s d e,
        )

    step :
        (res : Outcome (Unit {0}) × Handler X)
        → Effect X (Made (moments n) message h) h res
        → Exported moments n (message ∷ rest) h (next res).1
    step (r, h') (f, inl (s, d)) = then_quiet r h' f s d
    step (r, h') (f, inr (event, is, q, s, d)) = then_export r h' event f is q s d

  -- If no sink panics, processing a batch exports a list of events, at most one for each message
  -- and in the order of the messages: each is counted once and given to every sink once, and each
  -- is the event of a type that its message names, with the id of its position's moment and the
  -- handler's clock drift. The handler's sinks, configuration, wallclock, clock drift and id stay as
  -- they were.
  pub process_events-Exports :
      CalmSinks X
      → (moments : ℕ → Moment) (n : ℕ) (messages : List Json) (h : Handler X)
      → Exported moments n messages h (process_events X moments n messages h).1
  unfolding process_events Chosen next
  process_events-Exports calm moments n [] h =
      ([], refl, none_exported h h (refl, refl, refl, refl, refl) refl refl)
  process_events-Exports calm moments n (message ∷ rest) h =
      step moments n message rest (process_events-Exports calm moments (suc n) rest) h
        (process_event X (moments n) message h) (process_event-Effect calm (moments n) message h)

-- ===== src/Sidecar/Delivered.antt =====
-- The loop of `SendEventBatch` in main.go on a batch in which any message may fail.
use xatu_sidecar.Json.{Json}
use xatu_sidecar.Json.Returning.{text_field-Returning, unmarshal-Returning}
use xatu_sidecar.Prelude.{
  ℕ, suc, ◌+◌, String, ◌≡◌, refl, sym, ap, subst, ◌∙◌, List, [], ◌∷◌, ◌++◌, append_assoc, arith,
  length,
}
use xatu_sidecar.Outcome.{Outcome, ok, err, panic}
use xatu_sidecar.Ttl.{TtlLaws}
use xatu_sidecar.Proto.{DecoratedEvent}
use xatu_sidecar.Event.Source.{Moment}
use xatu_sidecar.Event.Returning.{Returns, Answers}
use xatu_sidecar.Event.RoundTrip.Typed.{RawEvent}
use xatu_sidecar.Event.RoundTrip.Message.{InRange, message_of}
use xatu_sidecar.Processor.Externals.{Externals}
use xatu_sidecar.Processor.Handler.{Handler}
use xatu_sidecar.Processor.Handler.Delivery.{delivered}
use xatu_sidecar.Processor.Dispatch.{handle_raw_event}
use xatu_sidecar.Processor.Dispatch.Fresh.{Fresh, decorated}
use xatu_sidecar.Processor.Dispatch.Panics.{Answering}
use xatu_sidecar.Processor.Dispatch.Panics.RawEvent.{handle_raw_event-Returns}
use xatu_sidecar.Sidecar.{skip, process_event, process_events, decode_event_type}
use xatu_sidecar.Sidecar.Batch.{process_event-Effect, process_events-Exports, deliver_all}
use xatu_sidecar.Sidecar.Exported.{process_event-Sent}

-- The calls of the sinks, newest first, have only grown.
abbrev Grown {ℓ} : {A : Type ℓ} → List A → List A → Type ℓ
Grown {A} sent sent' = (more : List A) × (sent' ≡ more ++ sent)

Grown-trans {ℓ} : {A : Type ℓ} (a b c : List A) → Grown a b → Grown b c → Grown a c
Grown-trans a b c (l, p) (m, q) = (m ++ l, q ∙ ap (λ x. m ++ x) p ∙ sym (append_assoc m l a))

delivered-Grown {ℓ κ} :
    {S : Type ℓ} {E : Type κ} (sinks : List S) (event : E) (sent : List (S × E))
    → Grown sent (delivered sinks event sent)
unfolding delivered
delivered-Grown [] event sent = ([], refl)
delivered-Grown (s ∷ rest) event sent =
    Grown-trans sent ((s, event) ∷ sent) (delivered rest event ((s, event) ∷ sent))
      ((s, event) ∷ [], refl) (delivered-Grown rest event ((s, event) ∷ sent))

decode_event_type-Returns : (message : Json) → Returns (decode_event_type message)
unfolding decode_event_type
decode_event_type-Returns message = unmarshal-Returning (text_field-Returning "event_type") message

module _ (X : Externals) where
  -- The sinks of a handler have each been given an event once, between the calls before and after.
  abbrev pub Given : DecoratedEvent → Handler X → Handler X → Type 0
  Given event h h' =
      (earlier later : List (X.Sink × DecoratedEvent)) × (h'.sent
        ≡ later ++ delivered h.sinks event (earlier ++ h.sent))

module _ (X : Externals) (quiet : Answering X) where
  skip-ok : (res : Outcome (Unit {0}) × Handler X) → Returns res.0 → (skip X res).0 ≡ ok tt
  skip-ok (ok u, h) r = refl
  skip-ok (err e, h) r = refl
  skip-ok (panic, h) r = absurd (r refl)

  -- A message is processed whatever it holds.
  process_event-ok :
      (m : Moment) (message : Json) (h : Handler X)
      → Answers h.wallclock
      → (process_event X m message h).0 ≡ ok tt
  unfolding process_event
  process_event-ok m message h a =
      go (decode_event_type message) (decode_event_type-Returns message)
    where
      run : Outcome String → Outcome (Unit {0}) × Handler X
      run o = elim o [
        | ok t ↦ skip X (handle_raw_event X m message t h)
        | err _ ↦ (ok tt, h)
        | panic ↦ (panic, h)
      ]

      go : (o : Outcome String) → Returns o → (run o).0 ≡ ok tt
      go (ok text) r =
          skip-ok (handle_raw_event X m message text h)
            (handle_raw_event-Returns X quiet m message text h a)
      go (err e) r = refl
      go panic r = absurd (r refl)

  process_event-Answers :
      (m : Moment) (message : Json) (h : Handler X)
      → Answers h.wallclock
      → Answers (process_event X m message h).1.wallclock
  process_event-Answers m message h a =
      subst Answers (sym (process_event-Effect X quiet.calm m message h).0.2) a

  process_events-cons :
      (moments : ℕ → Moment) (n : ℕ) (message : Json) (rest : List Json) (h : Handler X)
      → Answers h.wallclock
      → process_events X moments n (message ∷ rest) h
        ≡ process_events X moments (suc n) rest (process_event X (moments n) message h).1
  unfolding process_events
  process_events-cons moments n message rest h a =
      rw (process_event-ok (moments n) message h a, process_events) refl

  -- No message keeps those after it from being processed.
  process_events-append :
      (moments : ℕ → Moment) (n : ℕ) (before after : List Json) (h : Handler X)
      → Answers h.wallclock
      → process_events X moments n (before ++ after) h
        ≡ process_events X moments (n + length before) after (process_events X moments n before h).1
  unfolding process_events
  process_events-append moments n [] after h a =
      ap (λ k. process_events X moments k after h) (omega arith)
  process_events-append moments n (message ∷ before) after h a =
      let h' = (process_event X (moments n) message h).1 in
      let first = process_events-cons moments n message before h a in
      let k : suc n + length before ≡ n + suc (length before) = omega arith in
      process_events-cons moments n message (before ++ after) h a
      ∙ process_events-append moments (suc n) before after h'
          (process_event-Answers (moments n) message h a)
      ∙ ap (λ j. process_events X moments j after (process_events X moments (suc n) before h').1) k
      ∙ ap (λ res. process_events X moments (n + suc (length before)) after res.1) (sym first)

  process_events-ok :
      (moments : ℕ → Moment) (n : ℕ) (messages : List Json) (h : Handler X)
      → Answers h.wallclock
      → (process_events X moments n messages h).0 ≡ ok tt
  unfolding process_events
  process_events-ok moments n [] h a = refl
  process_events-ok moments n (message ∷ rest) h a =
      ap (λ res. res.0) (process_events-cons moments n message rest h a)
      ∙ process_events-ok moments (suc n) rest (process_event X (moments n) message h).1
          (process_event-Answers (moments n) message h a)

  deliver_all-Grown :
      (sinks : List X.Sink) (events : List DecoratedEvent) (sent : List (X.Sink × DecoratedEvent))
      → Grown sent (deliver_all X sinks events sent)
  unfolding deliver_all
  deliver_all-Grown sinks [] sent = ([], refl)
  deliver_all-Grown sinks (event ∷ more) sent =
      Grown-trans sent (delivered sinks event sent)
        (deliver_all X sinks more (delivered sinks event sent)) (delivered-Grown sinks event sent)
        (deliver_all-Grown sinks more (delivered sinks event sent))

  -- What a run of messages leaves of the sinks and the clock, and that no call of a sink is undone.
  process_events-Kept :
      (moments : ℕ → Moment) (n : ℕ) (messages : List Json) (h : Handler X)
      → ((process_events X moments n messages h).1.sinks ≡ h.sinks)
        × ((process_events X moments n messages h).1.wallclock ≡ h.wallclock)
        × Grown h.sent (process_events X moments n messages h).1.sent
  process_events-Kept moments n messages h =
      let (events, chosen, e) = process_events-Exports X quiet.calm moments n messages h in
      (
        e.frame.0,
        e.frame.2,
        subst (Grown h.sent) (sym e.sent) (deliver_all-Grown h.sinks events h.sent),
      )

  -- In a batch, a message with the type and the fields of a raw event, of any of the thirteen types,
  -- is exported whatever messages stand before and after it, and whether or not these fail, and the
  -- whole batch is processed with success: every sink is given the event. The integers are in the
  -- ranges of their types, the event is fresh and can be decorated after the messages before it, and
  -- neither the hashes nor the sinks nor the beacon chain clock panic.
  pub process_events-Sent :
      TtlLaws X.duplicates
      → (moments : ℕ → Moment) (n : ℕ) (before after : List Json) (raw : RawEvent)
        (event : DecoratedEvent) (h : Handler X)
      → Answers h.wallclock
      → InRange raw
      → Fresh X (moments (n + length before)) (process_events X moments n before h).1 raw
      → decorated X (moments (n + length before)) (process_events X moments n before h).1 raw
        ≡ ok event
      → ((process_events X moments n (before ++ (message_of raw ∷ after)) h).0 ≡ ok tt)
        × Given X event h (process_events X moments n (before ++ (message_of raw ∷ after)) h).1
  process_events-Sent laws moments n before after raw event h a range fresh d =
      let k = n + length before in
      let h₁ = (process_events X moments n before h).1 in
      let h₂ = (process_event X (moments k) (message_of raw) h₁).1 in
      let h₃ = (process_events X moments (suc k) after h₂).1 in
      let (sinks, clock, (earlier, old)) = process_events-Kept moments n before h in
      let a₁ : Answers h₁.wallclock = subst Answers (sym clock) a in
      let sent = (process_event-Sent X laws quiet.calm (moments k) h₁ raw event range fresh d).2 in
      let (later, new) = (process_events-Kept moments (suc k) after h₂).2 in
      let whole =
        process_events-append moments n before (message_of raw ∷ after) h a
        ∙ process_events-cons moments k (message_of raw) after h₁ a₁ in
      let calls : h₃.sent ≡ later ++ delivered h.sinks event (earlier ++ h.sent) =
        new ∙ ap (λ x. later ++ x) (sent ∙ cc (sinks, old)) in
      (
        process_events-ok moments n (before ++ (message_of raw ∷ after)) h a,
        (earlier, later, ap (λ res. res.1.sent) whole ∙ calls),
      )

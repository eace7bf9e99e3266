-- ===== src/Processor/Dispatch/Effect.antt =====
-- What handling one raw event may do to the handler: the rule for each step of a case.
use xatu_sidecar.Prelude.{◌≡◌, refl, ◌⊎◌, inl, inr, Bool, true, false}
use xatu_sidecar.Outcome.{Outcome, ok, err, panic, Method, continue}
use xatu_sidecar.Cache.Field.{CacheField}
use xatu_sidecar.Proto.{DecoratedEvent}
use xatu_sidecar.Processor.Externals.{Externals}
use xatu_sidecar.Processor.Handler.{
  Handler, count, topic_of, handle_new_decorated_event, export_event, export_unless,
}
use xatu_sidecar.Processor.Handler.Delivery.{CalmSinks, delivered, handle_new_decorated_event_all}

-- What only the handler's creation and the clock synchronisation set.
abbrev pub Frame : (X : Externals) → Handler X → Handler X → Type 0
Frame X h h' =
    (h'.sinks ≡ h.sinks)
    × (h'.config ≡ h.config)
    × (h'.wallclock ≡ h.wallclock)
    × (h'.clock_drift ≡ h.clock_drift)
    × (h'.id ≡ h.id)

module _ (X : Externals) where
  -- Nothing is counted and no sink is called, or the call succeeds and one event with the property
  -- is counted and goes to every sink.
  abbrev pub Effect :
      (DecoratedEvent → Type 0) → Handler X → Outcome (Unit {0}) × Handler X → Type 0
  Effect P h res =
      Frame X h res.1
      × (((res.1.summary ≡ h.summary) × (res.1.sent ≡ h.sent))
          ⊎ ((event : DecoratedEvent) × P event
              × (res.0 ≡ ok tt)
              × (res.1.summary ≡ (count X (topic_of X event) h).summary)
              × (res.1.sent ≡ delivered h.sinks event h.sent)))

  pub continue-Effect :
      {A : Type 0} (P : DecoratedEvent → Type 0) (h : Handler X) (o : Outcome A)
      (f : A → Method (Handler X) (Unit {0}))
      → ((a : A) → o ≡ ok a → Effect P h (f a h))
      → Effect P h (continue (o, h) f)
  continue-Effect P h (ok a) f k = k a refl
  continue-Effect P h (err e) f k = ((refl, refl, refl, refl, refl), inl (refl, refl))
  continue-Effect P h panic f k = ((refl, refl, refl, refl, refl), inl (refl, refl))

  exported-Effect :
      CalmSinks X
      → (P : DecoratedEvent → Type 0) (event : DecoratedEvent) (h : Handler X) → P event
      → Effect P h (handle_new_decorated_event X event h)
  exported-Effect calm P event h p =
      rw (handle_new_decorated_event_all X calm event h)
        ((refl, refl, refl, refl, refl), inr (event, p, refl, refl, refl))

  -- The event that goes out is one that the test has let pass.
  pub export_event-Passed :
      CalmSinks X
      → (P : DecoratedEvent → Type 0) (field : CacheField X.duplicates)
        (m : Method X.duplicates.Cache Bool) (decorated : Outcome DecoratedEvent) (h : Handler X)
      → ((m (field.get h.duplicate_cache)).0 ≡ ok false
          → (event : DecoratedEvent) → decorated ≡ ok event
          → P event)
      → Effect P h (export_event X field m decorated h)
  unfolding export_event
  export_event-Passed calm P field m decorated h p =
      continue-Effect P h' (m (field.get h.duplicate_cache)).0
        (λ ignore. export_unless X ignore decorated) after
    where
      h' : Handler X
      h' = record h {
        duplicate_cache = field.put (m (field.get h.duplicate_cache)).1 h.duplicate_cache;
      }

      after :
          (ignore : Bool)
          → (m (field.get h.duplicate_cache)).0 ≡ ok ignore
          → Effect P h' (export_unless X ignore decorated h')
      after true e = ((refl, refl, refl, refl, refl), inl (refl, refl))
      after false e =
          continue-Effect P h' decorated _ λ event d. exported-Effect calm P event h' (p e event d)

  pub export_event-Effect :
      CalmSinks X
      → (P : DecoratedEvent → Type 0) (field : CacheField X.duplicates)
        (m : Method X.duplicates.Cache Bool) (decorated : Outcome DecoratedEvent) (h : Handler X)
      → ((event : DecoratedEvent) → decorated ≡ ok event → P event)
      → Effect P h (export_event X field m decorated h)
  export_event-Effect calm P field m decorated h p =
      export_event-Passed calm P field m decorated h (λ _. p)

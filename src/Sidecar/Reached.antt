-- ===== src/Sidecar/Reached.antt =====
-- The states of main.go that calls of `Init`, `SendEventBatch` and `Shutdown` lead to.
use xatu_sidecar.Json.{Json}
use xatu_sidecar.Prelude.{
  ℕ, String, ◌≡◌, refl, sym, ap, subst, ◌∙◌, ◌≢◌, Bool, true, false, Option, none, some, List, [],
  ◌∷◌, arith, str_eq, if◌then◌else◌,
}
use xatu_sidecar.Prelude.Int.{ℤ}
use xatu_sidecar.Prelude.Int.{ℤ}
use xatu_sidecar.Outcome.{Outcome, ok, err, panic}
use xatu_sidecar.Event.Source.{Moment}
use xatu_sidecar.Proto.{DecoratedEvent}
use xatu_sidecar.Processor.Externals.{Externals, SidecarConfig}
use xatu_sidecar.Processor.Handler.{Handler}
use xatu_sidecar.Processor.Handler.Delivery.{CalmSinks}
use xatu_sidecar.Processor.Summary.{Summary}
use xatu_sidecar.Sidecar.{
  Globals, LogLevel, level_of, with_ntp_server, install, configure, read_config, batch_result,
  parse_batch, logged, send_from, send_with, failure, bad_events, send_body, recover, init,
  send_event_batch, shutdown, process_events, split_batch,
}
use xatu_sidecar.Sidecar.Batch.{count_all, Exports, process_events-Exports}
use xatu_sidecar.Processor.Config.{Config}
use xatu_sidecar.Processor.Lifecycle.{new_handler}
use xatu_sidecar.Processor.Summary.Counts.{count_event}
use xatu_sidecar.Processor.Summary.{add_event_stream_events, add_events_exported, Summary}
use xatu_sidecar.Processor.Summary.{add_event_stream_events, add_events_exported}

module _ (X : Externals) where
  -- One call, and the state after it.
  pub data Call : Globals X → Globals X → Type 0 where
    called_init :
        (g : Globals X) (uuid : String) (config : Option String) → Call g (init X uuid config g).1
    called_send :
        (g : Globals X) (moments : ℕ → Moment) (events : Option String)
        → Call g (send_event_batch X moments events g).1
    called_shutdown : (g : Globals X) → Call g (shutdown X g).1

  -- The states after any number of calls on the package's initial globals.
  pub data Reached : Globals X → Type 0 where
    initial : Reached (record { log = none; handler = none })
    after : (g g' : Globals X) → Reached g → Call g g' → Reached g'

  -- A handler never stands without a logger, and its count of failed events is zero.
  pub record IsSound (g : Globals X) : Type 0 where
    pub logs : (h : Handler X) → g.handler ≡ some h → g.log ≢ none
    pub failed : (h : Handler X) → g.handler ≡ some h → h.summary.failed_events ≡ 0

  same-IsSound :
      (g g' : Globals X) → g'.handler ≡ g.handler → g'.log ≡ g.log → IsSound g → IsSound g'
  same-IsSound g g' p q s = record {
    logs = λ h r n. s.logs h (sym p ∙ r) (sym q ∙ n);
    failed = λ h r. s.failed h (sym p ∙ r);
  }

  count_all-failed :
      (events : List DecoratedEvent) (s : Summary)
      → (count_all X events s).failed_events ≡ s.failed_events
  unfolding count_all add_event_stream_events add_events_exported count_event
  count_all-failed [] s = refl
  count_all-failed (e ∷ events) s = count_all-failed events _

  -- A new handler has counted nothing.
  new_handler-failed :
      (uuid : String) (c : Option Config) (h : Handler X)
      → new_handler X uuid c ≡ ok h
      → h.summary.failed_events ≡ 0
  unfolding new_handler
  new_handler-failed uuid c h p = ground arith

  install-IsSound :
      (o : Outcome (Handler X)) (g : Globals X)
      → ((h : Handler X) → o ≡ ok h → h.summary.failed_events ≡ 0)
      → g.log ≢ none
      → IsSound g
      → IsSound (install X o g).1
  install-IsSound (ok h) g fresh l s = record {
    logs = λ h' p. l;
    failed = λ h' p.
        let e : h ≡ h' = cc p in
        subst (λ (k : Handler X). k.summary.failed_events ≡ 0) e (fresh h refl);
  }
  install-IsSound (err e) g fresh l s = record { logs = λ h' p. l; failed = λ h' p. absurd (cc p) }
  install-IsSound panic g fresh l s = s

  configure-IsSound :
      (uuid : String) (c : SidecarConfig) (g : Globals X)
      → IsSound g
      → IsSound (configure X uuid c g).1
  configure-IsSound uuid c g s = go c.processor
    where
      level : LogLevel
      level = elim c.log_level [ none ↦ LogLevel.info | some text ↦ level_of text ]

      g' : Globals X
      g' = record g { log = some level }

      sound : IsSound g'
      sound = record { logs = λ h p q. cc q; failed = s.failed }

      run : Option Config → Outcome ℤ × Globals X
      run o = elim o [
        | none ↦ (panic, g')
        | some p ↦ install X (new_handler X uuid (some (with_ntp_server p))) g'
      ]

      go : (o : Option Config) → IsSound (run o).1
      go none = sound
      go (some p) =
          install-IsSound _ g' (new_handler-failed uuid (some (with_ntp_server p))) (λ q. cc q)
            sound

  init-IsSound :
      (g : Globals X) (uuid : String) (config : Option String)
      → IsSound g
      → IsSound (init X uuid config g).1
  unfolding init
  init-IsSound g uuid none s = record { logs = λ h p q. cc q; failed = s.failed }
  init-IsSound g uuid (some text) s = go (X.parse_config text)
    where
      g' : Globals X
      g' = record g { log = some LogLevel.info }

      sound : IsSound g'
      sound = record { logs = λ h p q. cc q; failed = s.failed }

      go : (o : Outcome (Option SidecarConfig)) → IsSound (read_config X uuid o g').1
      go (ok none) = sound
      go (ok (some c)) = configure-IsSound uuid c g' sound
      go (err e) = sound
      go panic = sound

  recover-state : (r : Outcome ℤ) (g : Globals X) → (recover X (r, g)).1 ≡ g
  recover-state r g = ground arith

  batch-IsSound :
      (g : Globals X) (h h' : Handler X) (events : List DecoratedEvent) (r : Outcome (Unit {0}))
      → g.handler ≡ some h
      → Exports X h events h'
      → IsSound g
      → IsSound (batch_result X (r, h') g).1
  batch-IsSound g h h' events r p e s = go r
    where
      sound : IsSound (record g { handler = some h' })
      sound = record {
        logs = λ k q. s.logs h p;
        failed = λ k q.
            let same : h' ≡ k = cc q in
            ap (λ (x : Handler X). x.summary.failed_events) (sym same)
            ∙ ap (λ (x : Summary). x.failed_events) e.summary
            ∙ count_all-failed events h.summary
            ∙ s.failed h p;
      }

      go : (r : Outcome (Unit {0})) → IsSound (batch_result X (r, h') g).1
      go (ok u) = sound
      go (err x) = sound
      go panic = sound

  logged-state : (code : ℤ) (g : Globals X) → (logged X code g).1 ≡ g
  logged-state code g = ground arith

  send_body-IsSound :
      CalmSinks X
      → (g : Globals X) (moments : ℕ → Moment) (events : Option String) → IsSound g
      → IsSound (send_body X moments events g).1
  send_body-IsSound calm g moments events s = of_handler g.handler refl
    where
      logged-IsSound : (code : ℤ) → IsSound (logged X code g).1
      logged-IsSound code = subst IsSound (sym (logged-state code g)) s

      of_batch :
          (h : Handler X) (r : Outcome (List Json))
          → g.handler ≡ some h
          → IsSound (parse_batch X moments r h g).1
      of_batch h (ok messages) p =
          let (events, _, e) = process_events-Exports X calm moments 0 messages h in
          batch-IsSound g h (process_events X moments 0 messages h).1 events
            (process_events X moments 0 messages h).0 p e s
      of_batch h (err e) p = s
      of_batch h panic p = s

      of_text :
          (text : String) (h : Handler X) (b : Bool)
          → g.handler ≡ some h
          → IsSound
              (if b
                then logged X bad_events g
                else parse_batch X moments (split_batch X text) h g).1
      of_text text h true p = logged-IsSound bad_events
      of_text text h false p = of_batch h (split_batch X text) p

      of_events :
          (o : Option String) (h : Handler X)
          → g.handler ≡ some h
          → IsSound (send_with X moments o h g).1
      of_events none h p = logged-IsSound bad_events
      of_events (some text) h p = of_text text h (str_eq text "") p

      of_handler :
          (o : Option (Handler X)) → g.handler ≡ o → IsSound (send_from X moments events o g).1
      of_handler none p = logged-IsSound failure
      of_handler (some h) p = of_events events h p

  send-IsSound :
      CalmSinks X
      → (g : Globals X) (moments : ℕ → Moment) (events : Option String) → IsSound g
      → IsSound (send_event_batch X moments events g).1
  unfolding send_event_batch
  send-IsSound calm g moments events s =
      let (r, g') = send_body X moments events g in
      subst IsSound (sym (recover-state r g')) (send_body-IsSound calm g moments events s)

  shutdown-state : (g : Globals X) → (shutdown X g).1 ≡ g
  unfolding shutdown
  shutdown-state g = ground arith

  -- In every state that calls of `Init`, `SendEventBatch` and `Shutdown` lead to, if no sink panics,
  -- a handler never stands without a logger, and no failed event is ever counted.
  pub Reached-IsSound : CalmSinks X → (g : Globals X) → Reached g → IsSound g
  Reached-IsSound calm _ initial = record {
    logs = λ h p. absurd (cc p);
    failed = λ h p. absurd (cc p);
  }
  Reached-IsSound calm _ (after g _ r (called_init _ uuid config)) =
      init-IsSound g uuid config (Reached-IsSound calm g r)
  Reached-IsSound calm _ (after g _ r (called_send _ moments events)) =
      send-IsSound calm g moments events (Reached-IsSound calm g r)
  Reached-IsSound calm _ (after g _ r (called_shutdown _)) =
      subst IsSound (sym (shutdown-state g)) (Reached-IsSound calm g r)

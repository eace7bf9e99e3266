-- ===== src/Sidecar/Codes.antt =====
-- The result codes of `Init` and `SendEventBatch` in main.go.
use xatu_sidecar.Prelude.{ℕ, String, ◌≡◌, ◌≢◌, Option, none, some, [], arith, str_eq, if◌then◌else◌}
use xatu_sidecar.Prelude.Int.{ℤ}
use xatu_sidecar.Outcome.{Outcome, ok, err, panic}
use xatu_sidecar.Event.Source.{Moment}
use xatu_sidecar.Processor.Externals.{Externals}
use xatu_sidecar.Processor.Config.{Config}
use xatu_sidecar.Processor.Handler.{Handler}
use xatu_sidecar.Processor.Lifecycle.{new_handler, start}
use xatu_sidecar.Sidecar.{
  with_ntp_server, Globals, LogLevel, success, failure, bad_events, send_event_batch, split_batch,
}

module _ (X : Externals) where
  -- Once the logger is set, a call of `SendEventBatch` returns, whatever panics in it, and its
  -- result is -1 if there is no handler, and otherwise -2 if the batch is nil, empty or no list of
  -- messages, and 0 if it is a list of messages or if reading it panics.
  pub send_event_batch-code :
      (moments : ℕ → Moment) (events : Option String) (g : Globals X) (l : LogLevel)
      → g.log ≡ some l
      → (send_event_batch X moments events g).0
        ≡ ok (elim g.handler [
          | none ↦ failure
          | some _ ↦ elim events [
            | none ↦ bad_events
            | some text ↦ if str_eq text "" then bad_events else elim (split_batch X text) [
              | ok _ ↦ success
              | err _ ↦ bad_events
              | panic ↦ success
            ]
          ]
        ])
  unfolding send_event_batch
  send_event_batch-code moments events g l p = ground arith

  -- Before the first call of `Init`, a call of `SendEventBatch` panics: the logger that it reports
  -- the missing handler to is nil, and so is the one that the recovery from that panic reports to.
  pub send_event_batch_before_init :
      (moments : ℕ → Moment) (events : Option String) (g : Globals X)
      → g.log ≡ none
      → g.handler ≡ none
      → send_event_batch X moments events g ≡ (panic, g)
  unfolding send_event_batch
  send_event_batch_before_init moments events g p q = ground arith

  -- A handler that was made of a processor section and has started is in place under a logger.
  abbrev pub Started : String → Option Config → Outcome ℤ × Globals X → Type 0
  Started uuid processor res =
      (p : Config) × (h : Handler X) × (processor ≡ some p)
      × (new_handler X uuid (some (with_ntp_server p)) ≡ ok h)
      × ((start X h []).0 ≡ ok tt)
      × (res.1.handler ≡ some h)
      × (res.1.log ≢ none)

-- ===== src/Processor/Lifecycle.antt =====
-- The life of a handler in pkg/processor/handler.go: its creation, start, clock synchronisation and
-- stop. A handler that was created has its scheduler, wallclock and block slot cache, so the nil
-- tests of `Stop` pass. `log.Fatal` ends the process; nothing above it recovers from a panic, so it
-- is one here.
pub mod Stopping
pub mod Creation
use xatu_sidecar.Prelude.{ℕ, String, Option, none, some, List, [], ◌∷◌}
use xatu_sidecar.Prelude.Int.{ℤ, scale}
use xatu_sidecar.Outcome.{
  Outcome, ok, err, panic, Method, lift, config_required, failed_create_wallclock, ◌>>=◌, ◌>>◌,
}
use xatu_sidecar.Event.Instant.{to_int64, wrap_int64}
use xatu_sidecar.Cache.BlockSlot.{new_block_slot_cache}
use xatu_sidecar.Cache.Duplicate.{new_duplicate_cache}
use xatu_sidecar.Wallclock.{Wallclock}
use xatu_sidecar.Processor.Config.{Config, Ethereum, validate, create_sinks}
use xatu_sidecar.Processor.Summary.{new_summary}
use xatu_sidecar.Processor.Externals.{Externals}
use xatu_sidecar.Processor.Handler.{Handler}

-- One call of a `Stop` or `Shutdown` method.
pub data Stopped (X : Externals) : Type 0 where
  sink : X.Sink → Stopped X
  scheduler wallclock block_slots : Stopped X

module _ (X : Externals) where
  or_failed : Option Wallclock → Outcome Wallclock
  or_failed none = err failed_create_wallclock
  or_failed (some w) = ok w

  -- The genesis time is converted to int64, and the slot's duration is an int64 product.
  wallclock_for : Ethereum → Outcome Wallclock
  unfolding or_failed
  wallclock_for e = or_failed (
      X.new_wallclock (scale 1_000_000_000 (to_int64 e.genesis_time))
        (wrap_int64 (scale 1_000_000_000 (to_int64 e.seconds_per_slot))) e.slots_per_epoch)

  assemble : String → List X.Sink → Wallclock → Config → Handler X
  assemble uuid sinks w config = record {
    sinks = sinks;
    config = config;
    duplicate_cache = new_duplicate_cache X.duplicates;
    block_slots = new_block_slot_cache X.slots;
    wallclock = w;
    summary = new_summary;
    clock_drift = ℤ.pos 0;
    id = uuid;
    sent = [];
  }

  -- The steps after the nil test; the defaults that the sinks' creation writes go to the handler.
  create : String → Method Config (Handler X)
  unfolding wallclock_for assemble
  create uuid config =
      (do
        lift (validate X.outputs config)
        sinks ← create_sinks X.outputs
        w ← lift (wallclock_for config.ethereum)
        lift X.new_scheduler
        λ c. (ok (assemble uuid sinks w c), c))
        config

  unfoldable pub new_handler : String → Option Config → Outcome (Handler X)
  unfolding create
  new_handler uuid none = err config_required
  new_handler uuid (some config) = (create uuid config).0

  -- The sinks are started in order until one fails; the state lists the calls, newest first.
  unfoldable pub start_sinks : List X.Sink → Method (List X.Sink) (Unit {0})
  start_sinks [] calls = (ok tt, calls)
  start_sinks (s ∷ rest) calls =
      let more = start_sinks rest (s ∷ calls) in
      elim (X.start_sink s) [
        | ok _ ↦ more
        | err e ↦ (err e, s ∷ calls)
        | panic ↦ (panic, s ∷ calls)
      ]

  fatal : Outcome (Unit {0}) → Outcome (Unit {0})
  fatal (ok u) = ok u
  fatal (err e) = panic
  fatal panic = panic

  -- One job, which synchronises the clock; the scheduler then runs it by itself.
  abbrev start_crons : Outcome (Unit {0})
  start_crons = X.new_job

  unfoldable pub start : Handler X → Method (List X.Sink) (Unit {0})
  unfolding start_sinks fatal
  start h = do lift (fatal start_crons); start_sinks h.sinks

  -- The drift is stored only if the query and the response's validation succeed.
  unfoldable pub sync_clock_drift : ℕ → Method (Handler X) (Unit {0})
  sync_clock_drift t h =
      (do
        response ← lift (X.ntp_query t h.config.ntp_server)
        lift response.validity
        λ s. (ok tt, record s { clock_drift = response.clock_offset }))
        h

  unfoldable pub stop_sinks : List X.Sink → Method (List (Stopped X)) (Unit {0})
  stop_sinks [] calls = (ok tt, calls)
  stop_sinks (s ∷ rest) calls =
      let more = stop_sinks rest (sink s ∷ calls) in
      elim (X.stop_sink s) [
        | ok _ ↦ more
        | err e ↦ (err e, sink s ∷ calls)
        | panic ↦ (panic, sink s ∷ calls)
      ]

  note : Stopped X → Outcome (Unit {0}) → Method (List (Stopped X)) (Unit {0})
  note call r calls = (r, call ∷ calls)

  unfoldable pub stop : Handler X → Method (List (Stopped X)) (Unit {0})
  unfolding stop_sinks note
  stop h = do
    stop_sinks h.sinks
    note scheduler X.shutdown_scheduler
    note wallclock (ok tt)
    note block_slots (ok tt)

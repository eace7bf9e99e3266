-- ===== src/Processor/Lifecycle/Stopping.antt =====
-- What `Stop` of pkg/processor/handler.go stops.
use xatu_sidecar.Prelude.{◌≡◌, refl, sym, ap, ◌∙◌, List, [], ◌∷◌, ◌++◌, append-nil, All}
use xatu_sidecar.Outcome.{ok, err, Error}
use xatu_sidecar.Processor.Externals.{Externals}
use xatu_sidecar.Processor.Handler.{Handler}
use xatu_sidecar.Processor.Lifecycle.{Stopped, stop_sinks, stop}

module _ (X : Externals) where
  -- The sinks stop without an error.
  abbrev pub Stops : X.Sink → Type 0
  Stops s = X.stop_sink s ≡ ok tt

  -- The calls that stop each sink, the newest first.
  unfoldable pub sinks_stopped : List X.Sink → List (Stopped X) → List (Stopped X)
  sinks_stopped [] calls = calls
  sinks_stopped (s ∷ rest) calls = sinks_stopped rest (Stopped.sink s ∷ calls)

  stop_sinks-Stops :
      (first rest : List X.Sink) (calls : List (Stopped X))
      → All Stops first
      → stop_sinks X (first ++ rest) calls ≡ stop_sinks X rest (sinks_stopped first calls)
  unfolding stop_sinks sinks_stopped
  stop_sinks-Stops [] rest calls a = refl
  stop_sinks-Stops (s ∷ first) rest calls a =
      rw a.0 (stop_sinks-Stops first rest (Stopped.sink s ∷ calls) a.1)

  every_sink :
      (sinks : List X.Sink)
      → All Stops sinks
      → stop_sinks X sinks [] ≡ (ok tt, sinks_stopped sinks [])
  unfolding stop_sinks
  every_sink sinks a =
      ap (λ l. stop_sinks X l []) (sym (append-nil sinks)) ∙ stop_sinks-Stops sinks [] [] a

  failed :
      (s : X.Sink) (rest : List X.Sink) (calls : List (Stopped X)) (e : Error)
      → X.stop_sink s ≡ err e
      → stop_sinks X (s ∷ rest) calls ≡ (err e, Stopped.sink s ∷ calls)
  unfolding stop_sinks
  failed s rest calls e q = rw (stop_sinks, q) refl

  -- If every sink stops, the scheduler is shut down after them; if that succeeds too, the wallclock
  -- and the block slot cache are stopped, and `Stop` succeeds.
  pub stop_completes :
      (h : Handler X)
      → All Stops h.sinks
      → X.shutdown_scheduler ≡ ok tt
      → stop X h [] ≡ (
        ok tt,
        Stopped.block_slots ∷ Stopped.wallclock ∷ Stopped.scheduler ∷ sinks_stopped h.sinks [],
      )
  unfolding stop
  stop_completes h a p =
      let all : stop_sinks X h.sinks [] ≡ (ok tt, sinks_stopped h.sinks []) =
        every_sink h.sinks a in
      rw (all, p) refl

  -- If a sink fails to stop after others that stop, `Stop` returns its error, and neither the sinks
  -- after it nor the scheduler, the wallclock and the block slot cache are stopped.
  pub stop_cut_short :
      (h : Handler X) (first rest : List X.Sink) (s : X.Sink) (e : Error)
      → h.sinks ≡ first ++ (s ∷ rest)
      → All Stops first
      → X.stop_sink s ≡ err e
      → stop X h [] ≡ (err e, Stopped.sink s ∷ sinks_stopped first [])
  unfolding stop
  stop_cut_short h first rest s e p a q =
      let cut : stop_sinks X h.sinks [] ≡ (err e, Stopped.sink s ∷ sinks_stopped first []) =
        rw p
          (stop_sinks-Stops first (s ∷ rest) [] a ∙ failed s rest (sinks_stopped first []) e q) in
      rw cut refl

-- ===== src/Tests/Settings.antt =====
-- The theorems on the configuration and on stopping at concrete settings.
use xatu_sidecar.Prelude.{String, ◌≡◌, refl, ◌↔◌, List, [], ◌∷◌, map, All}
use xatu_sidecar.Outcome.{ok, err, Error, output_failed}
use xatu_sidecar.Processor.Config.{
  Ethereum, OutputConfig, validate_ethereum, validate, with_shipping, create_sinks,
}
use xatu_sidecar.Processor.Config.Validity.{
  IsComplete, Refuses, validate_ethereum_iff, validate_iff,
}
use xatu_sidecar.Processor.Config.Sinks.{Made, create_sinks_iff}
use xatu_sidecar.Processor.Handler.{Handler}
use xatu_sidecar.Processor.Lifecycle.Creation.{
  IsFresh, new_handler-IsFresh, Synced, sync_clock_drift-Synced,
}
use xatu_sidecar.Processor.Lifecycle.{new_handler, sync_clock_drift, Stopped, stop}
use xatu_sidecar.Processor.Lifecycle.Stopping.{sinks_stopped, stop_completes, stop_cut_short}
use xatu_sidecar.Tests.World.{incomplete_config, outputs, world, sidecar_with}

abbrev complete : Ethereum
complete = record incomplete_config.ethereum { genesis_time = 1_606_824_023 }

validate_ethereum_iff_example : (validate_ethereum complete ≡ ok tt) ↔ IsComplete complete
validate_ethereum_iff_example = validate_ethereum_iff complete

validate_iff_example :
    ((validate outputs incomplete_config ≡ ok tt)
      ↔ All (λ (o : OutputConfig). outputs.validate_output o ≡ ok tt) incomplete_config.outputs)
    × ((name : String) (e : Error)
        → Refuses outputs incomplete_config.outputs name e
        → validate outputs incomplete_config ≡ err (output_failed name e))
validate_iff_example = validate_iff outputs incomplete_config

abbrev shipped : List OutputConfig
shipped = map (with_shipping outputs) incomplete_config.outputs

create_sinks_iff_example :
    (create_sinks outputs incomplete_config
      ≡ (ok (1 ∷ []), record incomplete_config { outputs = shipped }))
    ↔ Made outputs incomplete_config.outputs (1 ∷ []) shipped
create_sinks_iff_example = create_sinks_iff outputs incomplete_config (1 ∷ []) shipped

stop_completes_example : stop world (sidecar_with (1 ∷ 2 ∷ [])) [] ≡ (
  ok tt,
  Stopped.block_slots
      ∷ Stopped.wallclock
      ∷ Stopped.scheduler
      ∷ Stopped.sink 2
      ∷ Stopped.sink 1
      ∷ [],
)
unfolding sinks_stopped
stop_completes_example = stop_completes world (sidecar_with (1 ∷ 2 ∷ [])) (refl, (refl, tt)) refl

stop_cut_short_example :
    stop world (sidecar_with (1 ∷ 9 ∷ 2 ∷ [])) []
    ≡ (err (Error.external "stuck"), Stopped.sink 9 ∷ Stopped.sink 1 ∷ [])
unfolding sinks_stopped
stop_cut_short_example =
    stop_cut_short world (sidecar_with (1 ∷ 9 ∷ 2 ∷ [])) (1 ∷ []) (2 ∷ []) 9
      (Error.external "stuck") refl (refl, tt) refl

abbrev new_sidecar : Handler world
new_sidecar = record (sidecar_with (1 ∷ [])) {
  config = record incomplete_config {
    outputs = map (with_shipping outputs) incomplete_config.outputs;
  };
}

new_handler-IsFresh_example :
    (validate outputs incomplete_config ≡ ok tt) × IsFresh world "id" incomplete_config new_sidecar
unfolding new_handler create_sinks validate
new_handler-IsFresh_example = new_handler-IsFresh world "id" incomplete_config new_sidecar refl

sync_clock_drift-Synced_example :
    Synced world 5 (sidecar_with []) (sync_clock_drift world 5 (sidecar_with []))
sync_clock_drift-Synced_example = sync_clock_drift-Synced world 5 (sidecar_with [])

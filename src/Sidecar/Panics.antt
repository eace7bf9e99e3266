-- ===== src/Sidecar/Panics.antt =====
-- The panics of `Init` in main.go.
use xatu_sidecar.Prelude.{String, ◌≡◌, ◌≢◌, ◌↔◌, ◌⊎◌, Option, none, some}
use xatu_sidecar.Prelude.Int.{ℤ}
use xatu_sidecar.Outcome.{Outcome, ok, panic}
use xatu_sidecar.Event.Returning.{Returns}
use xatu_sidecar.Processor.Config.{OutputConfig, Config}
use xatu_sidecar.Processor.Externals.{Externals, SidecarConfig}
use xatu_sidecar.Processor.Handler.{Handler}
use xatu_sidecar.Sidecar.{Globals}

-- What `Init` calls outside of the repository does not panic, and the scheduler takes its one job,
-- without which the process would end.
pub record Setup (X : Externals) : Type 0 where
  pub parse_config : (text : String) → Returns (X.parse_config text)
  pub validate_output : (o : OutputConfig) → Returns (X.outputs.validate_output o)
  pub new_sink : (o : OutputConfig) (method : String) → Returns (X.outputs.new_sink o method)
  pub new_scheduler : Returns X.new_scheduler
  pub new_job : X.new_job ≡ ok tt
  pub start_sink : (s : X.Sink) → Returns (X.start_sink s)

module _ (X : Externals) where
  -- The configuration is parsed and has no processor section.
  abbrev pub NoProcessor : Option String → Type 0
  NoProcessor config =
      (text : String) × (config ≡ some text)
      × ((X.parse_config text ≡ ok none)
          ⊎ ((c : SidecarConfig) × (X.parse_config text ≡ ok (some c)) × (c.processor ≡ none)))

module _ (X : Externals) (setup : Setup X) where
  -- What is to be shown of a result of `Init`.
  abbrev PanicsOnlyFor : Option String → Globals X → Outcome ℤ × Globals X → Type 0
  PanicsOnlyFor config g res =
      ((res.0 ≡ panic) ↔ (NoProcessor X config × (res.1.handler ≡ g.handler))) × (res.1.log ≢ none)

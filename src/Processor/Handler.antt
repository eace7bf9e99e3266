-- ===== src/Processor/Handler.antt =====
-- The state of pkg/processor/handler.go and the steps that its event cases share.
use xatu_sidecar.Prelude.{ℕ, String, Bool, true, false, none, List, [], ◌∷◌, str_eq, if◌then◌else◌}
pub mod Delivery
use Prim.Native.String
use xatu_sidecar.Prelude.Int.{ℤ}
use xatu_sidecar.Outcome.{Outcome, ok, err, panic, Method, pure, lift, ◌>>=◌}
use xatu_sidecar.Cache.BlockSlot.{resolve}
use xatu_sidecar.Cache.Duplicate.{DuplicateCache}
use xatu_sidecar.Cache.Field.{CacheField}
use xatu_sidecar.Wallclock.{Wallclock}
use xatu_sidecar.Version.{short}
use xatu_sidecar.Proto.{ClientMeta, DecoratedEvent}
use xatu_sidecar.Event.Source.{Moment}
use xatu_sidecar.Processor.Config.{Config}
use xatu_sidecar.Processor.Drift.{clock_drift_millis}
use xatu_sidecar.Processor.Summary.{Summary, add_events_exported, add_event_stream_events}
use xatu_sidecar.Processor.Externals.{Externals}

-- `sent` is no field of the source: it records the calls of the sinks, newest first.
pub record Handler (X : Externals) : Type 0 where
  pub sinks : List X.Sink
  pub config : Config
  pub duplicate_cache : DuplicateCache X.duplicates
  pub block_slots : X.slots.Cache
  pub wallclock : Wallclock
  pub summary : Summary
  pub clock_drift : ℤ
  pub id : String
  pub sent : List (X.Sink × DecoratedEvent)

module _ (X : Externals) where
  abbrev pub current_clock_drift : Handler X → ℤ
  current_clock_drift h = h.clock_drift

  -- The client metadata is made anew for each event, so no event shares it.
  abbrev pub create_new_client_meta : Handler X → ℤ → ClientMeta
  create_new_client_meta h drift = record {
    name = h.config.name;
    version = short X.build;
    id = h.id;
    implementation =
        String.◌++◌ "Xatu Sidecar (" (String.◌++◌ h.config.ethereum.implementation ")");
    module_name = "SIDECAR";
    os = X.goos;
    clock_drift = clock_drift_millis drift;
    network_name = h.config.ethereum.network.name;
    network_id = h.config.ethereum.network.id;
    consensus_implementation = h.config.client.name;
    consensus_version = h.config.client.version;
    additional_data = none;
  }

  -- The loop over the sinks: an error is logged, and the next sink is called.
  unfoldable pub deliver : List X.Sink → DecoratedEvent → Method (Handler X) (Unit {0})
  deliver [] event h = (ok tt, h)
  deliver (sink ∷ rest) event h =
      let after : Handler X = record h { sent = (sink, event) ∷ h.sent } in
      let more = deliver rest event after in
      elim (X.send h.sent sink event) [ ok _ ↦ more | err _ ↦ more | panic ↦ (panic, after) ]

  abbrev pub topic_of : DecoratedEvent → String
  topic_of event =
      let event_type = X.event_name_text event.event.name in
      if str_eq event_type "" then "unknown" else event_type

  abbrev pub count : String → Handler X → Handler X
  count topic h = record h {
    summary = add_event_stream_events topic 1 (add_events_exported 1 h.summary);
  }

  unfoldable pub handle_new_decorated_event : DecoratedEvent → Method (Handler X) (Unit {0})
  unfolding deliver
  handle_new_decorated_event event h = deliver h.sinks event (count (topic_of event) h)

  -- A method of one duplicate cache, on the handler.
  abbrev pub on_cache {ℓ} :
      {A : Type ℓ}
      → CacheField X.duplicates
      → (X.duplicates.Cache → Outcome A × X.duplicates.Cache)
      → Handler X
      → Outcome A × Handler X
  on_cache field m h =
      let (r, c) = m (field.get h.duplicate_cache) in
      (r, record h { duplicate_cache = field.put c h.duplicate_cache })

  -- A function that may change the block slots, on the handler.
  abbrev pub on_block_slots {ℓ} :
      {A : Type ℓ} → (X.slots.Cache → A × X.slots.Cache) → Handler X → Outcome A × Handler X
  on_block_slots f h = let (a, c) = f h.block_slots in (ok a, record h { block_slots = c })

  abbrev pub resolve_slot : Moment → String → ℕ → Method (Handler X) ℕ
  resolve_slot m block_root slot = on_block_slots (resolve X.slots m.resolve_at block_root slot)

  -- An event goes to the sinks unless it is ignored.
  abbrev pub export_unless : Bool → Outcome DecoratedEvent → Method (Handler X) (Unit {0})
  export_unless true decorated = pure tt
  export_unless false decorated = do event ← lift decorated; handle_new_decorated_event event

  unfoldable pub export_event :
      CacheField X.duplicates
      → Method X.duplicates.Cache Bool
      → Outcome DecoratedEvent
      → Method (Handler X) (Unit {0})
  export_event field should_ignore decorated = do
    ignore ← on_cache field should_ignore
    export_unless ignore decorated

-- ===== src/Event/Source.antt =====
-- What the event structs of pkg/event/gossipsub have in common. Each file declares a struct with the
-- same fields and builds it the same way; loggers are left out, and the duplicate cache that a
-- struct points to is the state that its `ShouldIgnore` works on.
use xatu_sidecar.Prelude.{ℕ, String, ◌≡◌, Option, some, arith}
use xatu_sidecar.Prelude.Int.{ℤ, ◌+ℤ◌}
use xatu_sidecar.Outcome.{Outcome, ok, err, panic}
use xatu_sidecar.Wallclock.{Wallclock}
use xatu_sidecar.Proto.{ClientMeta, EventName, DecoratedEvent}
use xatu_sidecar.Proto.Payload.{EventData}
use xatu_sidecar.Proto.Additional.{AdditionalData}
use xatu_sidecar.Event.Instant.{unix_milli}

-- What the surroundings supply while one event is handled: the clock readings of the block slot
-- cache, the duplicate cache and the beacon chain clock, and a new UUID.
pub record Moment : Type 0 where
  pub resolve_at : ℕ
  pub dedup_at : ℕ
  pub slot_at : ℕ
  pub uuid : String

-- An event struct over its raw event, to which it has a pointer.
pub record Source (Raw : Type 0) : Type 0 where
  pub raw : Option Raw
  pub wallclock : Wallclock
  pub client_meta : ClientMeta
  pub now : ℤ
  pub id : String
  pub clock_drift : ℤ

module _ {Raw : Type 0} where
  -- The constructors read `event.TimestampMs`, so the pointer that they are given is not nil.
  abbrev pub new_source : Raw → ℤ → ℤ → Wallclock → ClientMeta → String → Source Raw
  new_source raw timestamp_ms drift w meta uuid = record {
    raw = some raw;
    wallclock = w;
    client_meta = meta;
    now = unix_milli timestamp_ms;
    id = uuid;
    clock_drift = drift;
  }

  -- The event before its additional data is there; its time is corrected by the clock's drift.
  abbrev pub base_event : Source Raw → EventName → ℤ → EventData → DecoratedEvent
  base_event e name timestamp payload = record {
    event = record { name = name; date_time = timestamp +ℤ e.clock_drift; id = e.id };
    client = e.client_meta;
    payload = payload;
  }

-- An error in the additional data is logged, and the event goes out without it.
abbrev pub attach : DecoratedEvent → Outcome AdditionalData → Outcome DecoratedEvent
attach event (ok extra) =
    ok (record event { client = record event.client { additional_data = some extra } })
attach event (err e) = ok event
attach event panic = panic

-- Additional data changes nothing else of an event.
pub attach_lem :
    (event : DecoratedEvent) (extra : Outcome AdditionalData) (d : DecoratedEvent)
    → attach event extra ≡ ok d
    → (d.event ≡ event.event)
      × (d.payload ≡ event.payload)
      × (d.client ≡ record event.client { additional_data = d.client.additional_data })
attach_lem event (ok extra) d h = ground arith
attach_lem event (err e) d h = ground arith
attach_lem event panic d h = cc

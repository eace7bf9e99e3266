-- ===== src/Event/Returning/Partials.antt =====
-- On panics in the decoration and the tests of the events of pkg/event/gossipsub.
use xatu_sidecar.Prelude.{ℕ, ◌≡◌, some, arith}
use xatu_sidecar.Prelude.Int.{ℤ}
use xatu_sidecar.Outcome.{Outcome}
use xatu_sidecar.Ttl.{TtlCache}
use xatu_sidecar.Event.Source.{Moment}
use xatu_sidecar.Event.Gossip.{gossip_data}
use xatu_sidecar.Event.Partial.{is_stale_slot, new_block_timing, validate_enum}
use xatu_sidecar.Event.Freshness.{too_old, ignore_duplicate, should_ignore_hashed}
use xatu_sidecar.Event.PartialDataColumn
use xatu_sidecar.Event.DataColumnCompleted
use xatu_sidecar.Event.PartialDataColumnOutcome
use xatu_sidecar.Event.Returning.{Returns, Answers}

pub partial_data_column-decorate-Returns :
    (e : PartialDataColumn.PartialDataColumn) (raw : PartialDataColumn.RawPartialDataColumn)
    → e.raw ≡ some raw
    → Answers e.wallclock
    → Returns (PartialDataColumn.decorate e)
unfolding PartialDataColumn.decorate gossip_data new_block_timing
partial_data_column-decorate-Returns e raw p a = let n = a.from_time e.now in ground (arith, n, p)

pub partial_data_column-should_ignore-Returns :
    (D : TtlCache ℤ) (hash : PartialDataColumn.RawPartialDataColumn → Outcome ℕ) (m : Moment)
    (e : PartialDataColumn.PartialDataColumn) (raw : PartialDataColumn.RawPartialDataColumn)
    (c : D.Cache)
    → e.raw ≡ some raw
    → Answers e.wallclock
    → Returns (hash raw)
    → Returns (PartialDataColumn.should_ignore D hash m e c).0
unfolding PartialDataColumn.should_ignore should_ignore_hashed ignore_duplicate too_old
    is_stale_slot validate_enum
partial_data_column-should_ignore-Returns D hash m e raw c p a k =
    let n = a.now m.slot_at in ground (arith, n, p, k)

pub data_column_completed-decorate-Returns :
    (e : DataColumnCompleted.DataColumnCompleted) (raw : DataColumnCompleted.RawDataColumnCompleted)
    → e.raw ≡ some raw
    → Answers e.wallclock
    → Returns (DataColumnCompleted.decorate e)
unfolding DataColumnCompleted.decorate gossip_data new_block_timing
data_column_completed-decorate-Returns e raw p a = let n = a.from_time e.now in ground (arith, n, p)

pub data_column_completed-should_ignore-Returns :
    (D : TtlCache ℤ) (m : Moment) (e : DataColumnCompleted.DataColumnCompleted)
    (raw : DataColumnCompleted.RawDataColumnCompleted) (c : D.Cache)
    → e.raw ≡ some raw
    → Answers e.wallclock
    → Returns (DataColumnCompleted.should_ignore D m e c).0
unfolding DataColumnCompleted.should_ignore should_ignore_hashed ignore_duplicate too_old
    is_stale_slot validate_enum
data_column_completed-should_ignore-Returns D m e raw c p a =
    let n = a.now m.slot_at in ground (arith, n, p)

pub partial_data_column_outcome-decorate-Returns :
    (e : PartialDataColumnOutcome.PartialDataColumnOutcome)
    (raw : PartialDataColumnOutcome.RawPartialDataColumnOutcome)
    → e.raw ≡ some raw
    → Answers e.wallclock
    → Returns (PartialDataColumnOutcome.decorate e)
unfolding PartialDataColumnOutcome.decorate gossip_data new_block_timing
partial_data_column_outcome-decorate-Returns e raw p a =
    let n = a.from_time e.now in ground (arith, n, p)

pub partial_data_column_outcome-should_ignore-Returns :
    (D : TtlCache ℤ) (hash : PartialDataColumnOutcome.RawPartialDataColumnOutcome → Outcome ℕ)
    (m : Moment) (e : PartialDataColumnOutcome.PartialDataColumnOutcome)
    (raw : PartialDataColumnOutcome.RawPartialDataColumnOutcome) (c : D.Cache)
    → e.raw ≡ some raw
    → Answers e.wallclock
    → Returns (hash raw)
    → Returns (PartialDataColumnOutcome.should_ignore D hash m e c).0
unfolding PartialDataColumnOutcome.should_ignore should_ignore_hashed ignore_duplicate too_old
    is_stale_slot validate_enum
partial_data_column_outcome-should_ignore-Returns D hash m e raw c p a k =
    let n = a.now m.slot_at in ground (arith, n, p, k)

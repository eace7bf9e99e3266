-- ===== src/Event/Again/Partials.antt =====
-- `ShouldIgnore` of the partial data column events of pkg/event/gossipsub, made twice.
use xatu_sidecar.Prelude.{ℕ, ◌≡◌, Bool, some}
use xatu_sidecar.Prelude.Int.{ℤ}
use xatu_sidecar.Outcome.{
  Outcome, Method, continue, invalid_completed_via, invalid_partial_direction,
  invalid_partial_capture_point, invalid_partial_stage, invalid_partial_outcome,
}
use xatu_sidecar.Decimal.{decimal}
use xatu_sidecar.Ttl.{TtlCache, TtlLaws}
use xatu_sidecar.Event.Source.{Moment}
use xatu_sidecar.Event.Freshness.{ignore_duplicate}
use xatu_sidecar.Event.Freshness.Twice.{Stopped, InTerm, continue-Stopped, ignore_duplicate-Stopped}
use xatu_sidecar.Event.Partial.{validate_enum, is_stale_slot}
use xatu_sidecar.Event.PartialDataColumn
use xatu_sidecar.Event.PartialDataColumn.{
  directions, capture_points, PartialDataColumn, RawPartialDataColumn,
}
use xatu_sidecar.Event.DataColumnCompleted
use xatu_sidecar.Event.DataColumnCompleted.{
  completion_key, completed_vias, DataColumnCompleted, RawDataColumnCompleted,
}
use xatu_sidecar.Event.PartialDataColumnOutcome
use xatu_sidecar.Event.PartialDataColumnOutcome.{
  stages, outcomes, PartialDataColumnOutcome, RawPartialDataColumnOutcome,
}

module _ (D : TtlCache ℤ) where
  abbrev by_hash : Outcome ℕ → Moment → ℤ → Outcome Bool → Method D.Cache Bool
  by_hash hashed m now rest s =
      continue (hashed, s) (λ k. ignore_duplicate D m.dedup_at (decimal k) now rest)

  abbrev validated :
      Outcome (Unit {0})
      → Outcome (Unit {0})
      → Outcome ℕ
      → Moment
      → ℤ
      → Outcome Bool
      → Method D.Cache Bool
  validated v w hashed m now rest s =
      continue (v, s) (λ _ s'. continue (w, s') (λ _ s''. by_hash hashed m now rest s''))

module _ (D : TtlCache ℤ) (laws : TtlLaws D) (m n : Moment) (c : D.Cache) where
  -- The second test comes within the time to live of the first.
  abbrev Again : Type 0
  Again = InTerm D laws m.dedup_at n.dedup_at c

  -- Two checks of the values, then the test by the hash.
  validated-Stopped :
      (v w : Outcome (Unit {0})) (hashed : Outcome ℕ) (now₁ now₂ : ℤ) (rest₁ rest₂ : Outcome Bool)
      → Again
      → Stopped (validated D v w hashed n now₂ rest₂ (validated D v w hashed m now₁ rest₁ c).1).0
  validated-Stopped v w hashed now₁ now₂ rest₁ rest₂ i =
      continue-Stopped v (λ _ s. continue (w, s) (λ _ s'. by_hash D hashed m now₁ rest₁ s'))
        (λ _ s. continue (w, s) (λ _ s'. by_hash D hashed n now₂ rest₂ s')) c
        λ _.
          continue-Stopped w (λ _ s. by_hash D hashed m now₁ rest₁ s)
            (λ _ s. by_hash D hashed n now₂ rest₂ s) c
            λ _.
              continue-Stopped hashed (λ k. ignore_duplicate D m.dedup_at (decimal k) now₁ rest₁)
                (λ k. ignore_duplicate D n.dedup_at (decimal k) now₂ rest₂) c
                λ k.
                  ignore_duplicate-Stopped D laws m.dedup_at n.dedup_at (decimal k) now₁ now₂ rest₁
                    rest₂ c i

  pub partial_data_column-Stopped :
      (hash : RawPartialDataColumn → Outcome ℕ) (e₁ e₂ : PartialDataColumn)
      (raw : RawPartialDataColumn)
      → e₁.raw ≡ some raw
      → e₂.raw ≡ some raw
      → Again
      → Stopped
          (PartialDataColumn.should_ignore D hash n e₂
            (PartialDataColumn.should_ignore D hash m e₁ c).1).0
  unfolding PartialDataColumn.should_ignore
  partial_data_column-Stopped hash e₁ e₂ raw p q i =
      let stale₁ = (is_stale_slot e₁.wallclock e₁.slot m.slot_at) in
      let stale₂ = (is_stale_slot e₂.wallclock e₂.slot n.slot_at) in
      rw (p, q)
        (validated-Stopped (validate_enum raw.direction directions invalid_partial_direction)
          (validate_enum raw.capture_point capture_points invalid_partial_capture_point) (hash raw)
          e₁.now e₂.now stale₁ stale₂ i)

  pub data_column_completed-Stopped :
      (e₁ e₂ : DataColumnCompleted) (raw : RawDataColumnCompleted)
      → e₁.raw ≡ some raw
      → e₂.raw ≡ some raw
      → Again
      → Stopped
          (DataColumnCompleted.should_ignore D n e₂
            (DataColumnCompleted.should_ignore D m e₁ c).1).0
  unfolding DataColumnCompleted.should_ignore
  data_column_completed-Stopped e₁ e₂ raw p q i =
      let key = completion_key raw.block_root raw.column_index in
      let stale₁ = (is_stale_slot e₁.wallclock raw.slot m.slot_at) in
      let stale₂ = (is_stale_slot e₂.wallclock raw.slot n.slot_at) in
      rw (p, q)
        (continue-Stopped (validate_enum raw.completed_via completed_vias invalid_completed_via)
          (λ _. ignore_duplicate D m.dedup_at key e₁.now stale₁)
          (λ _. ignore_duplicate D n.dedup_at key e₂.now stale₂) c
          λ _.
            ignore_duplicate-Stopped D laws m.dedup_at n.dedup_at key e₁.now e₂.now stale₁ stale₂ c
              i)

  pub partial_data_column_outcome-Stopped :
      (hash : RawPartialDataColumnOutcome → Outcome ℕ) (e₁ e₂ : PartialDataColumnOutcome)
      (raw : RawPartialDataColumnOutcome)
      → e₁.raw ≡ some raw
      → e₂.raw ≡ some raw
      → Again
      → Stopped
          (PartialDataColumnOutcome.should_ignore D hash n e₂
            (PartialDataColumnOutcome.should_ignore D hash m e₁ c).1).0
  unfolding PartialDataColumnOutcome.should_ignore
  partial_data_column_outcome-Stopped hash e₁ e₂ raw p q i =
      let stale₁ = (is_stale_slot e₁.wallclock e₁.slot m.slot_at) in
      let stale₂ = (is_stale_slot e₂.wallclock e₂.slot n.slot_at) in
      rw (p, q)
        (validated-Stopped (validate_enum raw.stage stages invalid_partial_stage)
          (validate_enum raw.outcome outcomes invalid_partial_outcome) (hash raw) e₁.now e₂.now
          stale₁ stale₂ i)

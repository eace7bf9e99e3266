-- ===== src/Event/PartialDataColumnOutcome.antt =====
-- pkg/event/gossipsub/partial_data_column_outcome.go
use xatu_sidecar.Prelude.{ℕ, String, Bool, true, none, some, List, [], ◌∷◌}
use xatu_sidecar.Prelude.Int.{ℤ}
use xatu_sidecar.Outcome.{
  Outcome, panic, map_ok, Method, pure, lift, ◌>>=◌, ◌>>◌, invalid_partial_stage,
  invalid_partial_outcome,
}
use xatu_sidecar.Decimal.{decimal}
use xatu_sidecar.Ttl.{TtlCache}
use xatu_sidecar.Cache.BlockSlot.{resolve}
use xatu_sidecar.Wallclock.{Wallclock}
use xatu_sidecar.Proto.{ClientMeta, EventName, DecoratedEvent}
use xatu_sidecar.Proto.Payload.{EventData}
use xatu_sidecar.Proto.Additional.{AdditionalData}
use xatu_sidecar.Event.Source.{Moment, Source, new_source, base_event, attach}
use xatu_sidecar.Event.Freshness.{ignore_duplicate}
use xatu_sidecar.Event.Partial
use xatu_sidecar.Event.Partial.{validate_enum, new_block_timing, is_stale_slot, optional_string}

pub record RawPartialDataColumnOutcome : Type 0 where
  pub timestamp_ms : ℤ
  pub peer_id : String
  pub topic : String
  pub group_id : String
  pub block_root : String
  pub slot : ℕ
  pub column_index : ℕ
  pub stage : String
  pub outcome : String
  pub reason : String
  pub cells_count : ℕ
  pub new_cells_count : ℕ

pub record PartialDataColumnOutcome : Type 0 where
  pub source : Source RawPartialDataColumnOutcome
  pub open source use *
  pub slot : ℕ

module _ (S : TtlCache ℕ) where
  -- An unknown slot is resolved from the block slot cache, and a known one is recorded there.
  unfoldable pub new_partial_data_column_outcome :
      Moment
      → RawPartialDataColumnOutcome
      → ℤ
      → Wallclock
      → ClientMeta
      → S.Cache
      → PartialDataColumnOutcome × S.Cache
  new_partial_data_column_outcome m raw drift w meta block_slots =
      let (slot, c) = resolve S m.resolve_at raw.block_root raw.slot block_slots in
      (record { source = new_source raw raw.timestamp_ms drift w meta m.uuid; slot = slot }, c)

unfoldable pub decorate : PartialDataColumnOutcome → Outcome DecoratedEvent
decorate e = elim e.raw [
  | none ↦ panic
  | some raw ↦
      attach
        (base_event e.source EventName.libp2p_trace_gossipsub_partial_data_column_outcome e.now (
          EventData.partial_data_column_outcome (record {
            group_id = optional_string raw.group_id;
            block_root = optional_string raw.block_root;
            column_index = raw.column_index;
            stage = raw.stage;
            outcome = raw.outcome;
            reason = optional_string raw.reason;
            cells_count = raw.cells_count;
            new_cells_count = raw.new_cells_count;
          })))
        (map_ok
          (λ timing. AdditionalData.partial_data_column_outcome (record {
            wallclock_slot = timing.wallclock_slot;
            wallclock_epoch = timing.wallclock_epoch;
            slot = timing.slot;
            epoch = timing.epoch;
            peer_id = raw.peer_id;
            topic = optional_string raw.topic;
          }))
          (new_block_timing e.wallclock e.now e.slot))
]

abbrev pub stages : List String
stages = Partial.stage_decode ∷ Partial.stage_header ∷ Partial.stage_cells ∷ []

abbrev pub outcomes : List String
outcomes = Partial.outcome_accept ∷ Partial.outcome_ignore ∷ Partial.outcome_reject ∷ []

module _ (D : TtlCache ℤ) (hash : RawPartialDataColumnOutcome → Outcome ℕ) where
  unfoldable pub should_ignore : Moment → PartialDataColumnOutcome → Method D.Cache Bool
  unfolding ignore_duplicate
  should_ignore m e = elim e.raw [
    | none ↦ pure true
    | some raw ↦ do
      lift (validate_enum raw.stage stages invalid_partial_stage)
      lift (validate_enum raw.outcome outcomes invalid_partial_outcome)
      h ← lift (hash raw)
      ignore_duplicate D m.dedup_at (decimal h) e.now (is_stale_slot e.wallclock e.slot m.slot_at)
  ]

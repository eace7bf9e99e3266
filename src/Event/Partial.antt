-- ===== src/Event/Partial.antt =====
-- pkg/event/gossipsub/partial.go: what the three events of partial data columns share.
pub mod Rules
use xatu_sidecar.Prelude.{
  ℕ, ◌-◌, String, Bool, true, false, ◌||◌, ◌&&◌, Option, none, some, List, [], ◌∷◌, ltb, leb, ◌==◌,
  str_eq, if◌then◌else◌,
}
use xatu_sidecar.Prelude.Int.{ℤ}
use xatu_sidecar.Outcome.{Outcome, ok, err, panic, Error, invalid_value, wallclock_time}
use xatu_sidecar.Wallclock.{Wallclock, Now}
use xatu_sidecar.Proto.Additional.{BlockTiming}
use xatu_sidecar.Event.Instant.{slot_start_diff}
use xatu_sidecar.Event.Gossip.{slot_v2, epoch_v2}

-- Partial data column directions and capture points.
abbrev pub direction_recv : String
direction_recv = "RECV"

abbrev pub direction_send : String
direction_send = "SEND"

abbrev pub direction_drop : String
direction_drop = "DROP"

abbrev pub capture_point_wire : String
capture_point_wire = "WIRE"

abbrev pub capture_point_app : String
capture_point_app = "APP"

-- Data column completion paths.
abbrev pub via_full_gossip : String
via_full_gossip = "FULL_GOSSIP"

abbrev pub via_partial_gossip : String
via_partial_gossip = "PARTIAL_GOSSIP"

abbrev pub via_el : String
via_el = "EL"

abbrev pub via_reconstruction : String
via_reconstruction = "RECONSTRUCTION"

abbrev pub via_unknown : String
via_unknown = "UNKNOWN"

-- Validation stages and outcomes.
abbrev pub stage_decode : String
stage_decode = "DECODE"

abbrev pub stage_header : String
stage_header = "HEADER"

abbrev pub stage_cells : String
stage_cells = "CELLS"

abbrev pub outcome_accept : String
outcome_accept = "ACCEPT"

abbrev pub outcome_ignore : String
outcome_ignore = "IGNORE"

abbrev pub outcome_reject : String
outcome_reject = "REJECT"

abbrev pub max_partial_slot_age : ℕ
max_partial_slot_age = 16

-- `slices.Contains`
unfoldable pub contains : List String → String → Bool
contains [] value = false
contains (x ∷ xs) value = str_eq x value || contains xs value

unfoldable pub validate_enum : String → List String → Error → Outcome (Unit {0})
validate_enum value allowed e =
    if contains allowed value then ok tt else err (invalid_value e value)

-- What hangs on the block's slot is left out when the slot is zero, that is unknown.
unfoldable pub new_block_timing : Wallclock → ℤ → ℕ → Outcome BlockTiming
new_block_timing w timestamp slot_number = elim (w.from_time timestamp) [
  | ok current ↦ ok (timing current)
  | err e ↦ err (wallclock_time e)
  | panic ↦ panic
]
  where
    timing : Now → BlockTiming
    timing current =
        let base : BlockTiming = record {
          wallclock_slot = slot_v2 current.slot.number current.slot;
          wallclock_epoch = epoch_v2 current.epoch;
          slot = none;
          epoch = none;
          propagation = none;
        } in
        if slot_number == 0 then base else record base {
          slot = some (slot_v2 slot_number (w.slot_from_number slot_number));
          epoch = some (epoch_v2 (w.epoch_from_slot slot_number));
          propagation = some (slot_start_diff timestamp (w.slot_from_number slot_number).start);
        }

-- The clock is not asked for a slot that is unknown.
unfoldable pub is_stale_slot : Wallclock → ℕ → ℕ → Outcome Bool
is_stale_slot w slot t = if slot == 0 then ok false else elim (w.now t) [
  | ok current ↦ ok (
      leb max_partial_slot_age current.slot.number
      && ltb slot (current.slot.number - max_partial_slot_age))
  | err e ↦ err e
  | panic ↦ panic
]

unfoldable pub optional_string : String → Option String
optional_string value = if str_eq value "" then none else some value

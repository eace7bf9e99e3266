-- ===== src/Event/Instant/Bounds.antt =====
-- The propagation delay of pkg/event/gossipsub, in closed form.
use xatu_sidecar.Prelude.{ℕ, ◌+◌, ◌-◌, ◌/◌, ◌≡◌, arith}
use xatu_sidecar.Prelude.Int.{ℤ, pos, negsuc, pos_part, neg_part}
use xatu_sidecar.Event.Instant.{slot_start_diff, max_int64}
use Prim.Native.Nat.{min}

-- How far one instant is after another, and zero if it is before.
abbrev pub elapsed : ℤ → ℤ → ℕ
elapsed t u = (pos_part t + neg_part u) - (pos_part u + neg_part t)

-- The propagation delay of a message is the time from the start of its slot to its timestamp, in
-- whole milliseconds; it is zero for a message from before the slot, and the delay stops at the
-- largest duration instead of wrapping.
pub slot_start_diff-elapsed :
    (timestamp start : ℤ)
    → slot_start_diff timestamp start ≡ min (elapsed timestamp start) max_int64 / 1_000_000
unfolding slot_start_diff
slot_start_diff-elapsed (pos a) (pos b) = ground arith
slot_start_diff-elapsed (pos a) (negsuc b) = ground arith
slot_start_diff-elapsed (negsuc a) (pos b) = ground arith
slot_start_diff-elapsed (negsuc a) (negsuc b) = ground arith

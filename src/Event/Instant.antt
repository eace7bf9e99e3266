-- ===== src/Event/Instant.antt =====
-- The arithmetic of Go's `time` that the events use: instants and durations in nanoseconds. A
-- `time.Time` made by `time.UnixMilli` is far from the ends of its range, and is an integer here; a
-- `time.Duration` is an int64, at whose ends `Time.Sub` stops.
pub mod Bounds
use xatu_sidecar.Prelude.{ℕ, zero, suc, ◌-◌, ◌/◌, ◌%◌, ◌^◌, ltb, if◌then◌else◌}
use xatu_sidecar.Prelude.Int.{ℤ, pos, negsuc, ◌-ℤ◌, scale}

abbrev pub max_int64 : ℕ
max_int64 = 2 ^ 63 - 1

-- `time.UnixMilli(ms)`
unfoldable pub unix_milli : ℤ → ℤ
unfolding scale
unix_milli ms = scale 1_000_000 ms

-- An integer brought into the range of an int64.
unfoldable pub saturate : ℤ → ℤ
saturate (pos n) = if ltb max_int64 n then pos max_int64 else pos n
saturate (negsuc n) = if ltb max_int64 n then negsuc max_int64 else negsuc n

-- `t.Sub(u)`
unfoldable pub sub_time : ℤ → ℤ → ℤ
unfolding saturate ◌-ℤ◌
sub_time t u = saturate (t -ℤ u)

abbrev negate : ℕ → ℤ
negate zero = pos 0
negate (suc n) = negsuc n

-- `d.Milliseconds()`, which rounds towards zero
unfoldable pub milliseconds : ℤ → ℤ
milliseconds (pos n) = pos (n / 1_000_000)
milliseconds (negsuc n) = negate (suc n / 1_000_000)

-- The value of `SlotStartDiff`: the milliseconds from the slot's start, none before it.
unfoldable pub slot_start_diff : ℤ → ℤ → ℕ
unfolding sub_time milliseconds
slot_start_diff timestamp start = elim (milliseconds (sub_time timestamp start)) [
  | pos diff ↦ diff
  | negsuc _ ↦ 0
]

-- `int64(n)` of a uint64, and an integer product brought back into an int64.
unfoldable pub to_int64 : ℕ → ℤ
to_int64 n = if ltb max_int64 n then negsuc (2 ^ 64 - n - 1) else pos n

unfoldable pub wrap_int64 : ℤ → ℤ
unfolding to_int64
wrap_int64 (pos n) = to_int64 (n % 2 ^ 64)
wrap_int64 (negsuc n) = to_int64 (2 ^ 64 - 1 - n % 2 ^ 64)

-- ===== src/Processor/Drift.antt =====
-- The clock drift of pkg/processor/handler.go: its value in the client metadata, and its update from
-- an NTP response.
use xatu_sidecar.Prelude.{ℕ, ◌/◌, ◌^◌, ◌≡◌, refl, arith, zero, suc, ◌-◌}
use xatu_sidecar.Prelude.Int.{ℤ, pos, negsuc, abs}
use xatu_sidecar.Event.Instant.{milliseconds}

-- `-ms`
abbrev negated : ℤ → ℤ
negated (pos zero) = pos 0
negated (pos (suc n)) = negsuc n
negated (negsuc n) = pos (suc n)

abbrev if_negative : ℤ → ℤ
if_negative (pos n) = pos n
if_negative (negsuc n) = negated (negsuc n)

-- `uint64(ms)`
abbrev to_uint64 : ℤ → ℕ
to_uint64 (pos n) = n
to_uint64 (negsuc n) = 2 ^ 64 - suc n

unfoldable pub clock_drift_millis : ℤ → ℕ
unfolding milliseconds
clock_drift_millis drift = to_uint64 (if_negative (milliseconds drift))

-- The drift in the metadata is the size of the drift in whole milliseconds, for either sign and down
-- to the least duration, whose negation does not fit in an int64.
pub clock_drift_millis-abs : (drift : ℤ) → clock_drift_millis drift ≡ abs drift / 1_000_000
unfolding clock_drift_millis
clock_drift_millis-abs (pos n) = refl
clock_drift_millis-abs (negsuc n) = ground arith

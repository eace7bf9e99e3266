-- ===== src/Event/Returning.antt =====
-- What it is for a call to come to an end without a panic, and the beacon chain clocks that do.
pub mod Blocks
pub mod Payloads
pub mod Partials
use xatu_sidecar.Prelude.{ℕ, ◌≢◌}
use xatu_sidecar.Prelude.Int.{ℤ}
use xatu_sidecar.Outcome.{Outcome, panic}
use xatu_sidecar.Wallclock.{Wallclock}

-- No panic.
abbrev pub Returns {ℓ} : {A : Type ℓ} → Outcome A → Type ℓ
Returns r = r ≢ panic

-- The chain's clock answers, with a value or an error.
pub record Answers (w : Wallclock) : Type 0 where
  pub now : (t : ℕ) → Returns (w.now t)
  pub from_time : (t : ℤ) → Returns (w.from_time t)

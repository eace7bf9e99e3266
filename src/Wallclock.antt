-- ===== src/Wallclock.antt =====
-- The beacon chain clock (github.com/ethpandaops/ethwallclock), which is not part of this
-- repository: the calls that the sidecar makes of it. Instants are nanoseconds since the Unix epoch;
-- `now` takes the reading of the clock that the call makes.
use xatu_sidecar.Prelude.{ℕ, ◌/◌, ◌≡◌}
use xatu_sidecar.Prelude.Int.{ℤ}
use xatu_sidecar.Outcome.{Outcome}

-- What is read of a `Slot` or an `Epoch`: `Number()` and `TimeWindow().Start()`.
pub record Window : Type 0 where
  pub number : ℕ
  pub start : ℤ

pub record Now : Type 0 where
  pub slot : Window
  pub epoch : Window

pub record Wallclock : Type 0 where
  -- `Now()`
  pub now : ℕ → Outcome Now
  -- `FromTime(t)`
  pub from_time : ℤ → Outcome Now
  -- `Slots().FromNumber(n)`
  pub slot_from_number : ℕ → Window
  -- `Epochs().FromSlot(n)`: the epoch that the slot lies in
  pub epoch_from_slot : ℕ → Window

-- An epoch is a run of so many slots, and its window is fixed by its number.
pub record EpochLaws (w : Wallclock) (slots_per_epoch : ℕ) (epoch_start : ℕ → ℤ) : Type 0 where
  pub number : (n : ℕ) → (w.epoch_from_slot n).number ≡ n / slots_per_epoch
  pub start : (n : ℕ) → (w.epoch_from_slot n).start ≡ epoch_start (n / slots_per_epoch)

-- ===== src/Event/Freshness/Age.antt =====
-- The age limit of pkg/event/gossipsub against its plain meaning.
use xatu_sidecar.Prelude.{ℕ, ◌+◌, ◌<◌, ◌≡◌, ◌↔◌, true, arith}
use xatu_sidecar.Outcome.{ok}
use xatu_sidecar.Wallclock.{Wallclock, Now}
use xatu_sidecar.Event.Freshness.{max_slot_age, too_old}

-- With the clock at a known slot, an event is too old exactly when its slot is more than sixteen
-- slots before the current one; early in the chain, before slot sixteen, no slot is.
pub too_old_iff :
    (w : Wallclock) (slot t : ℕ) (current : Now)
    → w.now t ≡ ok current
    → (too_old w slot t ≡ ok true) ↔ (slot + max_slot_age < current.slot.number)
unfolding too_old
too_old_iff w slot t current h = ground arith

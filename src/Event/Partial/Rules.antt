-- ===== src/Event/Partial/Rules.antt =====
-- The rules that pkg/event/gossipsub/partial.go sets for the events of partial data columns.
use xatu_sidecar.Prelude.{
  ℕ, ◌+◌, ◌<◌, String, ◌≡◌, refl, ◌≢◌, ◌↔◌, inl, inr, true, false, none, List, [], ◌∷◌, arith,
  eq_iff, Bool-cases,
}
use xatu_sidecar.Prelude.Int.{ℤ}
use xatu_sidecar.Outcome.{ok, err, Error, invalid_value}
use mathlib.Core.Logic.{◌⊎◌}
use xatu_sidecar.Wallclock.{Wallclock, Now}
use xatu_sidecar.Proto.Additional.{BlockTiming}
use xatu_sidecar.Event.Partial.{
  validate_enum, contains, is_stale_slot, max_partial_slot_age, new_block_timing,
}

-- The value is one of the list.
abbrev pub OneOf : String → List String → Type 0
OneOf v [] = ⊥
OneOf v (x ∷ xs) = (x ≡ v) ⊎ OneOf v xs

contains_iff : (xs : List String) (v : String) → (contains xs v ≡ true) ↔ OneOf v xs
unfolding contains
contains_iff [] v = ground arith
contains_iff (x ∷ xs) v = ground (arith, eq_iff x v, contains_iff xs v)

-- A value passes exactly if it is one of those allowed; any other is refused by an error that wraps
-- the given one and names the value.
pub validate_enum_iff :
    (value : String) (allowed : List String) (e : Error)
    → ((validate_enum value allowed e ≡ ok tt) ↔ OneOf value allowed)
      × ((¬ OneOf value allowed) → validate_enum value allowed e ≡ err (invalid_value e value))
unfolding validate_enum
validate_enum_iff value allowed e =
    let both = contains_iff allowed value in
    elim (Bool-cases (contains allowed value)) [
      | inl y ↦ ((λ _. both.0 y, λ _. rw y refl), λ no'. absurd (no' (both.0 y)))
      | inr n ↦ ((λ h. ground arith, λ h. let y = both.1 h in ground arith), λ _. rw n refl)
    ]

-- A known slot is stale exactly if it is more than sixteen slots behind the clock, and an unknown
-- slot never is, even when the clock fails.
pub is_stale_slot_iff :
    (w : Wallclock) (slot t : ℕ)
    → (is_stale_slot w 0 t ≡ ok false)
      × ((current : Now)
          → w.now t ≡ ok current
          → slot ≢ 0
          → (is_stale_slot w slot t ≡ ok true)
            ↔ (slot + max_partial_slot_age < current.slot.number))
unfolding is_stale_slot
is_stale_slot_iff w slot t = (refl, λ current h ne. ground arith)

-- The slot, the epoch and the propagation of a timing are left out together, exactly when the slot
-- is unknown.
pub new_block_timing_known :
    (w : Wallclock) (timestamp : ℤ) (n : ℕ) (timing : BlockTiming)
    → new_block_timing w timestamp n ≡ ok timing
    → ((timing.slot ≡ none) ↔ (n ≡ 0))
      × ((timing.epoch ≡ none) ↔ (n ≡ 0))
      × ((timing.propagation ≡ none) ↔ (n ≡ 0))
unfolding new_block_timing
new_block_timing_known w timestamp n timing h = ground arith

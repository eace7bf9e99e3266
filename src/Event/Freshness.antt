-- ===== src/Event/Freshness.antt =====
-- The tests by which the events are ignored. The source's `ShouldIgnore` returns a Boolean and an
-- error; wherever it returns an error the Boolean is true, so an error stands for both.
pub mod Duplicates
pub mod History
pub mod Age
pub mod Twice
use xatu_sidecar.Prelude.{
  ℕ, ◌-◌, String, Bool, true, false, Option, none, some, ltb, leb, if◌then◌else◌,
}
use xatu_sidecar.Prelude.Int.{ℤ}
use xatu_sidecar.Outcome.{Outcome, ok, err, panic, Method, pure, lift, ◌>>=◌}
use xatu_sidecar.Decimal.{decimal}
use xatu_sidecar.Ttl.{TtlCache}
use xatu_sidecar.Wallclock.{Wallclock, Now}
use xatu_sidecar.Event.Source.{Source}

abbrev pub max_slot_age : ℕ
max_slot_age = 16

-- A slot behind the current one by more than the limit; the guard keeps the unsigned difference
-- from wrapping.
abbrev pub is_behind : Now → ℕ → Bool
is_behind current slot =
    if leb max_slot_age current.slot.number
    then (let slot_limit = current.slot.number - max_slot_age in ltb slot slot_limit)
    else false

unfoldable pub too_old : Wallclock → ℕ → ℕ → Outcome Bool
too_old w slot t = elim (w.now t) [
  | ok current ↦ ok (is_behind current slot)
  | err e ↦ err e
  | panic ↦ panic
]

module _ (D : TtlCache ℤ) where
  -- `GetOrSet` on the duplicate cache: whether the key was there.
  abbrev pub remember : ℕ → String → ℤ → Method D.Cache Bool
  remember t key now c = let (_, retrieved, c') = D.get_or_set t key now c in (ok retrieved, c')

  -- A nil event is ignored, a duplicate is ignored, and a new one goes to the last test.
  unfoldable pub ignore_duplicate : ℕ → String → ℤ → Outcome Bool → Method D.Cache Bool
  ignore_duplicate t key now rest = do
    retrieved ← remember t key now
    if retrieved then pure true else lift rest

  -- The common start: the key is the decimal text of the raw event's hash.
  unfoldable pub should_ignore_hashed :
      {Raw : Type 0}
      → (Raw → Outcome ℕ)
      → (Raw → Outcome Bool)
      → ℕ
      → Source Raw
      → Method D.Cache Bool
  unfolding ignore_duplicate
  should_ignore_hashed hash rest t e = elim e.raw [
    | none ↦ pure true
    | some raw ↦ do h ← lift (hash raw); ignore_duplicate t (decimal h) e.now (rest raw)
  ]

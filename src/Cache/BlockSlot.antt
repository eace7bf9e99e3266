-- ===== src/Cache/BlockSlot.antt =====
-- pkg/cache/block_slot.go: block roots mapped to slots. The cache is the field `cache` of the
-- source's struct; the goroutine that `Start` and `Stop` govern only evicts items whose term has
-- run out, which no lookup returns anyway.
pub mod Learned
use xatu_sidecar.Prelude.{
  ℕ, ◌*◌, String, Bool, false, Option, none, some, str_eq, ◌==◌, if◌then◌else◌, ltb, leb,
}
use xatu_sidecar.Ttl.{TtlCache}

-- 7 * time.Minute
abbrev pub block_slot_ttl : ℕ
block_slot_ttl = 7 * 60_000_000_000

abbrev pub or_zero : Option ℕ → ℕ
or_zero none = 0
or_zero (some slot) = slot

module _ (S : TtlCache ℕ) where
  -- touch on hit is disabled
  abbrev pub new_block_slot_cache : S.Cache
  new_block_slot_cache = S.new block_slot_ttl false

  -- The slot that is returned, and the cache after the call, which reads the clock at `t`.
  unfoldable pub resolve : ℕ → String → ℕ → S.Cache → ℕ × S.Cache
  resolve t block_root slot c =
      if str_eq block_root ""
      then (slot, c)
      else if ltb 0 slot
      then (slot, S.set t block_root slot c)
      else let (found, c') = S.get t block_root c in (or_zero found, c')

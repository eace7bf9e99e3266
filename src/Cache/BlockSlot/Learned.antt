-- ===== src/Cache/BlockSlot/Learned.antt =====
-- What `resolve` of pkg/cache/block_slot.go returns over a history of calls: a known slot itself,
-- and otherwise what the history last recorded for the root.
use xatu_sidecar.Prelude.{
  ℕ, ◌+◌, ◌≤◌, String, ◌≡◌, ◌≢◌, refl, ◌∙◌, false, ◌&&◌, List, [], ◌∷◌, arith, str_eq, eq_iff, leb,
  ltb, if◌then◌else◌, inl, inr, Bool-cases,
}
use xatu_sidecar.Ttl.{TtlCache, TtlLaws}
use xatu_sidecar.Cache.BlockSlot.{or_zero, block_slot_ttl, resolve, new_block_slot_cache}

-- One call: its clock reading, and its arguments.
pub record Call : Type 0 where
  pub at : ℕ
  pub root : String
  pub slot : ℕ

-- The abstract view, newest call first: the last non-zero slot recorded for the root, while it is
-- at most the time to live old.
unfoldable pub last_slot : List Call → ℕ → String → ℕ
last_slot [] t root = 0
last_slot (c ∷ older) t root =
    let before = last_slot older t root in
    if str_eq c.root root && ltb 0 c.slot
    then (if leb t (c.at + block_slot_ttl) then c.slot else 0)
    else before

-- Newest first, none later than the given reading.
abbrev pub Ordered : List Call → ℕ → Type 0
Ordered [] t = Unit {0}
Ordered (c ∷ older) t = (c.at ≤ t) × Ordered older c.at

Ordered-mono : (calls : List Call) (t u : ℕ) → t ≤ u → Ordered calls t → Ordered calls u
Ordered-mono [] t u h o = tt
Ordered-mono (c ∷ older) t u h o = (omega arith, o.1)

module _ (S : TtlCache ℕ) where
  -- The cache after a history.
  unfoldable pub replay : List Call → S.Cache
  replay [] = new_block_slot_cache S
  replay (c ∷ older) = (resolve S c.at c.root c.slot (replay older)).1

module _ (S : TtlCache ℕ) (laws : TtlLaws S) where
  resolve-ttl :
      (t slot : ℕ) (root : String) (c : S.Cache) → S.ttl (resolve S t root slot c).1 ≡ S.ttl c
  unfolding resolve
  resolve-ttl t slot root c = ground (arith, laws.ttl-set t root slot c, laws.ttl-get t root c)

  resolve-touches :
      (t slot : ℕ) (root : String) (c : S.Cache)
      → S.touches (resolve S t root slot c).1 ≡ S.touches c
  unfolding resolve
  resolve-touches t slot root c =
      ground (arith, laws.touches-set t root slot c, laws.touches-get t root c)

  replay-ttl : (calls : List Call) → S.ttl (replay S calls) ≡ block_slot_ttl
  unfolding replay
  replay-ttl [] = laws.ttl-new _ _
  replay-ttl (c ∷ older) = resolve-ttl c.at c.slot c.root (replay S older) ∙ replay-ttl older

  replay-touches : (calls : List Call) → S.touches (replay S calls) ≡ false
  unfolding replay
  replay-touches [] = laws.touches-new _ _
  replay-touches (c ∷ older) =
      resolve-touches c.at c.slot c.root (replay S older) ∙ replay-touches older

  -- One call, seen through the items of other moments.
  item-resolve :
      (t u slot : ℕ) (root j : String) (c : S.Cache)
      → S.ttl c ≡ block_slot_ttl
      → S.touches c ≡ false
      → t ≤ u
      → j ≢ ""
      → or_zero (S.item (resolve S t root slot c).1 u j) ≡ (
          if str_eq root j && ltb 0 slot
          then (if leb u (t + block_slot_ttl) then slot else 0)
          else or_zero (S.item c u j))
  unfolding resolve
  item-resolve t u slot root j c el et h ne = ground (
    arith,
    eq_iff root "",
    eq_iff root j,
    laws.item-get t u root j c,
    laws.item-set_self t u root slot c,
    laws.item-set_expired t u root slot c,
    laws.item-set_ne t u root j slot c,
  )

  item-replay :
      (calls : List Call) (t : ℕ) (root : String)
      → Ordered calls t
      → root ≢ ""
      → or_zero (S.item (replay S calls) t root) ≡ last_slot calls t root
  unfolding replay last_slot
  item-replay [] t root o ne = rw laws.item-new refl
  item-replay (c ∷ older) t root o ne =
      rw
        (item-resolve c.at t c.slot c.root root (replay S older) (replay-ttl older)
          (replay-touches older) o.0 ne)
        (rw (item-replay older t root (Ordered-mono older c.at t o.0 o.1) ne) refl)

  -- After any history of `Resolve` calls in the order of their clock readings, a call returns its
  -- own slot if that is non-zero or the root is empty, and otherwise the last non-zero slot that the
  -- history recorded for the root, if at most seven minutes passed since, and zero if none did.
  pub resolve-last_slot :
      (calls : List Call) (t slot : ℕ) (root : String)
      → Ordered calls t
      → (resolve S t root slot (replay S calls)).0
        ≡ (if str_eq root "" then slot else if ltb 0 slot then slot else last_slot calls t root)
  unfolding resolve
  resolve-last_slot calls t slot root o = elim (Bool-cases (str_eq root "")) [
    | inl e ↦ rw e refl
    | inr e ↦
        let ne : root ≢ "" = λ p. let q = (eq_iff root "").1 p in cc (q, e) in
        ground (arith, laws.get-item t root (replay S calls), item-replay calls t root o ne)
  ]

-- ===== src/Event/Freshness/Twice.antt =====
-- A test of pkg/event/gossipsub that is made twice on one raw event.
use xatu_sidecar.Prelude.{
  ℕ, ◌+◌, ◌≤◌, String, ◌≡◌, ◌≢◌, inl, inr, Bool, true, false, some, Bool-cases,
}
use xatu_sidecar.Prelude.Int.{ℤ}
use xatu_sidecar.Outcome.{Outcome, ok, err, panic, Method, continue}
use xatu_sidecar.Decimal.{decimal}
use xatu_sidecar.Ttl.{TtlCache, TtlLaws}
use xatu_sidecar.Event.Source.{Source}
use xatu_sidecar.Event.Freshness.{ignore_duplicate, should_ignore_hashed}
use xatu_sidecar.Event.Freshness.Duplicates.{remembered}

-- The event does not pass.
abbrev pub Stopped : Outcome Bool → Type 0
Stopped r = r ≢ ok false

-- A step before the test gives both times the same.
pub continue-Stopped :
    {A C : Type 0} (o : Outcome A) (k₁ k₂ : A → Method C Bool) (c : C)
    → ((a : A) → Stopped (k₂ a (k₁ a c).1).0)
    → Stopped (continue (o, (continue (o, c) k₁).1) k₂).0
continue-Stopped (ok a) k₁ k₂ c h = h a
continue-Stopped (err e) k₁ k₂ c h = λ q. cc
continue-Stopped panic k₁ k₂ c h = λ q. cc

module _ (D : TtlCache ℤ) (laws : TtlLaws D) where
  -- The cache touches on a hit, and the second reading is within the time to live of the first.
  pub record InTerm (t u : ℕ) (c : D.Cache) : Type 0 where
    pub touches : D.touches c ≡ true
    pub after : t ≤ u
    pub within : u ≤ t + D.ttl c

  pub ignore_duplicate-Stopped :
      (t u : ℕ) (key : String) (v w : ℤ) (rest₁ rest₂ : Outcome Bool) (c : D.Cache)
      → InTerm t u c
      → Stopped (ignore_duplicate D u key w rest₂ (ignore_duplicate D t key v rest₁ c).1).0
  unfolding ignore_duplicate
  ignore_duplicate-Stopped t u key v w rest₁ rest₂ c i =
      let first = (D.get_or_set t key v c).1 in
      let hit = remembered D laws t u key v w c i.touches i.after i.within in
      elim (Bool-cases first) [ inl e ↦ rw (e, hit) (λ q. cc) | inr e ↦ rw (e, hit) (λ q. cc) ]

  pub should_ignore_hashed-Stopped :
      {Raw : Type 0} (hash : Raw → Outcome ℕ) (rest₁ rest₂ : Raw → Outcome Bool) (t u : ℕ)
      (e₁ e₂ : Source Raw) (raw : Raw) (c : D.Cache)
      → e₁.raw ≡ some raw
      → e₂.raw ≡ some raw
      → InTerm t u c
      → Stopped
          (should_ignore_hashed D hash rest₂ u e₂ (should_ignore_hashed D hash rest₁ t e₁ c).1).0
  unfolding should_ignore_hashed
  should_ignore_hashed-Stopped hash rest₁ rest₂ t u e₁ e₂ raw c p q i =
      rw (p, q)
        (continue-Stopped (hash raw) (λ k. ignore_duplicate D t (decimal k) e₁.now (rest₁ raw))
          (λ k. ignore_duplicate D u (decimal k) e₂.now (rest₂ raw)) c
          (λ k. ignore_duplicate-Stopped t u (decimal k) e₁.now e₂.now (rest₁ raw) (rest₂ raw) c i))

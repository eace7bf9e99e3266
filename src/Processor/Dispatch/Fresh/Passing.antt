-- ===== src/Processor/Dispatch/Fresh/Passing.antt =====
-- What a raw event has met when the tests of pkg/event/gossipsub let it pass.
use xatu_sidecar.Prelude.{
  ℕ, String, ◌≡◌, refl, sym, ◌∙◌, inl, inr, Bool, true, false, some, Option-cases,
}
use xatu_sidecar.Prelude.Int.{ℤ}
use xatu_sidecar.Outcome.{Outcome, ok, err, panic, Method, continue}
use xatu_sidecar.Decimal.{decimal}
use xatu_sidecar.Ttl.{TtlLaws}
use xatu_sidecar.Event.Source.{Source, Moment}
use xatu_sidecar.Event.Freshness.{ignore_duplicate, should_ignore_hashed}
use xatu_sidecar.Processor.Externals.{Externals}
use xatu_sidecar.Processor.Dispatch.Fresh.{Unseen, UnseenHash}

-- A test after a step passes only if the step succeeded.
pub continue-passes :
    {A C : Type 0} (o : Outcome A) (k : A → Method C Bool) (c : C)
    → (continue (o, c) k).0 ≡ ok false
    → (a : A) × (o ≡ ok a) × ((k a c).0 ≡ ok false)
continue-passes (ok a) k c p = (a, refl, p)
continue-passes (err e) k c p = absurd (cc p)
continue-passes panic k c p = absurd (cc p)

module _ (X : Externals) (laws : TtlLaws X.duplicates) (m : Moment) where
  pub ignore_duplicate-Unseen :
      (key : String) (now : ℤ) (late : Outcome Bool) (c : X.duplicates.Cache)
      → (ignore_duplicate X.duplicates m.dedup_at key now late c).0 ≡ ok false
      → Unseen X m c key late
  unfolding ignore_duplicate
  ignore_duplicate-Unseen key now late c p =
      elim (Option-cases (X.duplicates.item c m.dedup_at key)) [
        | inl new ↦
            let miss = (laws.get_or_set_miss m.dedup_at key now c new).1 in
            let run : (ignore_duplicate X.duplicates m.dedup_at key now late c).0 ≡ late =
              rw miss refl in
            (new, sym run ∙ p)
        | inr (w, e) ↦
            let hit = (laws.get_or_set_hit m.dedup_at key now w c e).1 in
            let run : (ignore_duplicate X.duplicates m.dedup_at key now late c).0 ≡ ok true =
              rw hit refl in
            absurd (cc (sym run ∙ p))
      ]

  pub should_ignore_hashed-Unseen :
      {Raw : Type 0} (hash : Raw → Outcome ℕ) (rest : Raw → Outcome Bool) (e : Source Raw)
      (raw : Raw) (c : X.duplicates.Cache)
      → e.raw ≡ some raw
      → (should_ignore_hashed X.duplicates hash rest m.dedup_at e c).0 ≡ ok false
      → UnseenHash X m c (hash raw) (rest raw)
  unfolding should_ignore_hashed
  should_ignore_hashed-Unseen hash rest e raw c q p =
      let by_key : ℕ → Method X.duplicates.Cache Bool =
        λ k. ignore_duplicate X.duplicates m.dedup_at (decimal k) e.now (rest raw) in
      let run : (should_ignore_hashed X.duplicates hash rest m.dedup_at e c).0
          ≡ (continue (hash raw, c) by_key).0 =
        rw q refl in
      let (k, hashed, passed) = continue-passes (hash raw) by_key c (sym run ∙ p) in
      (k, hashed, ignore_duplicate-Unseen (decimal k) e.now (rest raw) c passed)

-- ===== src/Event/Freshness/History.antt =====
-- `ShouldIgnore` of pkg/event/gossipsub over a history of the events that it was asked about before,
-- those without a raw event or without a hash among them.
use xatu_sidecar.Prelude.{
  ℕ, ◌+◌, ◌^◌, ◌≤◌, ◌<◌, ◌≡◌, refl, Bool, true, false, Option, none, some, List, [], ◌∷◌, arith,
  leb, ◌==◌, eq_iff, if◌then◌else◌,
}
use xatu_sidecar.Prelude.Int.{ℤ}
use xatu_sidecar.Outcome.{Outcome, ok, err, panic}
use xatu_sidecar.Decimal.{decimal}
use xatu_sidecar.Decimal.Inverse.{decimal_injective}
use xatu_sidecar.Ttl.{TtlCache, TtlLaws}
use xatu_sidecar.Event.Source.{Source}
use xatu_sidecar.Event.Freshness.{should_ignore_hashed, ignore_duplicate}
use xatu_sidecar.Event.Freshness.Duplicates
use xatu_sidecar.Event.Freshness.Duplicates.{Sighting, seen, sighted, ignore_duplicate-seen}

-- One call: its clock reading, its event and the test that it makes of a new one.
pub record Asked (Raw : Type 0) : Type 0 where
  pub at : ℕ
  pub event : Source Raw
  pub rest : Raw → Outcome Bool

module _ {Raw : Type 0} where
  -- Newest first, none later than the given reading.
  abbrev pub Ordered : List (Asked Raw) → ℕ → Type 0
  Ordered [] t = Unit {0}
  Ordered (a ∷ older) t = (a.at ≤ t) × Ordered older a.at

abbrev value_of : Outcome ℕ → Option ℕ
value_of (ok k) = some k
value_of (err e) = none
value_of panic = none

module _ {Raw : Type 0} (hash : Raw → Outcome ℕ) where
  -- The hash of an event, if it has one.
  abbrev pub hash_of : Option Raw → Option ℕ
  hash_of none = none
  hash_of (some raw) = value_of (hash raw)

  -- The abstract view: the last event with the hash was asked about at most `ttl` ago.
  unfoldable pub recent : ℕ → List (Asked Raw) → ℕ → ℕ → Bool
  recent ttl [] t k = false
  recent ttl (a ∷ older) t k =
      let before = recent ttl older t k in
      elim (hash_of a.event.raw) [
        | none ↦ before
        | some j ↦ if j == k then leb t (a.at + ttl) else before
      ]

  module _ (D : TtlCache ℤ) where
    -- A cache that is new but for a history.
    unfoldable pub replay : ℕ → List (Asked Raw) → D.Cache
    replay ttl [] = D.new ttl true
    replay ttl (a ∷ older) = (should_ignore_hashed D hash a.rest a.at a.event (replay ttl older)).1

  -- What the calls of a history ask of the duplicate cache.
  sightings : List (Asked Raw) → List Sighting
  sightings [] = []
  sightings (a ∷ older) =
      let before = sightings older in
      elim (hash_of a.event.raw) [
        | none ↦ before
        | some k ↦ record { at = a.at; key = decimal k; value = a.event.now } ∷ before
      ]

  sightings-Ordered :
      (l : List (Asked Raw)) (t : ℕ) → Ordered l t → Duplicates.Ordered (sightings l) t
  unfolding sightings
  sightings-Ordered [] t o = tt
  sightings-Ordered (a ∷ older) t o = go (hash_of a.event.raw) (sightings-Ordered older a.at o.1)
    where
      go :
          (k : Option ℕ)
          → Duplicates.Ordered (sightings older) a.at
          → Duplicates.Ordered
              (elim k [
                | none ↦ sightings older
                | some k ↦
                    record { at = a.at; key = decimal k; value = a.event.now } ∷ sightings older
              ])
              t
      go none before = Duplicates.Ordered-mono (sightings older) a.at t o.0 before
      go (some k) before = (o.0, before)

  -- The hash is a uint64.
  abbrev pub IsUint64 : Type 0
  IsUint64 = (raw : Raw) (k : ℕ) → hash raw ≡ ok k → k < 2 ^ 64

  seen-sightings :
      IsUint64
      → (ttl : ℕ) (l : List (Asked Raw)) (t k : ℕ) → k < 2 ^ 64
      → seen ttl (sightings l) t (decimal k) ≡ recent ttl l t k
  unfolding seen sightings recent
  seen-sightings small ttl [] t k h = refl
  seen-sightings small ttl (a ∷ older) t k h = go a.event.raw (seen-sightings small ttl older t k h)
    where
      view : Option ℕ → Type 0
      view o =
          seen ttl
            (elim o [
              | none ↦ sightings older
              | some j ↦
                  record { at = a.at; key = decimal j; value = a.event.now } ∷ sightings older
            ])
            t (decimal k)
          ≡ elim o [
            | none ↦ recent ttl older t k
            | some j ↦ if j == k then leb t (a.at + ttl) else recent ttl older t k
          ]

      same :
          (j : ℕ)
          → j < 2 ^ 64
          → seen ttl (sightings older) t (decimal k) ≡ recent ttl older t k
          → view (some j)
      same j p before =
          ground (arith, eq_iff (decimal j) (decimal k), decimal_injective j k p h, before)

      hashed :
          (raw : Raw) (o : Outcome ℕ)
          → hash raw ≡ o
          → seen ttl (sightings older) t (decimal k) ≡ recent ttl older t k
          → view (value_of o)
      hashed raw (ok j) e before = same j (small raw j e) before
      hashed raw (err x) e before = before
      hashed raw panic e before = before

      go :
          (raw : Option Raw)
          → seen ttl (sightings older) t (decimal k) ≡ recent ttl older t k
          → view (hash_of raw)
      go none before = before
      go (some raw) before = hashed raw (hash raw) refl before

  module _ (D : TtlCache ℤ) (laws : TtlLaws D) where
    asked-cache :
        (a : Asked Raw) (c : D.Cache)
        → (should_ignore_hashed D hash a.rest a.at a.event c).1 ≡ elim (hash_of a.event.raw) [
          | none ↦ c
          | some k ↦ (D.get_or_set a.at (decimal k) a.event.now c).2
        ]
    unfolding should_ignore_hashed ignore_duplicate
    asked-cache a c = ground arith

    replay-sightings :
        (ttl : ℕ) (l : List (Asked Raw)) → replay D ttl l ≡ sighted D ttl (sightings l)
    unfolding replay sighted sightings
    replay-sightings ttl [] = refl
    replay-sightings ttl (a ∷ older) =
        let before = replay-sightings ttl older in
        ground (arith, asked-cache a (replay D ttl older), before)

    -- After any history of calls, in the order of their clock readings, an event is ignored as a
    -- duplicate exactly while the last event with its hash was asked about at most the time to live
    -- ago; otherwise the verdict is that of the test that follows. The hashes are uint64.
    pub should_ignore_hashed-recent :
        IsUint64
        → (ttl : ℕ) (l : List (Asked Raw)) (t k : ℕ) (e : Source Raw) (raw : Raw)
          (rest : Raw → Outcome Bool)
        → Ordered l t
        → e.raw ≡ some raw
        → hash raw ≡ ok k
        → (should_ignore_hashed D hash rest t e (replay D ttl l)).0
          ≡ (if recent ttl l t k then ok true else rest raw)
    unfolding should_ignore_hashed
    should_ignore_hashed-recent small ttl l t k e raw rest o p q =
        rw
          (
            p,
            q,
            replay-sightings ttl l,
            ignore_duplicate-seen D laws ttl (sightings l) t (decimal k) e.now (rest raw)
                (sightings-Ordered l t o),
            seen-sightings small ttl l t k (small raw k q),
          )
          refl

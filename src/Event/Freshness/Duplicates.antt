-- ===== src/Event/Freshness/Duplicates.antt =====
-- The duplicate test of pkg/event/gossipsub over a history of sightings. A hit renews the term of a
-- key, so a key is a duplicate while its last sighting, duplicate or not, is recent.
use xatu_sidecar.Prelude.{
  ℕ, ◌+◌, ◌≤◌, String, ◌≡◌, refl, ◌∙◌, ap, Bool, true, false, Option, none, some, List, [], ◌∷◌,
  arith, leb, inl, inr, str_eq, eq_iff, if◌then◌else◌, Option-cases, Bool-cases,
}
use xatu_sidecar.Prelude.Int.{ℤ}
use xatu_sidecar.Outcome.{Outcome, ok}
use xatu_sidecar.Ttl.{TtlCache, TtlLaws}
use xatu_sidecar.Event.Freshness.{ignore_duplicate}

-- One call of `GetOrSet`: its clock reading, its key and the value that it would set.
pub record Sighting : Type 0 where
  pub at : ℕ
  pub key : String
  pub value : ℤ

-- The abstract view, newest sighting first: the key's last sighting is at most `ttl` ago.
unfoldable pub seen : ℕ → List Sighting → ℕ → String → Bool
seen ttl [] t key = false
seen ttl (s ∷ older) t key =
    let before = seen ttl older t key in if str_eq s.key key then leb t (s.at + ttl) else before

-- Newest first, none later than the given reading.
abbrev pub Ordered : List Sighting → ℕ → Type 0
Ordered [] t = Unit {0}
Ordered (s ∷ older) t = (s.at ≤ t) × Ordered older s.at

pub Ordered-mono : (l : List Sighting) (t u : ℕ) → t ≤ u → Ordered l t → Ordered l u
Ordered-mono [] t u h o = tt
Ordered-mono (s ∷ older) t u h o = (omega arith, o.1)

abbrev is_some : Option ℤ → Bool
is_some none = false
is_some (some _) = true

module _ (D : TtlCache ℤ) where
  -- A cache that is new but for a history.
  unfoldable pub sighted : ℕ → List Sighting → D.Cache
  sighted ttl [] = D.new ttl true
  sighted ttl (s ∷ older) = (D.get_or_set s.at s.key s.value (sighted ttl older)).2

module _ (D : TtlCache ℤ) (laws : TtlLaws D) where
  pub retrieved_iff :
      (t : ℕ) (key : String) (v : ℤ) (c : D.Cache)
      → (D.get_or_set t key v c).1 ≡ is_some (D.item c t key)
  retrieved_iff t key v c = elim (Option-cases (D.item c t key)) [
    | inl e ↦ rw e (laws.get_or_set_miss t key v c e).1
    | inr (w, e) ↦ rw e (laws.get_or_set_hit t key v w c e).1
  ]

  sighted-ttl : (ttl : ℕ) (l : List Sighting) → D.ttl (sighted D ttl l) ≡ ttl
  unfolding sighted
  sighted-ttl ttl [] = laws.ttl-new ttl true
  sighted-ttl ttl (s ∷ older) = laws.ttl-get_or_set s.at s.key s.value _ ∙ sighted-ttl ttl older

  sighted-touches : (ttl : ℕ) (l : List Sighting) → D.touches (sighted D ttl l) ≡ true
  unfolding sighted
  sighted-touches ttl [] = laws.touches-new ttl true
  sighted-touches ttl (s ∷ older) =
      laws.touches-get_or_set s.at s.key s.value _ ∙ sighted-touches ttl older

  -- One sighting, seen through the items of later moments.
  item-sighting :
      (ttl t u : ℕ) (k j : String) (v : ℤ) (c : D.Cache)
      → D.ttl c ≡ ttl
      → D.touches c ≡ true
      → t ≤ u
      → is_some (D.item (D.get_or_set t k v c).2 u j)
        ≡ (if str_eq k j then leb u (t + ttl) else is_some (D.item c u j))
  item-sighting ttl t u k j v c el et h = ground (
    arith,
    eq_iff k j,
    laws.item-get_or_set_self t u k v c,
    laws.item-get_or_set_expired t u k v c,
    laws.item-get_or_set_ne t u k j v c,
  )

  item-sighted :
      (ttl : ℕ) (l : List Sighting) (t : ℕ) (key : String)
      → Ordered l t
      → is_some (D.item (sighted D ttl l) t key) ≡ seen ttl l t key
  unfolding sighted seen
  item-sighted ttl [] t key o = rw laws.item-new refl
  item-sighted ttl (s ∷ older) t key o =
      rw
        (item-sighting ttl s.at t s.key key s.value (sighted D ttl older) (sighted-ttl ttl older)
          (sighted-touches ttl older) o.0)
        (rw (item-sighted ttl older t key (Ordered-mono older s.at t o.0 o.1)) refl)

  -- After any history of sightings in the order of their clock readings, an event is ignored as a
  -- duplicate exactly while the last sighting of its key is at most the time to live ago; otherwise
  -- the verdict is that of the test that follows.
  pub ignore_duplicate-seen :
      (ttl : ℕ) (l : List Sighting) (t : ℕ) (key : String) (now : ℤ) (rest : Outcome Bool)
      → Ordered l t
      → (ignore_duplicate D t key now rest (sighted D ttl l)).0
        ≡ (if seen ttl l t key then ok true else rest)
  unfolding ignore_duplicate
  ignore_duplicate-seen ttl l t key now rest o =
      let e = retrieved_iff t key now (sighted D ttl l) ∙ item-sighted ttl l t key o in
      elim (Bool-cases (seen ttl l t key)) [ inl h ↦ rw (e, h) refl | inr h ↦ rw (e, h) refl ]

  -- A sighting makes one of its key that follows a hit, at most the time to live later.
  pub remembered :
      (t u : ℕ) (key : String) (v w : ℤ) (c : D.Cache)
      → D.touches c ≡ true
      → t ≤ u
      → u ≤ t + D.ttl c
      → (D.get_or_set u key w (D.get_or_set t key v c).2).1 ≡ true
  remembered t u key v w c et h l =
      retrieved_iff u key w (D.get_or_set t key v c).2
      ∙ ap is_some (laws.item-get_or_set_self t u key v c et h l)

-- ===== src/Ttl.antt =====
-- The TTL cache that the sidecar's caches are built on (github.com/jellydator/ttlcache/v3), which is
-- not part of this repository: its operations, and what its documentation says of them. A cache is
-- made with a time to live and, unless told otherwise, a hit renews an item's term. Clock readings
-- and terms are in nanoseconds; each call names the reading that it makes.
use xatu_sidecar.Prelude.{ℕ, ◌+◌, ◌≤◌, ◌<◌, String, ◌≡◌, ◌≢◌, Bool, true, false, Option, none, some}

pub record TtlCache (V : Type 0) : Type 1 where
  pub Cache : Type 0
  -- `New(WithTTL(ttl))`; the flag is false under `WithDisableTouchOnHit`
  pub new : ℕ → Bool → Cache
  pub ttl : Cache → ℕ
  pub touches : Cache → Bool
  -- the value of a key's item, if it is there and its term has not run out
  pub item : Cache → ℕ → String → Option V
  -- `Set(key, value, DefaultTTL)`
  pub set : ℕ → String → V → Cache → Cache
  -- `Get(key)`
  pub get : ℕ → String → Cache → Option V × Cache
  -- `GetOrSet(key, value, WithTTL(DefaultTTL))`: the item's value, and whether it was there
  pub get_or_set : ℕ → String → V → Cache → V × Bool × Cache

pub record TtlLaws {V : Type 0} (T : TtlCache V) : Type 0 where
  pub ttl-new : (l : ℕ) (b : Bool) → T.ttl (T.new l b) ≡ l
  pub touches-new : (l : ℕ) (b : Bool) → T.touches (T.new l b) ≡ b
  pub item-new : (l : ℕ) (b : Bool) (t : ℕ) (k : String) → T.item (T.new l b) t k ≡ none
  pub ttl-set : (t : ℕ) (k : String) (v : V) (c : T.Cache) → T.ttl (T.set t k v c) ≡ T.ttl c
  pub touches-set :
      (t : ℕ) (k : String) (v : V) (c : T.Cache) → T.touches (T.set t k v c) ≡ T.touches c
  pub item-set_self :
      (t u : ℕ) (k : String) (v : V) (c : T.Cache)
      → t ≤ u
      → u ≤ t + T.ttl c
      → T.item (T.set t k v c) u k ≡ some v
  pub item-set_expired :
      (t u : ℕ) (k : String) (v : V) (c : T.Cache)
      → t + T.ttl c < u
      → T.item (T.set t k v c) u k ≡ none
  pub item-set_ne :
      (t u : ℕ) (k j : String) (v : V) (c : T.Cache)
      → k ≢ j
      → T.item (T.set t k v c) u j ≡ T.item c u j
  pub get-item : (t : ℕ) (k : String) (c : T.Cache) → (T.get t k c).0 ≡ T.item c t k
  pub ttl-get : (t : ℕ) (k : String) (c : T.Cache) → T.ttl (T.get t k c).1 ≡ T.ttl c
  pub touches-get : (t : ℕ) (k : String) (c : T.Cache) → T.touches (T.get t k c).1 ≡ T.touches c
  -- a lookup in a cache that does not touch changes no item
  pub item-get :
      (t u : ℕ) (k j : String) (c : T.Cache)
      → T.touches c ≡ false
      → t ≤ u
      → T.item (T.get t k c).1 u j ≡ T.item c u j
  pub get_or_set_hit :
      (t : ℕ) (k : String) (v w : V) (c : T.Cache)
      → T.item c t k ≡ some w
      → ((T.get_or_set t k v c).0 ≡ w) × ((T.get_or_set t k v c).1 ≡ true)
  pub get_or_set_miss :
      (t : ℕ) (k : String) (v : V) (c : T.Cache)
      → T.item c t k ≡ none
      → ((T.get_or_set t k v c).0 ≡ v) × ((T.get_or_set t k v c).1 ≡ false)
  pub ttl-get_or_set :
      (t : ℕ) (k : String) (v : V) (c : T.Cache) → T.ttl (T.get_or_set t k v c).2 ≡ T.ttl c
  pub touches-get_or_set :
      (t : ℕ) (k : String) (v : V) (c : T.Cache) → T.touches (T.get_or_set t k v c).2 ≡ T.touches c
  -- a hit renews the term, and a miss starts one
  pub item-get_or_set_self :
      (t u : ℕ) (k : String) (v : V) (c : T.Cache)
      → T.touches c ≡ true
      → t ≤ u
      → u ≤ t + T.ttl c
      → T.item (T.get_or_set t k v c).2 u k ≡ some (T.get_or_set t k v c).0
  pub item-get_or_set_expired :
      (t u : ℕ) (k : String) (v : V) (c : T.Cache)
      → T.touches c ≡ true
      → t + T.ttl c < u
      → T.item (T.get_or_set t k v c).2 u k ≡ none
  pub item-get_or_set_ne :
      (t u : ℕ) (k j : String) (v : V) (c : T.Cache)
      → k ≢ j
      → T.item (T.get_or_set t k v c).2 u j ≡ T.item c u j

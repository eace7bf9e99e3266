-- ===== src/Tests/Store.antt =====
-- A cache with terms that meets the laws of Ttl: an association list, newest entry first.
use xatu_sidecar.Prelude.{
  ℕ, ◌+◌, String, refl, Bool, true, false, Option, none, some, List, [], ◌∷◌, arith, str_eq, eq_iff,
  eq_refl, leb, if◌then◌else◌,
}
use xatu_sidecar.Ttl.{TtlCache, TtlLaws}

pub record Entry (V : Type 0) : Type 0 where
  pub key : String
  pub value : V
  pub until : ℕ

pub record Store (V : Type 0) : Type 0 where
  pub term : ℕ
  pub renews : Bool
  pub entries : List (Entry V)

module _ {V : Type 0} where
  unfoldable pub find : List (Entry V) → ℕ → String → Option V
  find [] t k = none
  find (e ∷ es) t k =
      let older = find es t k in
      if str_eq e.key k then (if leb t e.until then some e.value else none) else older

  unfoldable pub add : ℕ → String → V → Store V → Store V
  add t k v s = record s { entries = record { key = k; value = v; until = t + s.term } ∷ s.entries }

  unfoldable pub touch : ℕ → String → V → Store V → Store V
  unfolding add
  touch t k v s = if s.renews then add t k v s else s

  unfoldable pub look : ℕ → String → Store V → Option V × Store V
  unfolding touch
  look t k s = elim (find s.entries t k) [ none ↦ (none, s) | some v ↦ (some v, touch t k v s) ]

  unfoldable pub look_or_add : ℕ → String → V → Store V → V × Bool × Store V
  unfolding touch add
  look_or_add t k v s = elim (find s.entries t k) [
    | none ↦ (v, false, add t k v s)
    | some w ↦ (w, true, touch t k w s)
  ]

unfoldable pub store_cache : (V : Type 0) → TtlCache V
unfolding look look_or_add
store_cache V = record {
  Cache = Store V;
  new = λ term renews. record { term = term; renews = renews; entries = [] };
  ttl = λ s. s.term;
  touches = λ s. s.renews;
  item = λ s t k. find s.entries t k;
  set = add;
  get = look;
  get_or_set = look_or_add;
}

pub store_cache-TtlLaws : (V : Type 0) → TtlLaws (store_cache V)
unfolding store_cache look look_or_add find
store_cache-TtlLaws V = record {
  ttl-new = λ l b. refl;
  touches-new = λ l b. refl;
  item-new = λ l b t k. refl;
  ttl-set = λ t k v c. refl;
  touches-set = λ t k v c. refl;
  item-set_self = λ t u k v c h l. ground (arith, eq_refl k);
  item-set_expired = λ t u k v c h. ground (arith, eq_refl k);
  item-set_ne = λ t u k j v c n. ground (arith, eq_iff k j);
  get-item = λ t k c. ground arith;
  ttl-get = λ t k c. ground arith;
  touches-get = λ t k c. ground arith;
  item-get = λ t u k j c off h. ground arith;
  get_or_set_hit = λ t k v w c p. ground arith;
  get_or_set_miss = λ t k v c p. ground arith;
  ttl-get_or_set = λ t k v c. ground arith;
  touches-get_or_set = λ t k v c. ground arith;
  item-get_or_set_self = λ t u k v c on h l. ground (arith, eq_refl k);
  item-get_or_set_expired = λ t u k v c on h. ground (arith, eq_refl k);
  item-get_or_set_ne = λ t u k j v c n. ground (arith, eq_iff k j);
}

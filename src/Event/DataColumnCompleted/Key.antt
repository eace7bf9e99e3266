-- ===== src/Event/DataColumnCompleted/Key.antt =====
-- The key of a completion in pkg/event/gossipsub/data_column_completed.go.
use xatu_sidecar.Prelude.{
  ℕ, zero, suc, ◌/◌, ◌%◌, ◌^◌, ◌<◌, String, ◌≡◌, refl, sym, ap, subst, ◌∙◌, ◌≢◌, ◌↔◌, inl, inr,
  arith, ltb, Bool-cases,
}
use Prim.Native.Char.{Char, code}
use Prim.Native.String
use Prim.Native.String.{len}
use text.Mathlib.TextLemmas.{nil-append, cons-append, head-eq_of_cons-eq, tail-eq_of_cons-eq}
use xatu_sidecar.Decimal.{digit, digits, decimal}
use xatu_sidecar.Decimal.Inverse.{code-digit, decimal_injective}
use xatu_sidecar.Event.DataColumnCompleted.{completion_key}

-- No colon among the characters.
abbrev NoColon : String → Type 0
NoColon String.[] = Unit {0}
NoColon (String.◌∷◌ c s) = (code c ≢ 58) × NoColon s

NoColon-append : (s t : String) → NoColon s → NoColon t → NoColon (String.◌++◌ s t)
NoColon-append String.[] t hs ht = rw nil-append ht
NoColon-append (String.◌∷◌ c s) t hs ht = rw cons-append (hs.0, NoColon-append s t hs.1 ht)

NoColon-digit : (d : ℕ) → d < 10 → NoColon (String.◌∷◌ (digit d) String.[])
NoColon-digit d h = ((λ e. omega (arith, code-digit d h)), tt)

NoColon-digits : (f n : ℕ) → NoColon (digits f n)
unfolding digits
NoColon-digits zero n = NoColon-digit (n % 10) (omega arith)
NoColon-digits (suc f) n = elim (Bool-cases (ltb n 10)) [
  | inl e ↦ rw e (NoColon-digit n (ground arith))
  | inr e ↦ rw e (
      NoColon-append (digits f (n / 10)) _ (NoColon-digits f (n / 10))
        (NoColon-digit (n % 10) (omega arith)))
]

NoColon-decimal : (n : ℕ) → NoColon (decimal n)
unfolding decimal
NoColon-decimal n = NoColon-digits 19 n

abbrev colon : Char
colon = ":"

has_colon : (b t : String) → ¬ NoColon (String.◌++◌ b (String.◌∷◌ colon t))
has_colon String.[] t h = absurd ((subst NoColon (nil-append (String.◌∷◌ colon t)) h).0 refl)
has_colon (String.◌∷◌ c b) t h =
    has_colon b t (subst NoColon (cons-append c b (String.◌∷◌ colon t)) h).1

-- What follows the last colon, and what stands before it, are determined by the text.
split_last :
    (a b s t : String)
    → NoColon s
    → NoColon t
    → String.◌++◌ a (String.◌∷◌ colon s) ≡ String.◌++◌ b (String.◌∷◌ colon t)
    → (a ≡ b) × (s ≡ t)
split_last String.[] String.[] s t hs ht e =
    let q = sym (nil-append (String.◌∷◌ colon s)) ∙ e ∙ nil-append (String.◌∷◌ colon t) in
    (refl, tail-eq_of_cons-eq q)
split_last String.[] (String.◌∷◌ c b) s t hs ht e =
    let q = sym (nil-append (String.◌∷◌ colon s)) ∙ e ∙ cons-append c b (String.◌∷◌ colon t) in
    absurd (has_colon b t (subst NoColon (tail-eq_of_cons-eq q) hs))
split_last (String.◌∷◌ c a) String.[] s t hs ht e =
    let q = sym (cons-append c a (String.◌∷◌ colon s)) ∙ e ∙ nil-append (String.◌∷◌ colon t) in
    absurd (has_colon a s (subst NoColon (sym (tail-eq_of_cons-eq q)) ht))
split_last (String.◌∷◌ c a) (String.◌∷◌ d b) s t hs ht e =
    let q = sym (cons-append c a (String.◌∷◌ colon s)) ∙ e ∙ cons-append d b (String.◌∷◌ colon t) in
    let (p, r) = split_last a b s t hs ht (tail-eq_of_cons-eq q) in
    (cc (p, head-eq_of_cons-eq q), r)

key-cons : (r : String) (c : ℕ) → completion_key r c ≡ String.◌++◌ r (String.◌∷◌ colon (decimal c))
unfolding completion_key
key-cons r c =
    ap (String.◌++◌ r)
      (cons-append colon String.[] (decimal c) ∙ ap (String.◌∷◌ colon) (nil-append (decimal c)))

-- Two completions have the same key exactly when they have the same block root and the same column
-- index, whatever text the roots are.
pub completion_key_iff :
    (r s : String) (c d : ℕ)
    → c < 2 ^ 64
    → d < 2 ^ 64
    → (completion_key r c ≡ completion_key s d) ↔ (r ≡ s) × (c ≡ d)
completion_key_iff r s c d hc hd = (
  (λ e.
      let (p, q) =
        split_last r s (decimal c) (decimal d) (NoColon-decimal c) (NoColon-decimal d)
          (sym (key-cons r c) ∙ e ∙ key-cons s d) in
      (p, decimal_injective c d hc hd q)),
  (λ e. let (p, q) = e in cc (p, q)),
)

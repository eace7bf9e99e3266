-- ===== src/Decimal/Inverse.antt =====
-- Reading the decimal text back: distinct numbers have distinct texts.
use Prim.Native.Char.{code}
use Prim.Native.String.{[], ◌∷◌, ◌++◌}
use text.Mathlib.TextLemmas.{nil-append, cons-append}
use native.Mathlib.Nat.{pow-suc}
use xatu_sidecar.Prelude.{
  ℕ, zero, suc, ◌+◌, ◌-◌, ◌*◌, ◌/◌, ◌%◌, ◌^◌, ◌<◌, String, ◌≡◌, inl, inr, refl, sym, ap, ◌∙◌, arith,
  ltb, Bool-cases,
}
use xatu_sidecar.Decimal.{digit, digits, decimal}

scan : String → ℕ → ℕ
scan [] n = n
scan (c ∷ s) n = scan s (n * 10 + (code c - 48))

-- `strconv.ParseUint` on a text of digits.
value : String → ℕ
unfolding scan
value s = scan s 0

pub code-digit : (d : ℕ) → d < 10 → code (digit d) ≡ d + 48
unfolding digit
code-digit zero h = refl
code-digit (suc zero) h = refl
code-digit (suc (suc zero)) h = refl
code-digit (suc (suc (suc zero))) h = refl
code-digit (suc (suc (suc (suc zero)))) h = refl
code-digit (suc (suc (suc (suc (suc zero))))) h = refl
code-digit (suc (suc (suc (suc (suc (suc zero)))))) h = refl
code-digit (suc (suc (suc (suc (suc (suc (suc zero))))))) h = refl
code-digit (suc (suc (suc (suc (suc (suc (suc (suc zero)))))))) h = refl
code-digit (suc (suc (suc (suc (suc (suc (suc (suc (suc d))))))))) h =
    let e : d ≡ 0 = omega arith in rw e refl

scan-append : (s t : String) (n : ℕ) → scan (s ++ t) n ≡ scan t (scan s n)
unfolding scan
scan-append [] t n = rw nil-append
scan-append (c ∷ s) t n = rw cons-append (scan-append s t (n * 10 + (code c - 48)))

scan-digit : (d n : ℕ) → d < 10 → scan (digit d ∷ []) n ≡ n * 10 + d
unfolding scan
scan-digit d n h = omega (arith, code-digit d h)

fewer : (n f : ℕ) → n < 10 ^ suc (suc f) → n / 10 < 10 ^ suc f
fewer n f h = let e = pow-suc 10 (suc f) in omega arith

scan-digits : (f n : ℕ) → n < 10 ^ (suc f) → scan (digits f n) 0 ≡ n
unfolding digits
scan-digits zero n h = omega (arith, scan-digit (n % 10) 0 (omega arith))
scan-digits (suc f) n h = elim (Bool-cases (ltb n 10)) [
  | inl e ↦ rw e (omega (arith, scan-digit n 0 (ground arith)))
  | inr e ↦
      rw
        (
          e,
          scan-append (digits f (n / 10)) (digit (n % 10) ∷ []) 0,
          scan-digits f (n / 10) (fewer n f h),
        )
        (omega (arith, scan-digit (n % 10) (n / 10) (omega arith)))
]

-- Reading the text of a uint64 gives the number back.
value-decimal : (n : ℕ) → n < 2 ^ 64 → value (decimal n) ≡ n
unfolding value decimal
value-decimal n h = scan-digits 19 n (omega arith)

pub decimal_injective : (m n : ℕ) → m < 2 ^ 64 → n < 2 ^ 64 → decimal m ≡ decimal n → m ≡ n
decimal_injective m n hm hn e = sym (value-decimal m hm) ∙ ap value e ∙ value-decimal n hn

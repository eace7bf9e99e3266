-- ===== src/Decimal.antt =====
-- The decimal text of a uint64, as `fmt.Sprint` and the verb `%d` write it for the keys of the
-- duplicate caches.
pub mod Inverse
use Prim.Native.Char.{Char}
use Prim.Native.String.{[], ◌∷◌, ◌++◌}
use xatu_sidecar.Prelude.{ℕ, zero, suc, ◌/◌, ◌%◌, String, ◌≡◌, refl, ltb, if◌then◌else◌}

unfoldable pub digit : ℕ → Char
digit zero = "0"
digit (suc zero) = "1"
digit (suc (suc zero)) = "2"
digit (suc (suc (suc zero))) = "3"
digit (suc (suc (suc (suc zero)))) = "4"
digit (suc (suc (suc (suc (suc zero))))) = "5"
digit (suc (suc (suc (suc (suc (suc zero)))))) = "6"
digit (suc (suc (suc (suc (suc (suc (suc zero))))))) = "7"
digit (suc (suc (suc (suc (suc (suc (suc (suc zero)))))))) = "8"
digit _ = "9"

-- Most significant digit first, with fuel for the digits after it.
unfoldable pub digits : ℕ → ℕ → String
digits zero n = digit (n % 10) ∷ []
digits (suc f) n =
    let more = digits f (n / 10) ++ (digit (n % 10) ∷ []) in if ltb n 10 then digit n ∷ [] else more

-- A uint64 has at most 20 digits.
unfoldable pub decimal : ℕ → String
unfolding digits digit
decimal n = digits 19 n

decimal-max : decimal 18446744073709551615 ≡ "18446744073709551615"
unfolding decimal
decimal-max = refl

-- ===== src/Text/Decimal.antt =====
-- Decimal numbers as fmt prints them with the verb %d.
use distributed_payment_pipe.Base.{ℕ, zero, suc, ◌+◌, ◌/◌, ◌%◌, true, false, [], ◌∷◌, ltb}
use distributed_payment_pipe.Base.Int.{ℤ, pos, negsuc}
use distributed_payment_pipe.Text.{Text}

abbrev pub digit : ℕ → ℕ
digit d = b'0' + d

-- The digits of `n` in front of `out`. Each round divides by ten, so `suc n` rounds are enough.
unfoldable pub digits : ℕ → ℕ → Text → Text
digits zero n out = out
digits (suc fuel) n out = elim (ltb n 10) [
  | true ↦ digit n ∷ out
  | false ↦ digits fuel (n / 10) (digit (n % 10) ∷ out)
]

unfoldable pub format_nat : ℕ → Text
unfolding digits
format_nat n = digits (suc n) n []

unfoldable pub format_int : ℤ → Text
unfolding format_nat
format_int (pos n) = format_nat n
format_int (negsuc n) = b'-' ∷ format_nat (suc n)

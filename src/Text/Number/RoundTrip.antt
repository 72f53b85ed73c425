-- ===== src/Text/Number/RoundTrip.antt =====
-- ParseInt reads what the verb %d prints.
use distributed_payment_pipe.Base.{
  ℕ, zero, suc, ◌/◌, ◌%◌, ◌≤◌, ◌<◌, ◌≡◌, refl, ◌⊎◌, inl, inr, true, false, [], ◌∷◌, arith, ltb,
  Bool-cases, All,
}
use distributed_payment_pipe.Base.Int.{ℤ, pos, negsuc, IsInt64, max_int64}
use distributed_payment_pipe.Text.{Text}
use distributed_payment_pipe.Text.Decimal.{digit, digits, format_nat, format_int}
use distributed_payment_pipe.Text.Number.{
  number, int, max_uint64, scan_digits, parse_uint, parse_int, signed,
}

abbrev pub IsDigit : ℕ → Type 0
IsDigit c = (b'0' ≤ c) × (c ≤ b'9')

digits-IsDigit :
    (fuel n : ℕ) (out : Text) → n < fuel → All IsDigit out → All IsDigit (digits fuel n out)
unfolding digits
digits-IsDigit zero n out f h = h
digits-IsDigit (suc fuel) n out f h = elim (Bool-cases (ltb n 10)) [
  | inl small ↦ rw (small, digits) (ground arith)
  | inr large ↦
      rw (large, digits)
        (digits-IsDigit fuel (n / 10) (digit (n % 10) ∷ out) (ground arith)
          ((omega arith, omega arith), h))
]

pub format_nat-IsDigit : (n : ℕ) → All IsDigit (format_nat n)
unfolding format_nat
format_nat-IsDigit n = digits-IsDigit (suc n) n [] (omega arith) tt

-- There is a first digit.
abbrev pub IsFilled : Text → Type 0
IsFilled s = (c : ℕ) × (t : Text) × (s ≡ c ∷ t)

digits-IsFilled : (fuel n : ℕ) (out : Text) → n < fuel ⊎ IsFilled out → IsFilled (digits fuel n out)
unfolding digits
digits-IsFilled zero n out (inl f) = absurd (omega arith)
digits-IsFilled zero n out (inr h) = h
digits-IsFilled (suc fuel) n out f = elim (Bool-cases (ltb n 10)) [
  | inl small ↦ rw (small, digits) (_, _, refl)
  | inr large ↦
      rw (large, digits) (digits-IsFilled fuel (n / 10) (digit (n % 10) ∷ out) (inr (_, _, refl)))
]

pub format_nat-IsFilled : (n : ℕ) → IsFilled (format_nat n)
unfolding format_nat
format_nat-IsFilled n = digits-IsFilled (suc n) n [] (inl (omega arith))

scan_last :
    (n : ℕ) (out : Text)
    → n ≤ max_uint64
    → scan_digits (n / 10) (digit (n % 10) ∷ out) ≡ scan_digits n out
unfolding scan_digits
scan_last n out h = ground arith

scan_first : (n : ℕ) (out : Text) → n < 10 → scan_digits 0 (digit n ∷ out) ≡ scan_digits n out
unfolding scan_digits
scan_first n out h = ground arith

scan_digits-digits :
    (fuel n : ℕ) (out : Text)
    → n < fuel
    → n ≤ max_uint64
    → scan_digits 0 (digits fuel n out) ≡ scan_digits n out
unfolding digits
scan_digits-digits zero n out f h = absurd (omega arith)
scan_digits-digits (suc fuel) n out f h = elim (Bool-cases (ltb n 10)) [
  | inl small ↦ rw (small, digits) (scan_first n out (ground arith))
  | inr large ↦
      rw
        (
          large,
          digits,
          scan_digits-digits fuel (n / 10) (digit (n % 10) ∷ out) (ground arith) (omega arith),
        )
        (scan_last n out h)
]

parse_uint_filled : (s : Text) → IsFilled s → parse_uint s ≡ scan_digits 0 s
unfolding parse_uint
parse_uint_filled s (c, t, h) = rw h refl

pub parse_uint-format_nat : (n : ℕ) → n ≤ max_uint64 → parse_uint (format_nat n) ≡ number n
unfolding format_nat
parse_uint-format_nat n h =
    rw
      (
        parse_uint_filled (format_nat n) (format_nat-IsFilled n),
        scan_digits-digits (suc n) n [] (omega arith) h,
      )
      (unfold scan_digits in refl)

parse_int_unsigned :
    (s : Text) → IsFilled s → All IsDigit s → parse_int s ≡ signed false (parse_uint s)
unfolding parse_int
parse_int_unsigned [] (c, t, h) d = cc
parse_int_unsigned (c ∷ s) f d = ground arith

parse_int_minus : (s : Text) → parse_int (b'-' ∷ s) ≡ signed true (parse_uint s)
unfolding parse_int
parse_int_minus s = refl

pub parse_int-format_nat : (n : ℕ) → n ≤ max_int64 → parse_int (format_nat n) ≡ int (pos n)
parse_int-format_nat n h =
    rw
      (
        parse_int_unsigned (format_nat n) (format_nat-IsFilled n) (format_nat-IsDigit n),
        parse_uint-format_nat n (omega arith),
      )
      (ground arith)

pub parse_int-format_int : (a : ℤ) → IsInt64 a → parse_int (format_int a) ≡ int a
unfolding format_int
parse_int-format_int (pos n) h = parse_int-format_nat n h.0
parse_int-format_int (negsuc n) h =
    rw (parse_int_minus (format_nat (suc n)), parse_uint-format_nat (suc n) (omega arith))
      (ground arith)

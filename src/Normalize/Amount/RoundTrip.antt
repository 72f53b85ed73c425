-- ===== src/Normalize/Amount/RoundTrip.antt =====
-- parseAmount reads what formatAmount prints.
use distributed_payment_pipe.Base.{
  ℕ, suc, inl, inr, Bool-cases, ◌+◌, ◌*◌, ◌/◌, ◌%◌, ◌≤◌, ◌<◌, ◌≡◌, refl, true, false, ◌∷◌, ◌++◌,
  arith, ltb, ◌==◌, All,
}
use distributed_payment_pipe.Base.Int.{
  ℤ, pos, negsuc, IsInt64, max_int64, neg, quot, rem, wrap64, wrap64_of_range,
}
use distributed_payment_pipe.Text.{Text}
use distributed_payment_pipe.Text.Decimal.{format_int}
use distributed_payment_pipe.Text.Space.{IsVisible}
use distributed_payment_pipe.Text.Split.{split}
use distributed_payment_pipe.Text.Number.RoundTrip.{
  IsDigit, format_nat-IsDigit, format_nat-IsFilled,
}
use distributed_payment_pipe.Errors.{ok}
use distributed_payment_pipe.Normalize.{parse_amount, parse_parts}
use distributed_payment_pipe.Normalize.Amount.{format_amount, least, least_back}
use distributed_payment_pipe.Normalize.Amount.Parse.{
  two_digits, format_2-two_digits, printed, split-printed, printed-IsVisible, parse_plain,
  parse_minus, join_amount,
}

module _ (quote : Text → Text) where
  parse_unsigned :
      (s : Text) (c : ℕ) (t : Text)
      → s ≡ c ∷ t
      → IsDigit c
      → All IsVisible s
      → parse_amount quote s ≡ parse_parts quote false (split b'.' s)
  parse_unsigned s c t e d h = rw e (parse_plain quote c t d (rw e at h))

  printed_first : (n d : ℕ) → (c : ℕ) × (t : Text) × (printed n d ≡ c ∷ t) × IsDigit c
  unfolding printed
  printed_first n d =
      let (c, t, e) = format_nat-IsFilled n in
      let all : All IsDigit (c ∷ t) = rw e at (format_nat-IsDigit n) in
      (c, t ++ b'.' ∷ two_digits d, rw e refl, all.0)

  -- The text of a whole part of at most 2^63 - 1 and of two decimal digits is read as that many
  -- hundredths, modulo 2^64 and without an error, also if there is no int64 for the hundredths.
  pub parse_amount_wraps :
      (n d : ℕ)
      → n ≤ max_int64
      → d < 100
      → parse_amount quote (printed n d) ≡ ok (wrap64 (pos (100 * n + d)))
  parse_amount_wraps n d h k =
      let (c, s, e, first) = printed_first n d in
      rw (parse_unsigned (printed n d) c s e first (printed-IsVisible n d k), split-printed n d k)
        (join_amount quote false n d h k)

  parts_of_hundred : (m : ℕ) → 100 * (m / 100) + m % 100 ≡ m
  parts_of_hundred m = omega arith

  -- The text of a number of hundredths.
  abbrev hundredths : ℕ → Text
  hundredths m = printed (m / 100) (m % 100)

  parse-printed : (m : ℕ) → m ≤ max_int64 → parse_amount quote (hundredths m) ≡ ok (pos m)
  parse-printed m h =
      rw
        (
          parse_amount_wraps (m / 100) (m % 100) (omega arith) (omega arith),
          parts_of_hundred m,
          wrap64_of_range (pos m) (h, omega arith),
        )
        refl

  wrap64-neg : (m : ℕ) → m ≤ max_int64 → wrap64 (neg (pos m)) ≡ neg (pos m)
  unfolding neg
  wrap64-neg m h = wrap64_of_range (neg (pos m)) (ground arith)

  parse-minus-printed :
      (m : ℕ) → m ≤ max_int64 → parse_amount quote (b'-' ∷ hundredths m) ≡ ok (neg (pos m))
  parse-minus-printed m h =
      let d = m % 100 in
      rw
        (
          parse_minus quote (hundredths m) (printed-IsVisible (m / 100) d (omega arith)),
          split-printed (m / 100) d (omega arith),
          join_amount quote true (m / 100) d (omega arith) (omega arith),
          parts_of_hundred m,
          wrap64_of_range (pos m) (h, omega arith),
          wrap64-neg m h,
        )
        refl

  quot_pos : (m k : ℕ) → quot (pos m) (suc k) ≡ pos (m / suc k)
  unfolding quot
  quot_pos m k = ground arith

  rem_pos : (m k : ℕ) → rem (pos m) (suc k) ≡ pos (m % suc k)
  unfolding rem
  rem_pos m k = ground arith

  format_amount-pos : (m : ℕ) → format_amount (pos m) ≡ hundredths m
  unfolding format_amount printed format_int
  format_amount-pos m =
      rw (quot_pos m 99, rem_pos m 99, format_2-two_digits (m % 100) (omega arith)) refl

  neg_negsuc : (n : ℕ) → neg (negsuc n) ≡ pos (suc n)
  unfolding neg
  neg_negsuc n = ground arith

  negated : (n : ℕ) → n < max_int64 → wrap64 (neg (negsuc n)) ≡ pos (suc n)
  negated n h = rw (neg_negsuc n) (wrap64_of_range (pos (suc n)) (omega arith, omega arith))

  format_amount-negsuc :
      (n : ℕ) → n < max_int64 → format_amount (negsuc n) ≡ b'-' ∷ hundredths (suc n)
  unfolding format_amount printed format_int
  format_amount-negsuc n h =
      let below : ltb 0 (suc n) ≡ true = ground arith in
      rw
        (
          negated n h,
          below,
          quot_pos (suc n) 99,
          rem_pos (suc n) 99,
          format_2-two_digits (suc n % 100) (omega arith),
        )
        refl

  neg_pos : (n : ℕ) → neg (pos (suc n)) ≡ negsuc n
  unfolding neg
  neg_pos n = ground arith

  -- Every int64 is read back from the text that `formatAmount` makes of it, also the least one, whose
  -- text has a second and a third sign.
  pub parse_amount-format_amount : (a : ℤ) → IsInt64 a → parse_amount quote (format_amount a) ≡ ok a
  parse_amount-format_amount (pos m) h = rw (format_amount-pos m) (parse-printed m h.0)
  parse_amount-format_amount (negsuc n) h = elim (Bool-cases (n == max_int64)) [
    | inl is_least ↦ let e : n ≡ max_int64 = ground arith in rw (e, least) (least_back quote)
    | inr above ↦
        let small : n < max_int64 = ground arith in
        rw (format_amount-negsuc n small, ← neg_pos n) (parse-minus-printed (suc n) small)
  ]

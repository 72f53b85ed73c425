-- ===== src/Normalize/Amount/Parse.antt =====
-- parseAmount on numbers with two decimal digits.
use distributed_payment_pipe.Base.{
  ℕ, zero, suc, inl, inr, Bool, Bool-cases, ◌+◌, ◌*◌, ◌/◌, ◌%◌, ◌≤◌, ◌<◌, ◌≡◌, ◌≢◌, refl, true,
  false, [], ◌∷◌, ◌++◌, arith, ltb, ◌==◌, if◌then◌else◌, All, All-append, All-weaken,
}
use distributed_payment_pipe.Base.Int.{ℤ, pos, max_int64, scale, neg, wrap64, ◌+ℤ◌, wrap64-add}
use distributed_payment_pipe.Text.{Text, codes, text_eq, has_prefix}
use distributed_payment_pipe.Text.Decimal.{digit, digits, format_nat}
use distributed_payment_pipe.Text.Space.{trim_space_visible, IsVisible}
use distributed_payment_pipe.Text.Split.{split, split_pair}
use distributed_payment_pipe.Text.Number.{parse_int, parse_uint, scan_digits, int}
use distributed_payment_pipe.Text.Number.RoundTrip.{
  IsDigit, format_nat-IsDigit, format_nat-IsFilled, parse_int-format_nat,
}
use distributed_payment_pipe.Errors.{ok}
use distributed_payment_pipe.Normalize.{
  parse_amount, join_units, parse_units, parse_parts, cut_sign,
}
use distributed_payment_pipe.Normalize.Amount.{format_2}

-- The two digits that follow the point.
abbrev pub two_digits : ℕ → Text
two_digits d = digit (d / 10) ∷ digit (d % 10) ∷ []

digits_small : (fuel n : ℕ) (out : Text) → n < 10 → digits (suc fuel) n out ≡ digit n ∷ out
unfolding digits
digits_small fuel n out h = ground arith

digits_large :
    (fuel n : ℕ) (out : Text)
    → 10 ≤ n
    → digits (suc fuel) n out ≡ digits fuel (n / 10) (digit (n % 10) ∷ out)
unfolding digits
digits_large fuel n out h = ground arith

pub format_2-two_digits : (d : ℕ) → d < 100 → format_2 (pos d) ≡ two_digits d
unfolding format_2 format_nat
format_2-two_digits zero h = unfold digits in refl
format_2-two_digits (suc d) h = elim (Bool-cases (ltb (suc d) 10)) [
  | inl small ↦ rw (small, digits_small (suc d) (suc d) [] (ground arith)) (ground arith)
  | inr large ↦
      rw
        (
          large,
          digits_large (suc d) (suc d) [] (ground arith),
          digits_small d (suc d / 10) (digit (suc d % 10) ∷ []) (omega arith),
        )
        refl
]

parse_two_digits : (d : ℕ) → d < 100 → parse_int (two_digits d) ≡ int (pos d)
unfolding parse_int parse_uint scan_digits
parse_two_digits d h = ground arith

pub scale_pos : (k n : ℕ) → scale k (pos n) ≡ pos (k * n)
unfolding scale
scale_pos k n = ground arith

total_units :
    (n d : ℕ) → d < 100 → wrap64 (wrap64 (scale 100 (pos n)) +ℤ pos d) ≡ wrap64 (pos (100 * n + d))
total_units n d h = rw (scale_pos 100 n) (wrap64-add (100 * n) d (omega arith))

-- A number with two decimal digits, as it is printed without a sign.
unfoldable pub printed : ℕ → ℕ → Text
printed n d = format_nat n ++ b'.' ∷ two_digits d

digit-IsVisible : (c : ℕ) → IsDigit c → IsVisible c
digit-IsVisible c h = omega arith

digit_no_point : (c : ℕ) → IsDigit c → c ≢ b'.'
digit_no_point c h = omega arith

two_digits-IsDigit : (d : ℕ) → d < 100 → All IsDigit (two_digits d)
two_digits-IsDigit d h = omega arith

pub printed-IsVisible : (n d : ℕ) → d < 100 → All IsVisible (printed n d)
unfolding printed
printed-IsVisible n d h =
    All-append IsVisible (format_nat n) (b'.' ∷ two_digits d)
      (All-weaken digit-IsVisible (format_nat n) (format_nat-IsDigit n))
      (omega arith, All-weaken digit-IsVisible (two_digits d) (two_digits-IsDigit d h))

pub split-printed :
    (n d : ℕ) → d < 100 → split b'.' (printed n d) ≡ format_nat n ∷ two_digits d ∷ []
unfolding printed
split-printed n d h =
    split_pair b'.' (format_nat n) (two_digits d)
      (All-weaken digit_no_point (format_nat n) (format_nat-IsDigit n))
      (All-weaken digit_no_point (two_digits d) (two_digits-IsDigit d h))

module _ (quote : Text → Text) where
  parse_units_int : (s : Text) (a : ℤ) → parse_int s ≡ int a → parse_units quote s ≡ ok a
  unfolding parse_units
  parse_units_int s a h = rw (h, parse_units) refl

  parse_major :
      (k : ℕ)
      → k ≤ max_int64
      → parse_units quote (if text_eq (format_nat k) [] then codes "0" else format_nat k)
        ≡ ok (pos k)
  unfolding text_eq
  parse_major k h =
      let (c, t, e) = format_nat-IsFilled k in
      let filled : text_eq (format_nat k) [] ≡ false = rw e refl in
      rw filled (parse_units_int (format_nat k) (pos k) (parse_int-format_nat k h))

  pub join_amount :
      (negative : Bool) (n d : ℕ)
      → n ≤ max_int64
      → d < 100
      → let total = wrap64 (pos (100 * n + d)) in
        join_units quote negative (format_nat n) (two_digits d)
        ≡ ok (if negative then wrap64 (neg total) else total)
  unfolding join_units
  join_amount negative n d h k =
      rw
        (
          parse_major n h,
          parse_units_int (two_digits d) (pos d) (parse_two_digits d k),
          total_units n d k,
        )
        refl

  -- A visible text that does not begin with a minus, and one that does.
  pub parse_plain :
      (c : ℕ) (s : Text)
      → IsDigit c
      → All IsVisible (c ∷ s)
      → parse_amount quote (c ∷ s) ≡ parse_parts quote false (split b'.' (c ∷ s))
  unfolding parse_amount cut_sign has_prefix text_eq
  parse_plain c s d h =
      let other : (c == b'-') ≡ false = ground arith in
      rw (trim_space_visible (c ∷ s) h, other, cut_sign, has_prefix, text_eq) refl

  pub parse_minus :
      (s : Text)
      → All IsVisible s
      → parse_amount quote (b'-' ∷ s) ≡ parse_parts quote true (split b'.' s)
  unfolding parse_amount cut_sign has_prefix text_eq
  parse_minus s h = rw (trim_space_visible (b'-' ∷ s) ((omega arith, omega arith), h)) refl

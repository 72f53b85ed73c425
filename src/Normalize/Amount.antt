-- ===== src/Normalize/Amount.antt =====
-- parseAmount of internal/normalize/normalize.go against formatAmount of internal/intake/server.go.
pub mod Parse
pub mod RoundTrip
use distributed_payment_pipe.Base.{
  ℕ, zero, suc, ◌⊎◌, inl, inr, Bool, Bool-cases, ◌+◌, ◌-◌, ◌*◌, ◌/◌, ◌%◌, ◌^◌, ◌≤◌, ◌<◌, ◌≡◌, ◌≢◌,
  refl, true, false, List, [], ◌∷◌, ◌++◌, arith, ltb, ◌==◌, ap, if◌then◌else◌, All, All-append,
  All-weaken, length,
}
use distributed_payment_pipe.Base.Int.{
  ℤ, pos, negsuc, pos_part, neg_part, IsInt64, max_int64, scale, neg, quot, rem, wrap64, ◌+ℤ◌,
  sub_ℕ, wrap64_of_range, wrap64-IsInt64,
}
use distributed_payment_pipe.Text.{Text, codes, text_eq, has_prefix}
use distributed_payment_pipe.Text.Decimal.{digit, digits, format_nat, format_int}
use distributed_payment_pipe.Text.Space.{trim_space, trim_space_visible, IsVisible}
use distributed_payment_pipe.Text.Split.{split, split_pair, split_whole}
use distributed_payment_pipe.Text.Number.{parse_int, parse_uint, scan_digits, int}
use distributed_payment_pipe.Text.Number.RoundTrip.{
  IsDigit, IsFilled, format_nat-IsDigit, format_nat-IsFilled, parse_int-format_nat,
  parse_int-format_int,
}
use distributed_payment_pipe.Errors.{Result, ok, err}
use distributed_payment_pipe.Normalize.{
  parse_amount, join_units, parse_units, parse_parts, cut_sign, pad_minor,
}

-- The verb %02d.
unfoldable pub format_2 : ℤ → Text
format_2 (pos n) = if ltb n 10 then b'0' ∷ format_nat n else format_nat n
format_2 (negsuc n) = format_int (negsuc n)

-- `formatAmount`: the negation wraps around, and division and remainder truncate.
unfoldable pub format_amount : ℤ → Text
unfolding format_2
format_amount minor_units =
    let negative = ltb 0 (neg_part minor_units) in
    let value = if negative then wrap64 (neg minor_units) else minor_units in
    (if negative then codes "-" else [])
    ++ (format_int (quot value 100) ++ (codes "." ++ format_2 (rem value 100)))

-- The least int64 is its own opposite, so both parts are printed with a sign of their own.
least : format_amount (negsuc max_int64) ≡ codes "--92233720368547758.-8"
unfolding format_amount neg wrap64 quot rem format_int format_nat
least = refl

least_back :
    (quote : Text → Text)
    → parse_amount quote (codes "--92233720368547758.-8") ≡ ok (negsuc max_int64)
unfolding parse_amount cut_sign has_prefix join_units parse_units parse_int text_eq trim_space split
    scale neg wrap64 ◌+ℤ◌
least_back quote = refl

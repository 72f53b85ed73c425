-- ===== src/Text/Number.antt =====
-- strconv.ParseInt in base 10 with 64 bits, and Atoi, which agrees with it but for a name in the
-- message. strconv.Quote is a parameter, as its escapes depend on the tables of Unicode.
pub mod RoundTrip
use distributed_payment_pipe.Base.{
  ℕ, ◌+◌, ◌-◌, ◌*◌, ◌/◌, ◌^◌, Bool, true, false, ◌||◌, [], ◌∷◌, ◌++◌, leb, ltb, ◌==◌, if◌then◌else◌,
}
use distributed_payment_pipe.Base.Int.{ℤ, pos, sub_ℕ}
use distributed_payment_pipe.Text.{Text, codes}

-- strconv.ErrSyntax and strconv.ErrRange, with a value for the result.
pub data Scanned : Type 0 where
  number : ℕ → Scanned
  invalid_syntax : Scanned
  out_of_range : Scanned

abbrev pub max_uint64 : ℕ
max_uint64 = 2 ^ 64 - 1

-- The loop of ParseUint over the digits, from the number read so far. The multiplication by ten and
-- the addition of the digit are both checked.
unfoldable pub scan_digits : ℕ → Text → Scanned
scan_digits n [] = number n
scan_digits n (c ∷ s) =
    let rest = scan_digits (n * 10 + (c - b'0')) s in
    if ltb c b'0' || ltb b'9' c
    then invalid_syntax
    else if leb (max_uint64 / 10 + 1) n || ltb max_uint64 (n * 10 + (c - b'0'))
    then out_of_range
    else rest

-- `ParseUint s 10 64`
unfoldable pub parse_uint : Text → Scanned
unfolding scan_digits
parse_uint [] = invalid_syntax
parse_uint (c ∷ s) = scan_digits 0 (c ∷ s)

pub data Parsed : Type 0 where
  int : ℤ → Parsed
  bad_syntax : Parsed
  bad_range : Parsed

-- A number with its sign, if it is an int64.
abbrev signed : Bool → Scanned → Parsed
signed negative invalid_syntax = bad_syntax
signed negative out_of_range = bad_range
signed true (number n) = if ltb (2 ^ 63) n then bad_range else int (sub_ℕ 0 n)
signed false (number n) = if leb (2 ^ 63) n then bad_range else int (pos n)

-- `ParseInt s 10 64`
unfoldable pub parse_int : Text → Parsed
unfolding parse_uint
parse_int [] = bad_syntax
parse_int (c ∷ s) =
    if c == b'+'
    then signed false (parse_uint s)
    else if c == b'-'
    then signed true (parse_uint s)
    else signed false (parse_uint (c ∷ s))

-- The message of a `NumError`.
abbrev pub num_error : (Text → Text) → Text → Text → Text → Text
num_error quote name s reason =
    codes "strconv." ++ (name ++ (codes ": parsing " ++ (quote s ++ (codes ": " ++ reason))))

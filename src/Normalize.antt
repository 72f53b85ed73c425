-- ===== src/Normalize.antt =====
-- internal/normalize/normalize.go: the registry, the two normalizers and parseAmount. A map is a
-- dictionary, and strconv.Quote is a parameter.
pub mod Amount
use distributed_payment_pipe.Base.{
  ℕ, zero, suc, Bool, true, false, List, [], ◌∷◌, ◌++◌, Option, none, some, length, ltb,
  if◌then◌else◌,
}
use distributed_payment_pipe.Base.Int.{ℤ, pos, ◌+ℤ◌, scale, neg, wrap64}
use distributed_payment_pipe.Text.{Text, codes, text_eq, has_prefix}
use distributed_payment_pipe.Text.Decimal.{format_int}
use distributed_payment_pipe.Text.Space.{trim_space}
use distributed_payment_pipe.Text.Split.{split}
use distributed_payment_pipe.Text.Number.{Parsed, int, bad_syntax, bad_range, parse_int, num_error}
use distributed_payment_pipe.Dict.{Dict, lookup, insert, get}
use distributed_payment_pipe.Errors.{Failure, new_error, wrap, Result, ok, err, ◌>>=◌, context}
use distributed_payment_pipe.Domain.{Source, Transaction, source_card, source_upi}

-- `SourceNormalizer`
abbrev pub SourceNormalizer : Type 0
SourceNormalizer = Dict Text → Result Transaction

abbrev pub Registry : Type 0
Registry = Dict SourceNormalizer

unfoldable pub registry_key : Source → ℤ → Text
registry_key source schema_version = source ++ (codes ":" ++ format_int schema_version)

unfoldable pub registry_get : Registry → Source → ℤ → Result SourceNormalizer
unfolding registry_key lookup
registry_get r source schema_version = elim (lookup (registry_key source schema_version) r) [
  | some normalizer ↦ ok normalizer
  | none ↦ err (
      new_error (
        codes "no normalizer found for source "
        ++ (source ++ (codes " with schema version " ++ format_int schema_version))))
]

unfoldable pub register : Source → ℤ → SourceNormalizer → Registry → Registry
unfolding registry_key insert
register source schema_version normalizer r =
    insert (registry_key source schema_version) normalizer r

-- The sign, if there is a minus, and what follows it.
unfoldable pub cut_sign : Text → Bool × Text
cut_sign [] = (false, [])
cut_sign (c ∷ s) = if has_prefix (c ∷ s) (codes "-") then (true, s) else (false, c ∷ s)

-- `for len(minor) < 2 { minor += "0" }`
abbrev pad_minor : Text → Text
pad_minor [] = codes "00"
pad_minor (a ∷ []) = a ∷ b'0' ∷ []
pad_minor (a ∷ b ∷ s) = a ∷ b ∷ s

module _ (quote : Text → Text) where
  -- `strconv.ParseInt(s, 10, 64)` with its error.
  unfoldable pub parse_units : Text → Result ℤ
  parse_units s = elim (parse_int s) [
    | int a ↦ ok a
    | bad_syntax ↦ err (new_error (num_error quote (codes "ParseInt") s (codes "invalid syntax")))
    | bad_range ↦
        err (new_error (num_error quote (codes "ParseInt") s (codes "value out of range")))
  ]

  -- The parts before and after the point, put together in int64.
  unfoldable pub join_units : Bool → Text → Text → Result ℤ
  unfolding parse_units
  join_units negative major minor =
      if ltb 2 (length minor) then err (new_error (codes "invalid amount precision")) else (do
        major_units ←
            context (codes "invalid amount major units: ")
              (parse_units (if text_eq major [] then codes "0" else major))
        minor_units ← context (codes "invalid amount minor units: ") (parse_units (pad_minor minor))
        let total = wrap64 (wrap64 (scale 100 major_units) +ℤ minor_units)
        ok (if negative then wrap64 (neg total) else total))

  abbrev parse_parts : Bool → List Text → Result ℤ
  parse_parts negative [] = err (new_error (codes "invalid amount format"))
  parse_parts negative (major ∷ []) = join_units negative major []
  parse_parts negative (major ∷ minor ∷ []) = join_units negative major minor
  parse_parts negative (_ ∷ _ ∷ _ ∷ _) = err (new_error (codes "invalid amount format"))

  unfoldable pub parse_amount : Text → Result ℤ
  unfolding cut_sign
  parse_amount text =
      let amount = trim_space text in
      let (negative, unsigned) = cut_sign amount in
      if text_eq amount []
      then err (new_error (codes "amount is empty"))
      else parse_parts negative (split b'.' unsigned)

  -- The fields that both normalizers read; the key of the external id differs.
  unfoldable pub normalize_with : Source → Text → SourceNormalizer
  unfolding parse_amount get
  normalize_with source external_key raw = elim (parse_amount (get [] (codes "amount") raw)) [
    | err e ↦ err (new_error (codes "invalid amount: " ++ e.message))
    | ok minor_units ↦ ok (record {
      payment_id = get [] (codes "payment_id") raw;
      idempotency_key = get [] (codes "idempotency_key") raw;
      source = source;
      external_txn_id = get [] external_key raw;
      account_id = get [] (codes "account_id") raw;
      amount = record { minor_units = minor_units; currency = get [] (codes "currency") raw };
      state = get [] (codes "state") raw;
      schema_version = 1;
      metadata = some raw;
      created_at = pos 0;
      updated_at = pos 0;
    })
  ]

  -- `CardNormalizer.Normalize` and `UPINormalizer.Normalize`
  unfoldable pub normalize_card : SourceNormalizer
  unfolding normalize_with
  normalize_card = normalize_with source_card (codes "external_txn_id")

  unfoldable pub normalize_upi : SourceNormalizer
  unfolding normalize_with
  normalize_upi = normalize_with source_upi (codes "upi_trx_id")

  -- The registry that the main function of cmd/intake builds.
  unfoldable pub intake_registry : Registry
  unfolding register normalize_card normalize_upi
  intake_registry =
      register (codes "UPI") (pos 1) normalize_upi
        (register (codes "CARD") (pos 1) normalize_card [])

-- ===== src/Tests/NormalizeTests.antt =====
-- Amounts, validators and fraud scores at concrete values.
use distributed_payment_pipe.Base.{
  ℕ, suc, ◌≡◌, ◌≢◌, ◌↔◌, refl, ◌⊎◌, List, [], ◌∷◌, ◌++◌, ◌+◌, ◌*◌, some, arith,
}
use distributed_payment_pipe.Base.Int.{pos, negsuc, wrap64, scale, neg, ◌+ℤ◌, ◌<ℤ◌}
use distributed_payment_pipe.Text.{Text, codes, text_eq, has_prefix}
use distributed_payment_pipe.Text.Space.{trim_space}
use distributed_payment_pipe.Text.Split.{split}
use distributed_payment_pipe.Text.Number.{parse_int}
use distributed_payment_pipe.Errors.{Result, ok, err, nil, committed}
use distributed_payment_pipe.Domain.{source_card, source_upi}
use distributed_payment_pipe.Outbox.{EventCodec, PaymentReceivedEvent}
use distributed_payment_pipe.Consumer.{read_event, is_malformed, transaction_of_event}
use distributed_payment_pipe.Normalize.{parse_amount, join_units, parse_units, cut_sign}
use distributed_payment_pipe.Normalize.Amount.{format_amount}
use distributed_payment_pipe.Normalize.Amount.Parse.{printed}
use distributed_payment_pipe.Normalize.Amount.RoundTrip.{
  parse_amount-format_amount, parse_amount_wraps,
}
use distributed_payment_pipe.Validate.{validate_default, validate_account, account_status, to_lower}
use distributed_payment_pipe.Validate.Accepted.{IsGiven, validate_default_iff}
use distributed_payment_pipe.Fraud.{
  Velocity, score_of, FraudWorld, handle_fraud, is_large, is_frequent, is_new_account,
}
use distributed_payment_pipe.Fraud.Levels.{IsNear, tenths, level_of_tenths, score_of-IsNear}
use distributed_payment_pipe.Fraud.Rows.{row_of, handle_fraud_adds}
use distributed_payment_pipe.Tests.Fixtures.{payment}

abbrev quote : Text → Text
quote s = s

-- A second sign is accepted, also behind the point.
two_signs :
    (parse_amount quote (codes "--5") ≡ ok (pos 500))
    × (parse_amount quote (codes "1.-5") ≡ ok (pos 95))
unfolding parse_amount cut_sign has_prefix join_units parse_units parse_int text_eq trim_space split
    scale neg wrap64 ◌+ℤ◌
two_signs = (refl, refl)

parse_amount-format_amount_example :
    parse_amount quote (format_amount (negsuc 1249)) ≡ ok (negsuc 1249)
parse_amount-format_amount_example = parse_amount-format_amount quote (negsuc 1249) (omega arith)

-- An amount whose hundredths are no int64 becomes negative.
parse_amount_wraps_example :
    parse_amount quote (printed 92233720368547758 8)
    ≡ ok (wrap64 (pos (100 * 92233720368547758 + 8)))
parse_amount_wraps_example =
    parse_amount_wraps quote 92233720368547758 8 (omega arith) (omega arith)

validate_default_iff_example : (validate_default payment ≡ nil) ↔ (
    (trim_space payment.amount.currency ≢ [])
    × (pos 0 <ℤ payment.amount.minor_units)
    × ((payment.source ≢ source_card) ⊎ IsGiven (codes "card_number") payment.metadata)
    × ((payment.source ≢ source_upi) ⊎ IsGiven (codes "upi_id") payment.metadata))
validate_default_iff_example = validate_default_iff payment

inactive_account :
    validate_account quote (some λ k. ok (codes " Inactive ")) payment
    ≡ err (record { message = codes "account acc is inactive"; chain = [] })
unfolding validate_account account_status to_lower trim_space text_eq
inactive_account = refl

score_of-IsNear_example :
    let s = score_of payment (ok (pos 11)) in
    let n = tenths (is_large payment) (is_frequent (ok (pos 11))) (is_new_account payment) in
    IsNear s.score n × (s.risk_level ≡ level_of_tenths n)
score_of-IsNear_example = score_of-IsNear payment (ok (pos 11))

-- An event that says that its account is new.
abbrev event : PaymentReceivedEvent
event = record {
  event_id = codes "e1";
  event_type = codes "payment.received";
  schema_version = 1;
  payment_id = codes "p1";
  idempotency_key = codes "k1";
  source = codes "CARD";
  external_txn_id = codes "x1";
  account_id = codes "acc";
  amount_minor = pos 600000;
  currency = codes "INR";
  state = codes "VALIDATED";
  created_at = pos 10;
  metadata = some ((codes "account_age_days", codes "0") ∷ []);
}

abbrev codec : EventCodec
codec = record { marshal = λ e. ok (codes "{}"); unmarshal = λ s. ok event }

abbrev velocity : Velocity ℕ
velocity key n = (ok (pos (suc n)), suc n)

abbrev marshal : List Text → Result Text
marshal signals = ok (codes "[]")

event_read : read_event codec (codes "{}") ≡ ok (transaction_of_event event)
unfolding read_event is_malformed text_eq
event_read = refl

-- The same event was scored before.
abbrev world : FraudWorld ℕ
world = record {
  rows = row_of (score_of (transaction_of_event event) (ok (pos 1))) (codes "[]") (pos 20) ∷ [];
  redis = 1;
  replies = λ n. committed;
  clock = λ n. pos 30;
  saves = 1;
}

handle_fraud_adds_example :
    let (o, w') = handle_fraud codec marshal velocity (codes "acc") (codes "{}") world in
    (o ≡ nil)
    × (w'.rows
        ≡ world.rows
          ++ row_of (score_of (transaction_of_event event) (ok (pos 2))) (codes "[]") (pos 30) ∷ [])
handle_fraud_adds_example =
    handle_fraud_adds codec marshal velocity (codes "acc") (codes "{}") (codes "[]") world
      (transaction_of_event event) event_read refl refl

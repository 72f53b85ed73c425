-- ===== src/Tests/IntakeTests.antt =====
-- SubmitPayment with concrete requests.
use distributed_payment_pipe.Base.{◌≡◌, refl, ◌⊎◌, true, false, [], ◌∷◌, some, none}
use distributed_payment_pipe.Base.Int.{pos}
use distributed_payment_pipe.Text.{Text, codes, text_eq, has_prefix}
use distributed_payment_pipe.Text.Decimal.{format_nat, format_int}
use distributed_payment_pipe.Text.Space.{trim_space}
use distributed_payment_pipe.Text.Split.{split}
use distributed_payment_pipe.Text.Number.{parse_int}
use distributed_payment_pipe.Dict.{Dict, lookup, insert, update_all, get}
use distributed_payment_pipe.Errors.{Failure, ok, err, failed}
use distributed_payment_pipe.Domain.{Transaction, state_received}
use distributed_payment_pipe.Db.{select_key}
use distributed_payment_pipe.Idempotency.{derive_key, claim}
use distributed_payment_pipe.Normalize.{
  intake_registry, register, normalize_card, normalize_upi, normalize_with, parse_amount,
  join_units, parse_units, registry_get, registry_key, cut_sign,
}
use distributed_payment_pipe.Normalize.Amount.{format_amount, format_2}
use distributed_payment_pipe.Base.Int.{scale, wrap64, ◌+ℤ◌, quot, rem, neg}
use distributed_payment_pipe.Intake.{
  PaymentSource, SubmitPaymentRequest, IdempotencyStore, Server, Packages, CallInput, World,
  raw_payload, source_of, to_int32, prepare, submit_payment, submit_all,
}
use distributed_payment_pipe.Intake.Outcomes.{
  stored_response, duplicate_response, IsAccepted, IsUnanswered, claim_of, submit_payment_cases,
}
use distributed_payment_pipe.Intake.Claimed.{
  IsDuplicate, submit_payment_once, submit_payment_strands,
}
use distributed_payment_pipe.Intake.Keyless.{submit_payment_keyless}
use distributed_payment_pipe.Tests.Fixtures.{payment, empty, broken, save_done}
use distributed_payment_pipe.Tests.IdempotencyTests.{client, client-IsRedis, value, set_nx}

abbrev pub idem : IdempotencyStore (Dict Text)
idem = record { client = client; ttl_seconds = pos 300 }

abbrev pub server : Server (Dict Text)
server = record {
  normalizers = some (intake_registry (λ s. s));
  validator = none;
  idem = some idem;
  has_store = true;
}

abbrev pub packages : Packages
packages = record {
  sha256_hex = λ s. s;
  marshal = λ e. ok (codes "{}");
  source_name = λ s. codes "source";
}

abbrev pub request : Text → SubmitPaymentRequest
request key = record {
  idempotency_key = key;
  source = PaymentSource.card;
  external_txn_id = codes "x1";
  account_id = codes "acc";
  amount = some (record { minor_units = pos 1250; currency = codes "INR" });
  schema_version = 1;
  metadata = (codes "note", codes "n") ∷ [];
}

abbrev pub call : CallInput
call = record { payment_id = codes "p1"; event_id = codes "e1"; now = pos 10; save = save_done }

abbrev second_call : CallInput
second_call = record call { payment_id = codes "p2"; now = pos 20 }

abbrev failing_call : CallInput
failing_call = record call { save = record save_done { begin = failed broken } }

-- The normalized payment; its metadata is the whole map.
abbrev pub normalized : Text → Text → Transaction
normalized payment_id key = record payment {
  payment_id = payment_id;
  idempotency_key = key;
  state = state_received;
  metadata = some (
      (codes "payment_id", payment_id)
      ∷ (codes "idempotency_key", key)
      ∷ (codes "account_id", codes "acc")
      ∷ (codes "external_txn_id", codes "x1")
      ∷ (codes "currency", codes "INR")
      ∷ (codes "state", state_received)
      ∷ (codes "amount", codes "12.50")
      ∷ (codes "note", codes "n")
      ∷ []);
  created_at = pos 0;
  updated_at = pos 0;
}

pub prepared :
    (payment_id key : Text)
    → prepare packages server payment_id (request key) ≡ ok (idem, normalized payment_id key)
unfolding prepare raw_payload source_of to_int32 registry_get registry_key intake_registry register
    normalize_card normalize_upi normalize_with parse_amount join_units parse_units cut_sign
    has_prefix parse_int trim_space split text_eq lookup insert update_all get scale wrap64 ◌+ℤ◌
    quot rem neg format_amount format_2 format_nat format_int
prepared payment_id key = refl

abbrev first : Transaction
first = normalized (codes "p1") (codes "k1")

abbrev second : Transaction
second = normalized (codes "p2") (codes "k1")

abbrev k1 : SubmitPaymentRequest
k1 = request (codes "k1")

abbrev pub start : World (Dict Text)
start = record { db = empty; redis = [] }

pub granted :
    (claim client (pos 300) (derive_key packages.sha256_hex first) (codes "p1") start.redis).0
    ≡ ok (true, [])
unfolding claim set_nx lookup
granted = refl

submit_payment_cases_example :
    let (o, w') = submit_payment packages server call k1 start in
    ((e : Failure) × (o ≡ err e) × (w'.db ≡ start.db) × IsUnanswered packages server call k1 start)
    ⊎ ((idem : IdempotencyStore (Dict Text)) × (t : Transaction) × (existing : Text) × (prepare
            packages server call.payment_id k1
          ≡ ok (idem, t))
        × (claim_of packages server idem t start ≡ ok (false, existing))
        × (o ≡ ok (duplicate_response call existing))
        × (w'.db ≡ start.db))
    ⊎ ((idem : IdempotencyStore (Dict Text)) × (t : Transaction) × (prepare packages server
            call.payment_id k1
          ≡ ok (idem, t))
        × ((holder : Text) × (claim_of packages server idem t start ≡ ok (true, holder)))
        × (o ≡ ok (stored_response call t))
        × IsAccepted packages server call t start.db w'.db)
submit_payment_cases_example = submit_payment_cases packages server call k1 start

submit_payment_once_example :
    let v = submit_all packages server [] (submit_payment packages server call k1 start).1 in
    IsDuplicate value packages server idem client-IsRedis
      (codes "p1")
      second_call
      v
      (submit_payment packages server second_call k1 v)
unfolding derive_key
submit_payment_once_example =
    submit_payment_once value packages server idem client-IsRedis call second_call k1 k1 first
      second [] start refl (prepared (codes "p1") (codes "k1")) (prepared (codes "p2") (codes "k1"))
      refl granted

submit_payment_strands_example :
    let (o, v) = submit_payment packages server failing_call k1 start in
    ((e : Failure) × (o ≡ err e))
    × (v.db ≡ start.db)
    × IsDuplicate value packages server idem client-IsRedis
        (codes "p1")
        second_call
        v
        (submit_payment packages server second_call k1 v)
unfolding derive_key
submit_payment_strands_example =
    submit_payment_strands value packages server idem client-IsRedis failing_call second_call k1 k1
      first second start broken refl (prepared (codes "p1") (codes "k1"))
      (prepared (codes "p2") (codes "k1")) refl granted refl

-- A payment without a client's key is stored; another account's payment has none either.
abbrev keyless : Transaction
keyless = record payment {
  payment_id = codes "p0";
  idempotency_key = [];
  account_id = codes "other";
}

abbrev stored : World (Dict Text)
stored = record start { db = record empty { transactions = keyless ∷ [] } }

key_taken : select_key [] stored.db.transactions ≡ some keyless
unfolding select_key text_eq
key_taken = refl

submit_payment_keyless_example :
    let (o, w') = submit_payment packages server call (request []) stored in
    (w'.db ≡ stored.db)
    × (((e : Failure) × (o ≡ err e))
        ⊎ ((existing : Text) × (o ≡ ok (duplicate_response call existing))))
submit_payment_keyless_example =
    submit_payment_keyless packages server call (request []) stored idem
      (normalized (codes "p1") []) keyless (prepared (codes "p1") []) key_taken

-- ===== src/Intake.antt =====
-- internal/intake/server.go: SubmitPayment over the registry, the idempotency store, a validator and
-- the transaction store.
pub mod Outcomes
pub mod Claimed
pub mod Keyless
use distributed_payment_pipe.Base.{
  ℕ, ◌-◌, ◌%◌, ◌^◌, Bool, true, false, not, List, [], ◌∷◌, ◌++◌, Option, none, some, ltb,
  if◌then◌else◌,
}
use distributed_payment_pipe.Base.Int.{ℤ, pos, negsuc}
use distributed_payment_pipe.Text.{Text, codes}
use distributed_payment_pipe.Dict.{Dict, insert, update_all}
use distributed_payment_pipe.Errors.{
  Failure, new_error, wrap, Result, ok, err, Outcome, nil, ◌>>=◌, ◌>>◌, context,
}
use distributed_payment_pipe.Domain.{
  Time, Source, Money, Transaction, source_card, source_upi, source_bank_transfer, source_wallet,
  state_received, state_validated,
}
use distributed_payment_pipe.Db.{Db}
use distributed_payment_pipe.Store.{SaveReplies, save_with_outbox}
use distributed_payment_pipe.Idempotency.{RedisClient, derive_key, claim}
use distributed_payment_pipe.Normalize.{Registry, registry_get}
use distributed_payment_pipe.Normalize.Amount.{format_amount}
use distributed_payment_pipe.Outbox.{PaymentReceivedEvent, new_payment_received_event}

-- The enumerations of the request and the response; a client may send a number that has no name.
pub data PaymentSource : Type 0 where
  unspecified card upi bank_transfer wallet : PaymentSource
  unnamed : ℤ → PaymentSource

pub data PaymentState : Type 0 where
  unspecified received validated authorized captured settled reconciled failed : PaymentState

-- A missing amount is `none`.
pub record SubmitPaymentRequest : Type 0 where
  pub idempotency_key : Text
  pub source : PaymentSource
  pub external_txn_id : Text
  pub account_id : Text
  pub amount : Option Money
  pub schema_version : ℕ
  pub metadata : Dict Text

pub record SubmitPaymentResponse : Type 0 where
  pub payment_id : Text
  pub state : PaymentState
  pub deduplicated : Bool
  pub received_at : Time

-- The idempotency store: its client and its time to live.
pub record IdempotencyStore {ℓ} (R : Type ℓ) : Type ℓ where
  pub client : RedisClient R
  pub ttl_seconds : ℤ

-- The fields of `Server`, each nil or set; of the store only whether it is set.
pub record Server {ℓ} (R : Type ℓ) : Type ℓ where
  pub normalizers : Option Registry
  pub validator : Option (Transaction → Outcome)
  pub idem : Option (IdempotencyStore R)
  pub has_store : Bool

-- The functions of other packages: the hash, json.Marshal at the event, and the name of a source.
pub record Packages : Type 0 where
  pub sha256_hex : Text → Text
  pub marshal : PaymentReceivedEvent → Result Text
  pub source_name : PaymentSource → Text

-- What one call gets from outside: two fresh ids, the clock, and the answers of Postgres.
pub record CallInput : Type 0 where
  pub payment_id : Text
  pub event_id : Text
  pub now : Time
  pub save : SaveReplies

pub record World {ℓ} (R : Type ℓ) : Type ℓ where
  pub db : Db
  pub redis : R

abbrev currency_of : Option Money → Text
currency_of none = []
currency_of (some m) = m.currency

abbrev with_amount : Option Money → Dict Text → Dict Text
with_amount none raw = raw
with_amount (some m) raw = insert (codes "amount") (format_amount m.minor_units) raw

-- The map `raw`: the metadata may replace any of the fields.
unfoldable pub raw_payload : Text → SubmitPaymentRequest → Dict Text
unfolding update_all insert
raw_payload payment_id req = update_all req.metadata (
    with_amount req.amount (
      (codes "payment_id", payment_id)
      ∷ (codes "idempotency_key", req.idempotency_key)
      ∷ (codes "account_id", req.account_id)
      ∷ (codes "external_txn_id", req.external_txn_id)
      ∷ (codes "currency", currency_of req.amount)
      ∷ (codes "state", state_received)
      ∷ []))

unfoldable pub source_of : Packages → PaymentSource → Result Source
source_of lib PaymentSource.card = ok source_card
source_of lib PaymentSource.upi = ok source_upi
source_of lib PaymentSource.bank_transfer = ok source_bank_transfer
source_of lib PaymentSource.wallet = ok source_wallet
source_of lib s = err (new_error (codes "unsupported source: " ++ lib.source_name s))

-- `int32(v)` for a uint32.
unfoldable pub to_int32 : ℕ → ℤ
to_int32 v = let w = v % 2 ^ 32 in if ltb w (2 ^ 31) then pos w else negsuc (2 ^ 32 - w - 1)

abbrev required {ℓ} : {A : Type ℓ} → Text → Option A → Result A
required what none = err (new_error (what ++ codes " not configured"))
required what (some a) = ok a

abbrev required_store : Bool → Outcome
required_store true = nil
required_store false = err (new_error (codes "store not configured"))

module _ {ℓ} {R : Type ℓ} (lib : Packages) (server : Server R) where
  -- The call up to the claim: the idempotency store, and the normalized transaction.
  unfoldable pub prepare : Text → SubmitPaymentRequest → Result (IdempotencyStore R × Transaction)
  unfolding raw_payload source_of to_int32 registry_get
  prepare payment_id req = do
    normalizers ← required (codes "normalizers") server.normalizers
    required_store server.has_store
    idem ← required (codes "idempotency store") server.idem
    source ← source_of lib req.source
    normalizer ← registry_get normalizers source (to_int32 req.schema_version)
    t ← normalizer (raw_payload payment_id req)
    ok (idem, t)

  abbrev pub validate : Transaction → Outcome
  validate t = elim server.validator [ none ↦ nil | some check ↦ check t ]

  -- The transaction that is stored.
  unfoldable pub accepted : Time → Transaction → Transaction
  accepted now t = record t { state = state_validated; created_at = now; updated_at = now }

  abbrev pub event_payload : CallInput → Transaction → Result Text
  event_payload i t =
      context (codes "marshal outbox payload: ")
        (lib.marshal (new_payment_received_event i.event_id t))

  -- The call after a claim that was granted.
  unfoldable pub accept : CallInput → Transaction → Db → Result SubmitPaymentResponse × Db
  unfolding accepted new_payment_received_event
  accept i t db = elim (validate t >> event_payload i (accepted i.now t)) [
    | err e ↦ (err e, db)
    | ok payload ↦
        let (o, db') = save_with_outbox i.save (accepted i.now t) payload db in
        elim o [
          | err e ↦ (err e, db')
          | ok _ ↦ (
            ok (record {
              payment_id = t.payment_id;
              state = PaymentState.received;
              deduplicated = false;
              received_at = i.now;
            }),
            db',
          )
        ]
  ]

  -- The call after the claim was answered with (claimed, existingPaymentID).
  unfoldable pub answer :
      CallInput → Transaction → Result (Bool × Text) → Db → Result SubmitPaymentResponse × Db
  answer i t (err e) db = (err (wrap (codes "idempotency claim: ") e), db)
  answer i t (ok (true, existing)) db = accept i t db
  answer i t (ok (false, existing)) db = (
    ok (record {
      payment_id = existing;
      state = PaymentState.received;
      deduplicated = true;
      received_at = i.now;
    }),
    db,
  )

  unfoldable pub submit_payment :
      CallInput → SubmitPaymentRequest → World R → Result SubmitPaymentResponse × World R
  submit_payment i req w = elim (prepare i.payment_id req) [
    | err e ↦ (err e, w)
    | ok (idem, t) ↦
        let (c, redis) =
          claim idem.client idem.ttl_seconds (derive_key lib.sha256_hex t) t.payment_id w.redis in
        let (o, db) = answer i t c w.db in (o, record { db = db; redis = redis })
  ]

  -- One call after the other.
  unfoldable pub submit_all : List (CallInput × SubmitPaymentRequest) → World R → World R
  submit_all [] w = w
  submit_all ((i, req) ∷ calls) w = submit_all calls (submit_payment i req w).1

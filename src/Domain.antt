-- ===== src/Domain.antt =====
-- internal/domain: money, the canonical transaction, and the payment state machine.
pub mod Lifecycle
mod Tests
use distributed_payment_pipe.Base.{
  ℕ, Bool, true, false, ◌||◌, List, [], ◌∷◌, ◌++◌, Option, if◌then◌else◌,
}
use distributed_payment_pipe.Base.Int.{ℤ}
use distributed_payment_pipe.Text.{Text, codes, text_eq}
use distributed_payment_pipe.Dict.{Dict, get}
use distributed_payment_pipe.Errors.{Outcome, err, nil, new_error}

-- A `time.Time`, in nanoseconds from Go's zero time.
abbrev pub Time : Type 0
Time = ℤ

pub record Money : Type 0 where
  pub minor_units : ℤ
  pub currency : Text

-- `type Source string`
abbrev pub Source : Type 0
Source = Text

abbrev pub source_card : Source
source_card = codes "CARD"

abbrev pub source_upi : Source
source_upi = codes "UPI"

abbrev pub source_bank_transfer : Source
source_bank_transfer = codes "BANK_TRANSFER"

abbrev pub source_wallet : Source
source_wallet = codes "WALLET"

-- `type State string`: any text is a value of the type.
abbrev pub State : Type 0
State = Text

abbrev pub state_received : State
state_received = codes "RECEIVED"

abbrev pub state_validated : State
state_validated = codes "VALIDATED"

abbrev pub state_authorized : State
state_authorized = codes "AUTHORIZED"

abbrev pub state_captured : State
state_captured = codes "CAPTURED"

abbrev pub state_settled : State
state_settled = codes "SETTLED"

abbrev pub state_reconciled : State
state_reconciled = codes "RECONCILED"

abbrev pub state_failed : State
state_failed = codes "FAILED"

-- The metadata is `none` for a nil map.
pub record Transaction : Type 0 where
  pub payment_id : Text
  pub idempotency_key : Text
  pub source : Source
  pub external_txn_id : Text
  pub account_id : Text
  pub amount : Money
  pub state : State
  pub schema_version : ℕ
  pub metadata : Option (Dict Text)
  pub created_at : Time
  pub updated_at : Time

abbrev allowed : Dict (List State)
allowed =
    (state_received, state_validated ∷ state_failed ∷ [])
    ∷ (state_validated, state_authorized ∷ state_captured ∷ state_failed ∷ [])
    ∷ (state_authorized, state_captured ∷ state_failed ∷ [])
    ∷ (state_captured, state_settled ∷ state_failed ∷ [])
    ∷ (state_settled, state_reconciled ∷ [])
    ∷ []

-- `slices.Contains`
slices_contains : List State → State → Bool
slices_contains [] s = false
slices_contains (x ∷ xs) s = text_eq x s || slices_contains xs s

unfoldable pub transition : State → State → Outcome
unfolding slices_contains get
transition from to =
    if slices_contains (get [] from allowed) to
    then nil
    else err (new_error (codes "illegal state transition: " ++ from ++ codes " -> " ++ to))

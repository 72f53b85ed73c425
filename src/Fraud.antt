-- ===== src/Fraud.antt =====
-- internal/fraud-score/fraud-engine.go and cmd/fraud-consumer/main.go. A float64 of this file is a
-- multiple of 2^-55 between 0 and 2, kept as that multiple; Go adds two of them exactly and rounds
-- the sum to 53 significant bits. Redis is a parameter on its own state.
pub mod Levels
pub mod Rows
use distributed_payment_pipe.Base.{
  ℕ, zero, suc, ◌+◌, ◌*◌, ◌/◌, ◌%◌, ◌^◌, Bool, true, false, ◌&&◌, List, [], ◌∷◌, ◌++◌, Option, ltb,
  leb, ◌==◌, if◌then◌else◌,
}
use distributed_payment_pipe.Base.Int.{ℤ, pos, ltb_ℤ}
use distributed_payment_pipe.Text.{Text, codes, text_eq}
use distributed_payment_pipe.Dict.{Dict, get}
use distributed_payment_pipe.Errors.{
  Failure, wrap, Result, ok, err, Outcome, nil, CommitReply, commit_outcome, after_commit, context,
}
use distributed_payment_pipe.Domain.{Time, Transaction}
use distributed_payment_pipe.Kafka.{Handler}
use distributed_payment_pipe.Outbox.{EventCodec}
use distributed_payment_pipe.Consumer.{read_event}

abbrev pub Float64 : Type 0
Float64 = ℕ

-- The multiple of `step` that is nearest to `n`, the even one of two.
unfoldable pub round_to : ℕ → ℕ → ℕ
round_to step n =
    let q = n / step in
    if ltb (n % step * 2) step
    then q * step
    else if ltb step (n % step * 2)
    then (q + 1) * step
    else if q % 2 == 0
    then q * step
    else (q + 1) * step

-- A sum below 4: its last bit is worth 1, 2, 4 or 8 units, by its size.
unfoldable pub add_float : Float64 → Float64 → Float64
unfolding round_to
add_float a b =
    let sum = a + b in
    if ltb sum (2 ^ 53)
    then sum
    else if ltb sum (2 ^ 54)
    then round_to 2 sum
    else if ltb sum (2 ^ 55)
    then round_to 4 sum
    else if ltb sum (2 ^ 56)
    then round_to 8 sum
    else round_to 16 sum

-- The float64 that is nearest to each constant of the source.
abbrev float_0_2 : Float64
float_0_2 = 7205759403792794

abbrev float_0_3 : Float64
float_0_3 = 10808639105689190

abbrev float_0_4 : Float64
float_0_4 = 14411518807585588

abbrev float_0_5 : Float64
float_0_5 = 18014398509481984

abbrev float_0_8 : Float64
float_0_8 = 28823037615171176

abbrev float_1 : Float64
float_1 = 2 ^ 55

-- `type RiskLevel string`
abbrev pub RiskLevel : Type 0
RiskLevel = Text

abbrev pub risk_low : RiskLevel
risk_low = codes "LOW"

abbrev pub risk_medium : RiskLevel
risk_medium = codes "MEDIUM"

abbrev pub risk_high : RiskLevel
risk_high = codes "HIGH"

abbrev pub risk_critical : RiskLevel
risk_critical = codes "CRITICAL"

unfoldable pub to_risk_level : Float64 → RiskLevel
to_risk_level score =
    if leb float_0_8 score
    then risk_critical
    else if leb float_0_5 score
    then risk_high
    else if leb float_0_2 score
    then risk_medium
    else risk_low

pub record Score : Type 0 where
  pub payment_id : Text
  pub account_id : Text
  pub risk_level : RiskLevel
  pub signals : List Text
  pub score : Float64

abbrev pub signal_amount : Text
signal_amount = codes "amount exceeds threshold"

abbrev pub signal_velocity : Text
signal_velocity = codes "velocity: >10 txns/min for account"

abbrev pub signal_new_account : Text
signal_new_account = codes "new account with large transaction"

-- The conditions of the three rules; a nil map has no account age.
unfoldable pub is_large : Transaction → Bool
is_large t = ltb_ℤ (pos 1000000) t.amount.minor_units

unfoldable pub is_frequent : Result ℤ → Bool
is_frequent (err e) = false
is_frequent (ok count) = ltb_ℤ (pos 10) count

unfoldable pub is_new_account : Transaction → Bool
unfolding get
is_new_account t =
    text_eq
      (elim t.metadata [ Option.none ↦ [] | Option.some m ↦ get [] (codes "account_age_days") m ])
      (codes "0")
    && ltb_ℤ (pos 500000) t.amount.minor_units

-- A rule adds its signal and its weight.
abbrev rule : Bool → Text → Float64 → List Text × Float64 → List Text × Float64
rule fires signal weight (signals, score) =
    if fires then (signals ++ signal ∷ [], add_float score weight) else (signals, score)

-- The rules in the order of the code, given whether each fires.
unfoldable pub apply_rules : Bool → Bool → Bool → List Text × Float64
unfolding add_float
apply_rules large frequent new_account =
    rule new_account signal_new_account float_0_3
      (rule frequent signal_velocity float_0_5 (rule large signal_amount float_0_4 ([], 0)))

-- `min(score, 1.0)`
abbrev cap : Float64 → Float64
cap score = if ltb float_1 score then float_1 else score

-- The pipeline of INCR and EXPIRE: the value of the counter, or the error of the round trip.
abbrev pub Velocity : Type 0 → Type 0
Velocity R = Text → R → Result ℤ × R

unfoldable pub velocity_key : Transaction → Text
velocity_key t = codes "velocity:" ++ t.account_id

-- `FraudEngine.Score`
unfoldable pub score_of : Transaction → Result ℤ → Score
unfolding apply_rules is_large is_frequent is_new_account to_risk_level
score_of t count =
    let (signals, score) = apply_rules (is_large t) (is_frequent count) (is_new_account t) in
    record {
      payment_id = t.payment_id;
      account_id = t.account_id;
      risk_level = to_risk_level (cap score);
      signals = signals;
      score = cap score;
    }

-- The columns of fraud_scores that the insert writes.
pub record FraudRow : Type 0 where
  pub payment_id : Text
  pub account_id : Text
  pub score : Float64
  pub risk_level : RiskLevel
  pub signals : Text
  pub created_at : Time

-- `FraudEngine.SaveScore`: a statement outside a transaction. No unique index is on the table, so
-- that ON CONFLICT DO NOTHING never applies.
unfoldable pub save_score :
    (List Text → Result Text) → CommitReply → Time → Score → List FraudRow → Outcome × List FraudRow
save_score marshal reply now s rows =
    elim (context (codes "SaveScore: marshal signals: ") (marshal s.signals)) [
      | err e ↦ (err e, rows)
      | ok signals ↦
          let row : FraudRow = record {
            payment_id = s.payment_id;
            account_id = s.account_id;
            score = s.score;
            risk_level = s.risk_level;
            signals = signals;
            created_at = now;
          } in
          (
            context (codes "SaveScore: insert: ") (commit_outcome reply),
            after_commit reply rows (rows ++ row ∷ []),
          )
    ]

-- The table, Redis, and the answers to the inserts with their times, by the number of the call.
pub record FraudWorld (R : Type 0) : Type 0 where
  pub rows : List FraudRow
  pub redis : R
  pub replies : ℕ → CommitReply
  pub clock : ℕ → Time
  pub saves : ℕ

-- The handler of the fraud consumer. It reads an event as the ledger consumer does.
unfoldable pub handle_fraud :
    {R : Type 0} → EventCodec → (List Text → Result Text) → Velocity R → Handler (FraudWorld R)
unfolding read_event score_of velocity_key save_score
handle_fraud codec marshal velocity key payload w = elim (read_event codec payload) [
  | err e ↦ (err e, w)
  | ok t ↦
      let (count, redis) = velocity (velocity_key t) w.redis in
      let (o, rows) =
        save_score marshal (w.replies w.saves) (w.clock w.saves) (score_of t count) w.rows in
      (
        context (codes "error saving fraud score=" ++ (t.payment_id ++ codes ": ")) o,
        record w { rows = rows; redis = redis; saves = suc w.saves },
      )
]

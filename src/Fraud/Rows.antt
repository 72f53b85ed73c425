-- ===== src/Fraud/Rows.antt =====
-- The rows that the fraud consumer writes.
use distributed_payment_pipe.Base.{◌≡◌, refl, Bool, List, [], ◌∷◌, ◌++◌, arith, none, if◌then◌else◌}
use distributed_payment_pipe.Base.Int.{ℤ}
use distributed_payment_pipe.Text.{Text, text_eq}
use distributed_payment_pipe.Errors.{Result, ok, nil, CommitReply, committed}
use distributed_payment_pipe.Domain.{Time, Transaction}
use distributed_payment_pipe.Outbox.{EventCodec}
use distributed_payment_pipe.Consumer.{read_event, transaction_of_event}
use distributed_payment_pipe.Fraud.{
  Velocity, velocity_key, Score, score_of, apply_rules, FraudRow, FraudWorld, save_score,
  handle_fraud, is_large, is_frequent, is_new_account, signal_amount, signal_velocity,
}

-- The signals that a payment without metadata can have.
abbrev pub event_signals : Bool → Bool → List Text
event_signals large frequent =
    (if large then signal_amount ∷ [] else []) ++ (if frequent then signal_velocity ∷ [] else [])

-- The row of a score.
abbrev pub row_of : Score → Text → Time → FraudRow
row_of s signals now = record {
  payment_id = s.payment_id;
  account_id = s.account_id;
  score = s.score;
  risk_level = s.risk_level;
  signals = signals;
  created_at = now;
}

-- The handler leaves the metadata of the event behind.
read_event-metadata :
    (codec : EventCodec) (payload : Text) (t : Transaction)
    → read_event codec payload ≡ ok t
    → t.metadata ≡ none
unfolding read_event transaction_of_event
read_event-metadata codec payload t h = ground arith

no_metadata_signals :
    (t : Transaction) (count : Result ℤ)
    → t.metadata ≡ none
    → (score_of t count).signals ≡ event_signals (is_large t) (is_frequent count)
unfolding score_of apply_rules is_new_account text_eq
no_metadata_signals t count h = ground arith

save_score_committed :
    (marshal : List Text → Result Text) (reply : CommitReply) (now : Time) (s : Score)
    (signals : Text) (rows : List FraudRow)
    → marshal s.signals ≡ ok signals
    → reply ≡ committed
    → save_score marshal reply now s rows ≡ (nil, rows ++ row_of s signals now ∷ [])
unfolding save_score
save_score_committed marshal reply now s signals rows encoded done =
    rw (encoded, done, save_score) refl

-- For an event that is read: if the signals can be encoded and the insert is confirmed, the handler
-- returns nil and adds one row to whatever rows there are, also to rows of the same payment; and
-- the signals of the row are only those of the amount and of the velocity, whatever metadata the
-- event has.
pub handle_fraud_adds :
    {R : Type 0} (codec : EventCodec) (marshal : List Text → Result Text) (velocity : Velocity R)
    (key payload signals : Text) (w : FraudWorld R) (t : Transaction)
    → let count = (velocity (velocity_key t) w.redis).0 in
      read_event codec payload ≡ ok t
      → marshal (event_signals (is_large t) (is_frequent count)) ≡ ok signals
      → w.replies w.saves ≡ committed
      → let (o, w') = handle_fraud codec marshal velocity key payload w in
        (o ≡ nil) × (w'.rows ≡ w.rows ++ row_of (score_of t count) signals (w.clock w.saves) ∷ [])
unfolding handle_fraud
handle_fraud_adds codec marshal velocity key payload signals w t read encoded reply =
    let count = (velocity (velocity_key t) w.redis).0 in
    let same = no_metadata_signals t count (read_event-metadata codec payload t read) in
    rw
      (
        read,
        handle_fraud,
        save_score_committed marshal (w.replies w.saves) (w.clock w.saves) (score_of t count)
            signals w.rows (rw same encoded) reply,
      )
      (refl, refl)

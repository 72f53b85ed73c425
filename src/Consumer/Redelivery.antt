-- ===== src/Consumer/Redelivery.antt =====
-- The ledger consumer behind `RetryHandler`: Kafka delivers a message at least once, and each
-- payment gets its legs at most once.
use distributed_payment_pipe.Base.{◌≡◌, ◌≢◌, refl, ◌∙◌, List, [], ◌∷◌, inl, inr}
use distributed_payment_pipe.Base.Int.{pos}
use distributed_payment_pipe.Text.{Text}
use distributed_payment_pipe.Errors.{Result, Result-cases}
use distributed_payment_pipe.Domain.{Time}
use distributed_payment_pipe.Db.{LedgerEntry}
use distributed_payment_pipe.Ledger.Booked.{IsBooked, legs, post-IsBooked, legs-post}
use distributed_payment_pipe.Ledger.ZeroSum.{balance, balance-post}
use distributed_payment_pipe.Kafka.{Publish, DlqMessage}
use distributed_payment_pipe.Kafka.Retry.Runs.{retry_handler_keeps}
use distributed_payment_pipe.Outbox.{EventCodec}
use distributed_payment_pipe.Consumer.{
  LedgerWorld, read_event, handle_ledger, ledger_config, deliver,
}

-- The ledger of a world is booked and sums to zero.
pub record IsSound {B : Type 0} (w : LedgerWorld B) : Type 0 where
  pub booked : IsBooked w.db.ledger_entries
  pub zero_sum : balance w.db.ledger_entries ≡ pos 0

-- A world in which a payment has the given legs.
record HasLegs {B : Type 0} (p : Text) (ls : List LedgerEntry) (w : LedgerWorld B) : Type 0 where
  booked : IsBooked w.db.ledger_entries
  some_leg : ls ≢ []
  same : legs p w.db.ledger_entries ≡ ls

module _ {B : Type 0} (codec : EventCodec) (key payload : Text) where
  handle_ledger-IsSound :
      (w : LedgerWorld B) → IsSound w → IsSound (handle_ledger codec key payload w).1
  unfolding handle_ledger
  handle_ledger-IsSound w h = elim (Result-cases (read_event codec payload)) [
    | inr (e, bad) ↦ rw (bad, handle_ledger) h
    | inl (trx, good) ↦
        rw (good, handle_ledger)
          (record {
            booked = post-IsBooked (w.replies w.posts) trx (w.clock w.posts) w.db h.booked;
            zero_sum =
                balance-post (w.replies w.posts) trx (w.clock w.posts) w.db h.booked ∙ h.zero_sum;
          })
  ]

  handle_ledger-HasLegs :
      (p : Text) (ls : List LedgerEntry) (w : LedgerWorld B)
      → HasLegs p ls w
      → HasLegs p ls (handle_ledger codec key payload w).1
  unfolding handle_ledger
  handle_ledger-HasLegs p ls w h = elim (Result-cases (read_event codec payload)) [
    | inr (e, bad) ↦ rw (bad, handle_ledger) h
    | inl (trx, good) ↦
        rw (good, handle_ledger)
          (record {
            booked = post-IsBooked (w.replies w.posts) trx (w.clock w.posts) w.db h.booked;
            some_leg = h.some_leg;
            same =
                legs-post (w.replies w.posts) trx (w.clock w.posts) w.db p h.booked
                  (rw h.same h.some_leg)
                ∙ h.same;
          })
  ]

-- One delivery: the key, the payload, and the time at which it would be sent to the dead letters.
pub record Delivery : Type 0 where
  pub key : Text
  pub payload : Text
  pub now : Time

module _ {B : Type 0} (publish : Publish B) (marshal : DlqMessage → Result Text)
    (codec : EventCodec) where
  -- Any sequence of deliveries, repetitions included.
  unfoldable pub deliver_all : List Delivery → LedgerWorld B → LedgerWorld B
  deliver_all [] w = w
  deliver_all (d ∷ ds) w = deliver_all ds (deliver publish marshal codec d.key d.payload d.now w).1

  pub deliver_keeps {κ} :
      (P : LedgerWorld B → Type κ) (d : Delivery)
      → ((w : LedgerWorld B) → P w → P (handle_ledger codec d.key d.payload w).1)
      → ((b : B) (w : LedgerWorld B) → P w → P (record w { broker = b }))
      → (w : LedgerWorld B) → P w
      → P (deliver publish marshal codec d.key d.payload d.now w).1
  unfolding deliver
  deliver_keeps P d keep other w h =
      retry_handler_keeps P (ledger_config publish marshal) (handle_ledger codec) d.key d.payload
        d.now keep (λ b s hs. other _ s hs) w h

  -- After any sequence of deliveries, with any faults of the database and the broker, each payment
  -- has no leg or one balanced pair, and the whole ledger sums to zero.
  deliver_all-IsSound :
      (ds : List Delivery) (w : LedgerWorld B) → IsSound w → IsSound (deliver_all ds w)
  unfolding deliver_all
  deliver_all-IsSound [] w h = h
  deliver_all-IsSound (d ∷ ds) w h = deliver_all-IsSound ds _ (
      deliver_keeps IsSound d (handle_ledger-IsSound codec d.key d.payload)
        (λ b v hv. record { booked = hv.booked; zero_sum = hv.zero_sum }) w h)

  deliver_all-HasLegs :
      (p : Text) (ls : List LedgerEntry) (ds : List Delivery) (w : LedgerWorld B)
      → HasLegs p ls w
      → HasLegs p ls (deliver_all ds w)
  unfolding deliver_all
  deliver_all-HasLegs p ls [] w h = h
  deliver_all-HasLegs p ls (d ∷ ds) w h = deliver_all-HasLegs p ls ds _ (
      deliver_keeps (HasLegs p ls) d (handle_ledger-HasLegs codec d.key d.payload p ls)
        (λ b v hv. record { booked = hv.booked; some_leg = hv.some_leg; same = hv.same }) w h)

  -- Once a payment has its legs, no later sequence of deliveries, whatever they carry and whatever
  -- fails, adds to them or changes them.
  pub legs-deliver_all :
      (p : Text) (ds : List Delivery) (w : LedgerWorld B)
      → IsBooked w.db.ledger_entries
      → legs p w.db.ledger_entries ≢ []
      → legs p (deliver_all ds w).db.ledger_entries ≡ legs p w.db.ledger_entries
  legs-deliver_all p ds w booked some_yet =
      (deliver_all-HasLegs p (legs p w.db.ledger_entries) ds w
        (record { booked = booked; some_leg = some_yet; same = refl })).same

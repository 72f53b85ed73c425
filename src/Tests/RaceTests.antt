-- ===== src/Tests/RaceTests.antt =====
-- Two runs of the engine over the same payments, for two windows.
use distributed_payment_pipe.Base.{suc, ◌≡◌, refl, false, [], ◌∷◌, ◌++◌}
use distributed_payment_pipe.Base.Int.{pos}
use distributed_payment_pipe.Text.{codes, text_eq}
use distributed_payment_pipe.Errors.{ok}
use distributed_payment_pipe.Settlement.{persist_batch, same_window, has_window, has_id}
use distributed_payment_pipe.Settlement.Persist.{event_of}
use distributed_payment_pipe.Settlement.Engine.{GroupInput, batch_of}
use distributed_payment_pipe.Settlement.Persist.Race.{IsAnswered, persist_batch_twice}
use distributed_payment_pipe.Tests.SettlementTests.{group, db, persist_done}

abbrev first : GroupInput
first = record {
  batch_id = codes "b1";
  payout_id = codes "o1";
  now = pos 30;
  replies = persist_done;
}

abbrev second : GroupInput
second = record first { batch_id = codes "b2"; payout_id = codes "o2" }

answered : IsAnswered persist_done
answered = (refl, refl, refl, refl, refl, refl)

persist_batch_twice_example :
    let b = batch_of first group (pos 0) (pos 15) in
    let c = batch_of second group (pos 0) (pos 18) in
    let (o, db') = persist_batch persist_done b group (codes "1") (codes "2") db in
    let (o', db'') = persist_batch persist_done c group (codes "3") (codes "4") db' in
    let n = db.next_outbox_id in
    (o ≡ ok false)
    × (o' ≡ ok false)
    × (db''.settlement_batches ≡ (db.settlement_batches ++ b ∷ []) ++ c ∷ [])
    × (b.total_minor ≡ pos 1300)
    × (c.total_minor ≡ pos 1300)
    × (db''.transactions ≡ db'.transactions)
    × (db''.outbox
        ≡ (((db.outbox ++ event_of n b (codes "payments.settled") (codes "1") persist_done.now ∷ [])
              ++ event_of (suc n) b (codes "payouts.requested") (codes "2") persist_done.now ∷ [])
            ++ event_of (suc (suc n)) c (codes "payments.settled") (codes "3") persist_done.now
              ∷ [])
          ++ event_of (suc (suc (suc n))) c (codes "payouts.requested") (codes "4") persist_done.now
            ∷ [])
unfolding has_window has_id same_window text_eq batch_of
persist_batch_twice_example =
    persist_batch_twice first second group (pos 0) (pos 15) (pos 0) (pos 18) (codes "1") (codes "2")
      (codes "3") (codes "4") db answered answered (refl, refl) (refl, refl) refl refl

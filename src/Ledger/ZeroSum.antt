-- ===== src/Ledger/ZeroSum.antt =====
-- Debits and credits cancel over the whole ledger.
use distributed_payment_pipe.Base.{◌≡◌, inl, inr, List, [], ◌∷◌, ◌++◌, ap}
use distributed_payment_pipe.Base.Int.{ℤ, pos, ◌+ℤ◌, ◌-ℤ◌, int_laws}
use distributed_payment_pipe.Domain.{Time, Transaction}
use distributed_payment_pipe.Db.{Db, LedgerEntry, Direction, debit, credit}
use distributed_payment_pipe.Ledger.{PostReplies, post, debit_leg, credit_leg}
use distributed_payment_pipe.Ledger.Booked.{IsBooked, post_entries}

signed : Direction → ℤ → ℤ → ℤ
signed debit amount rest = rest +ℤ amount
signed credit amount rest = rest -ℤ amount

-- The sum of a ledger, debits counted up and credits down.
unfoldable pub balance : List LedgerEntry → ℤ
unfolding signed
balance [] = pos 0
balance (e ∷ es) = signed e.direction e.amount_minor (balance es)

balance-pair :
    (trx : Transaction) (es : List LedgerEntry)
    → balance (es ++ debit_leg trx ∷ credit_leg trx ∷ []) ≡ balance es
unfolding balance
balance-pair trx [] = omega int_laws
balance-pair trx (e ∷ es) = ap (signed e.direction e.amount_minor) (balance-pair trx es)

-- `Post` keeps the sum of all debits and credits at what it was, on every path, whatever each of
-- its calls answers, if the ledger is booked.
pub balance-post :
    (r : PostReplies) (trx : Transaction) (now : Time) (db : Db)
    → IsBooked db.ledger_entries
    → balance (post r trx now db).1.ledger_entries ≡ balance db.ledger_entries
balance-post r trx now db h = elim (post_entries r trx now db (h trx.payment_id)) [
  | inl same ↦ rw same
  | inr (_, _, e) ↦ rw e (balance-pair trx db.ledger_entries)
]

-- ===== src/Store/Keys.antt =====
-- The unique keys of `transactions`: no two rows share a payment id or an idempotency key.
use distributed_payment_pipe.Base.{◌≡◌, refl, false, ◌||◌, List, [], ◌∷◌, ◌++◌, arith}
use distributed_payment_pipe.Text.{Text, text_eq_comm}
use distributed_payment_pipe.Errors.{Failure, Reply}
use distributed_payment_pipe.Domain.{Time, State, Transaction}
use distributed_payment_pipe.Db.{Db, clashes, set_state}
use distributed_payment_pipe.Store.{
  SaveReplies, UpdateReplies, save, save_with_outbox, update_state,
}

abbrev pub IsKeyed : List Transaction → Type 0
IsKeyed [] = Unit
IsKeyed (r ∷ rows) = (clashes r rows ≡ false) × IsKeyed rows

clashes-append :
    (t : Transaction) (xs ys : List Transaction)
    → clashes t (xs ++ ys) ≡ (clashes t xs || clashes t ys)
unfolding clashes
clashes-append t [] ys = refl
clashes-append t (x ∷ xs) ys = ground (arith, clashes-append t xs ys)

pub IsKeyed-append :
    (xs : List Transaction) (t : Transaction)
    → IsKeyed xs
    → clashes t xs ≡ false
    → IsKeyed (xs ++ t ∷ [])
unfolding clashes
IsKeyed-append [] t k h = (refl, tt)
IsKeyed-append (x ∷ xs) t k h = (
  ground (
    arith,
    clashes-append x xs (t ∷ []),
    text_eq_comm x.payment_id t.payment_id,
    text_eq_comm x.idempotency_key t.idempotency_key,
  ),
  IsKeyed-append xs t k.1 (ground arith),
)

clashes-set_state :
    (p : Text) (from to : State) (now : Time) (t : Transaction) (rows : List Transaction)
    → clashes t (set_state p from to now rows) ≡ clashes t rows
unfolding clashes set_state
clashes-set_state p from to now t [] = refl
clashes-set_state p from to now t (r ∷ rows) =
    ground (arith, clashes-set_state p from to now t rows)

pub set_state-IsKeyed :
    (p : Text) (from to : State) (now : Time) (rows : List Transaction)
    → IsKeyed rows
    → IsKeyed (set_state p from to now rows)
unfolding clashes set_state
set_state-IsKeyed p from to now [] k = tt
set_state-IsKeyed p from to now (r ∷ rows) k = ground (
  arith,
  clashes-set_state p from to now (record r { state = to; updated_at = now }) rows,
  clashes-set_state p from to now r rows,
  set_state-IsKeyed p from to now rows k.1,
)

-- The keys stay unique through `Save`, whatever Postgres answers.
pub save-IsKeyed :
    (reply : Reply) (clash : Failure) (t : Transaction) (db : Db)
    → IsKeyed db.transactions
    → IsKeyed (save reply clash t db).1.transactions
unfolding save
save-IsKeyed reply clash t db k = ground (arith, IsKeyed-append db.transactions t k)

-- And through `SaveWithOutbox`.
pub save_with_outbox-IsKeyed :
    (r : SaveReplies) (t : Transaction) (payload : Text) (db : Db)
    → IsKeyed db.transactions
    → IsKeyed (save_with_outbox r t payload db).1.transactions
unfolding save_with_outbox
save_with_outbox-IsKeyed r t payload db k = ground (arith, IsKeyed-append db.transactions t k)

-- And through `UpdateState`.
pub update_state-IsKeyed :
    (r : UpdateReplies) (p : Text) (from to : State) (now : Time) (db : Db)
    → IsKeyed db.transactions
    → IsKeyed (update_state r p from to now db).1.transactions
unfolding update_state
update_state-IsKeyed r p from to now db k =
    ground (arith, set_state-IsKeyed p from to now db.transactions k)

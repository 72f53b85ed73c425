-- ===== src/Store/Update.antt =====
-- `UpdateState`: what it does to the row, to the audit log and to the other payments.
use distributed_payment_pipe.Base.{
  ℕ, ◌≡◌, ◌≢◌, refl, ◌⊎◌, inl, inr, false, List, [], ◌∷◌, ◌++◌, Option, none, some, arith,
  if◌then◌else◌, ◌∙◌,
}
use distributed_payment_pipe.Text.{
  Text, text_eq, text_eq_iff, text_eq_refl, text_eq_comm, Text-cases,
}
use distributed_payment_pipe.Store.Keys.{IsKeyed, update_state-IsKeyed}
use distributed_payment_pipe.Errors.{Failure, nil, err, done, committed, unconfirmed}
use distributed_payment_pipe.Domain.{Time, State, Transaction, transition}
use distributed_payment_pipe.Domain.Lifecycle.{Arrow, Arrow-ne, transition_iff}
use distributed_payment_pipe.Db.{Db, set_state, select_payment, rows_affected, clashes}
use distributed_payment_pipe.Store.{UpdateReplies, update_state, moved, stale_transition}

-- A lookup after the update: the row of the payment with its new state, if it was in `from`.
abbrev pub bumped : State → State → Time → Option Transaction → Option Transaction
bumped from to now none = none
bumped from to now (some r) =
    if text_eq r.state from then some (record r { state = to; updated_at = now }) else some r

pub select_payment-set_state :
    (p : Text) (from to : State) (now : Time) (rows : List Transaction)
    → (q : Text)
    → select_payment q (set_state p from to now rows)
      ≡ (if text_eq p q then bumped from to now (select_payment q rows) else select_payment q rows)
unfolding select_payment set_state
select_payment-set_state p from to now [] q = ground arith
select_payment-set_state p from to now (r ∷ rows) q = ground (
  arith,
  text_eq_iff p q,
  text_eq_iff r.payment_id p,
  text_eq_iff r.payment_id q,
  select_payment-set_state p from to now rows q,
)

select_none_of_clashes :
    (t : Transaction) (rows : List Transaction)
    → clashes t rows ≡ false
    → select_payment t.payment_id rows ≡ none
unfolding clashes select_payment
select_none_of_clashes t [] h = refl
select_none_of_clashes t (r ∷ rows) h = ground (arith, select_none_of_clashes t rows)

rows_affected_absent :
    (p : Text) (from : State) (rows : List Transaction)
    → select_payment p rows ≡ none
    → rows_affected p from rows ≡ 0
unfolding select_payment rows_affected
rows_affected_absent p from [] h = refl
rows_affected_absent p from (r ∷ rows) h = ground (arith, rows_affected_absent p from rows)

-- How many rows the update of a payment changes, read off its row.
abbrev pub hits : State → Option Transaction → ℕ
hits from none = 0
hits from (some r) = if text_eq r.state from then 1 else 0

pub rows_affected-select :
    (p : Text) (from : State) (rows : List Transaction)
    → IsKeyed rows
    → rows_affected p from rows ≡ hits from (select_payment p rows)
unfolding select_payment rows_affected
rows_affected-select p from [] k = refl
rows_affected-select p from (r ∷ rows) k = elim (Text-cases r.payment_id p) [
  | inl (e, t) ↦
      let gone = rows_affected_absent p from rows (rw e at (select_none_of_clashes r rows k.0)) in
      ground arith
  | inr n ↦ ground (arith, rows_affected-select p from rows k.1)
]

-- What a successful update of a payment has done.
pub record HasMoved (p : Text) (from to : State) (now : Time) (db db' : Db) : Type 0 where
  pub arrow : Arrow from to
  pub row : Transaction
  pub found : select_payment p db.transactions ≡ some row
  pub was_from : row.state ≡ from
  pub now_to :
      select_payment p db'.transactions ≡ some (record row { state = to; updated_at = now })
  pub others :
      (q : Text) → q ≢ p → select_payment q db'.transactions ≡ select_payment q db.transactions
  pub logged :
      db'.state_transitions
      ≡ db.state_transitions
        ++ record { payment_id = p; from_state = from; to_state = to; created_at = now } ∷ []
  pub rest_kept :
      (db'.outbox ≡ db.outbox)
      × (db'.next_outbox_id ≡ db.next_outbox_id)
      × (db'.ledger_entries ≡ db.ledger_entries)
      × (db'.settlement_batches ≡ db.settlement_batches)

-- A success has passed every test and every statement.
update_state_passed :
    (r : UpdateReplies) (p : Text) (from to : State) (now : Time) (db : Db)
    → (update_state r p from to now db).0 ≡ nil
    → (transition from to ≡ nil)
      × (rows_affected p from db.transactions ≢ 0)
      × ((update_state r p from to now db).1 ≡ moved p from to now db)
unfolding update_state
update_state_passed r p from to now db h = ground arith

-- The row of a payment when an update affects one.
pub row_of_hit :
    (from : State) (o : Option Transaction)
    → hits from o ≢ 0
    → (t : Transaction) × (o ≡ some t) × (t.state ≡ from)
row_of_hit from none h = absurd (h refl)
row_of_hit from (some t) h = (t, refl, ground (arith, text_eq_iff t.state from))

module _ (r : UpdateReplies) (p : Text) (from to : State) (now : Time) (db : Db) where
  -- In a table without two rows of one payment id or one idempotency key: when `UpdateState` returns
  -- nil, the move is an arrow of the state machine, the payment's row was
  -- in the state `from` and is now in the state `to`, the audit log has one more row, which says
  -- so, and no other payment's row and no other table has changed.
  pub update_state-HasMoved :
      IsKeyed db.transactions
      → (update_state r p from to now db).0 ≡ nil
      → HasMoved p from to now db (update_state r p from to now db).1
  unfolding moved
  update_state-HasMoved k h =
      let (legal, affected, e) = update_state_passed r p from to now db h in
      let (t, found, was) =
        row_of_hit from (select_payment p db.transactions)
          (rw (rows_affected-select p from db.transactions k) at affected) in
      rw e (record {
        arrow = (transition_iff from to).0 legal;
        row = t;
        found = found;
        was_from = was;
        now_to = ground (
          arith,
          found,
          select_payment-set_state p from to now db.transactions p,
          text_eq_refl p,
          text_eq_iff t.state from,
        );
        others = λ q ne.
            ground (
              arith,
              ne,
              select_payment-set_state p from to now db.transactions q,
              text_eq_iff p q,
            );
        logged = refl;
        rest_kept = (refl, refl, refl, refl);
      })

  -- An error of `UpdateState` leaves every table as it was, unless it stands for a commit that was
  -- applied and not confirmed.
  update_state_failure :
      (update_state r p from to now db).0 ≢ nil
      → ((update_state r p from to now db).1 ≡ db) ⊎ ((e : Failure) × (r.commit ≡ unconfirmed e))
  unfolding update_state
  update_state_failure h = ground arith

-- An update finds no row of a payment that has left the state `from`.
update_state_stale :
    (r : UpdateReplies) (p : Text) (from to : State) (now : Time) (db : Db) (t : Transaction)
    → IsKeyed db.transactions
    → select_payment p db.transactions ≡ some t
    → text_eq t.state from ≡ false
    → ((update_state r p from to now db).0 ≢ nil) × ((update_state r p from to now db).1 ≡ db)
unfolding update_state
update_state_stale r p from to now db t k found left =
    ground (arith, rows_affected-select p from db.transactions k)

-- Of two updates of one payment that start from the same state at most one succeeds: after the
-- first has succeeded, the second returns an error and changes nothing, whatever state it asks for
-- and whatever Postgres answers.
update_state_once :
    (r r' : UpdateReplies) (p : Text) (from to to' : State) (now later : Time) (db : Db)
    → IsKeyed db.transactions
    → (update_state r p from to now db).0 ≡ nil
    → let db' = (update_state r p from to now db).1 in
      ((update_state r' p from to' later db').0 ≢ nil)
      × ((update_state r' p from to' later db').1 ≡ db')
update_state_once r r' p from to to' now later db k h =
    let m = update_state-HasMoved r p from to now db k h in
    update_state_stale r' p from to' later (update_state r p from to now db).1 _
      (update_state-IsKeyed r p from to now db k) m.now_to
      (text_eq_comm to from ∙ Arrow-ne from to m.arrow)

-- `UpdateState` writes to no other table, whatever Postgres answers.
pub update_state_frame :
    (r : UpdateReplies) (p : Text) (from to : State) (now : Time) (db : Db)
    → let db' = (update_state r p from to now db).1 in
      (db'.outbox ≡ db.outbox)
      × (db'.next_outbox_id ≡ db.next_outbox_id)
      × (db'.ledger_entries ≡ db.ledger_entries)
      × (db'.settlement_batches ≡ db.settlement_batches)
unfolding update_state
update_state_frame r p from to now db = ground arith

-- Every call of the update is answered.
abbrev pub AllDone : UpdateReplies → Type 0
AllDone r =
    (r.begin ≡ done)
    × (r.update ≡ done)
    × (r.select ≡ done)
    × (r.audit ≡ done)
    × (r.commit ≡ committed)

-- An answered update of a payment that is in another state names both states and changes nothing.
pub update_state_says_stale :
    (r : UpdateReplies) (p : Text) (from to : State) (now : Time) (db : Db) (t : Transaction)
    → transition from to ≡ nil
    → AllDone r
    → IsKeyed db.transactions
    → select_payment p db.transactions ≡ some t
    → text_eq t.state from ≡ false
    → update_state r p from to now db ≡ (err (stale_transition from to t p), db)
unfolding update_state
update_state_says_stale r p from to now db t legal d k found left =
    ground (arith, rows_affected-select p from db.transactions k)

-- An answered update of a payment in the state `from` by a legal move succeeds.
pub update_state_succeeds :
    (r : UpdateReplies) (p : Text) (from to : State) (now : Time) (db : Db) (t : Transaction)
    → transition from to ≡ nil
    → AllDone r
    → IsKeyed db.transactions
    → select_payment p db.transactions ≡ some t
    → t.state ≡ from
    → let (o, db') = update_state r p from to now db in
      (o ≡ nil)
      × (select_payment p db'.transactions ≡ some (record t { state = to; updated_at = now }))
unfolding update_state moved
update_state_succeeds r p from to now db t legal d k found was = ground (
  arith,
  rows_affected-select p from db.transactions k,
  select_payment-set_state p from to now db.transactions p,
  text_eq_refl p,
  text_eq_iff t.state from,
)

-- ===== src/Ledger/Booked.antt =====
-- The ledger stays balanced: each payment has no leg, or one debit and one credit of one amount.
use distributed_payment_pipe.Base.{
  ◌≡◌, ◌≢◌, refl, ◌⊎◌, inl, inr, Bool, true, false, ◌||◌, List, [], ◌∷◌, ◌++◌, arith, subst,
  keep_if, keep_if-append, append-nil, append_assoc,
}
use mathlib.Core.List.{cons-ne-nil}
use distributed_payment_pipe.Base.Int.{pos, ◌<ℤ◌}
use distributed_payment_pipe.Text.{Text, text_eq, Text-cases}
use distributed_payment_pipe.Domain.{
  Time, Transaction, state_validated, state_captured, state_failed,
}
use distributed_payment_pipe.Db.{
  Db, LedgerEntry, Direction, debit, credit, same_direction, has_leg, insert_leg,
}
use distributed_payment_pipe.Store.Update.{update_state_frame}
use distributed_payment_pipe.Ledger.{PostReplies, post, debit_leg, credit_leg, insert_legs}

-- The legs of a payment.
abbrev pub legs : Text → List LedgerEntry → List LedgerEntry
legs p = keep_if λ e. text_eq e.payment_id p

abbrev has_direction : Direction → List LedgerEntry → Bool
has_direction d [] = false
has_direction d (e ∷ es) = same_direction e.direction d || has_direction d es

has_leg-legs :
    (p : Text) (d : Direction) (es : List LedgerEntry)
    → has_leg p d es ≡ has_direction d (legs p es)
unfolding has_leg
has_leg-legs p d [] = refl
has_leg-legs p d (e ∷ es) = ground (arith, has_leg-legs p d es)

-- No leg at all, or a debit of the payer and a credit of the clearing account, of one positive
-- amount in one currency.
abbrev pub IsPair : Text → List LedgerEntry → Type 0
IsPair p ls =
    (ls ≡ [])
    ⊎ ((t : Transaction) × (t.payment_id ≡ p)
        × (pos 0 <ℤ t.amount.minor_units)
        × (ls ≡ debit_leg t ∷ credit_leg t ∷ []))

abbrev pub IsBooked : List LedgerEntry → Type 0
IsBooked es = (p : Text) → IsPair p (legs p es)

has_leg-append :
    (p : Text) (d : Direction) (xs ys : List LedgerEntry)
    → has_leg p d (xs ++ ys) ≡ (has_leg p d xs || has_leg p d ys)
unfolding has_leg
has_leg-append p d [] ys = refl
has_leg-append p d (x ∷ xs) ys = ground (arith, has_leg-append p d xs ys)

-- Whether each leg is there, when the legs are a pair.
has_leg_of_pair :
    (p : Text) (es : List LedgerEntry)
    → IsPair p (legs p es)
    → ((legs p es ≡ []) × (has_leg p debit es ≡ false) × (has_leg p credit es ≡ false))
      ⊎ ((legs p es ≢ []) × (has_leg p debit es ≡ true) × (has_leg p credit es ≡ true))
unfolding same_direction
has_leg_of_pair p es (inl e) =
    inl (e, rw (has_leg-legs p debit es, e), rw (has_leg-legs p credit es, e))
has_leg_of_pair p es (inr (t, _, _, e)) =
    inr (rw e (cons-ne-nil _ _), rw (has_leg-legs p debit es, e), rw (has_leg-legs p credit es, e))

has_leg_of_debit : (trx : Transaction) → has_leg trx.payment_id credit (debit_leg trx ∷ []) ≡ false
unfolding has_leg
has_leg_of_debit trx = ground arith

-- On a booked ledger both inserts are made or neither.
pub insert_legs_both :
    (trx : Transaction) (es : List LedgerEntry)
    → IsPair trx.payment_id (legs trx.payment_id es)
    → ((legs trx.payment_id es ≡ [])
        × (insert_legs trx es ≡ (es ++ debit_leg trx ∷ credit_leg trx ∷ [], 1, 1)))
      ⊎ ((legs trx.payment_id es ≢ []) × (insert_legs trx es ≡ (es, 0, 0)))
unfolding insert_legs insert_leg
insert_legs_both trx es h = elim (has_leg_of_pair trx.payment_id es h) [
  | inl (none_yet, no_debit, no_credit) ↦ inl (
    none_yet,
    ground (
      arith,
      has_leg-append trx.payment_id credit es (debit_leg trx ∷ []),
      append_assoc es (debit_leg trx ∷ []) (credit_leg trx ∷ []),
      has_leg_of_debit trx,
    ),
  )
  | inr (some_yet, has_debit, has_credit) ↦ inr (some_yet, ground arith)
]

-- The ledger after `Post`: unchanged, or the two legs of a positive amount behind it.
pub post_entries :
    (r : PostReplies) (trx : Transaction) (now : Time) (db : Db)
    → IsPair trx.payment_id (legs trx.payment_id db.ledger_entries)
    → let es' = (post r trx now db).1.ledger_entries in
      (es' ≡ db.ledger_entries)
      ⊎ ((legs trx.payment_id db.ledger_entries ≡ [])
          × (pos 0 <ℤ trx.amount.minor_units)
          × (es' ≡ db.ledger_entries ++ debit_leg trx ∷ credit_leg trx ∷ []))
unfolding post
post_entries r trx now db h = ground (
  arith,
  insert_legs_both trx db.ledger_entries h,
  update_state_frame r.update trx.payment_id state_validated state_captured now db,
  update_state_frame r.update trx.payment_id state_validated state_failed now db,
)

legs-append-IsPair :
    (trx : Transaction) (p : Text) (es : List LedgerEntry)
    → legs trx.payment_id es ≡ []
    → pos 0 <ℤ trx.amount.minor_units
    → IsPair p (legs p es)
    → IsPair p (legs p (es ++ debit_leg trx ∷ credit_leg trx ∷ []))
legs-append-IsPair trx p es none_yet positive h = elim (Text-cases trx.payment_id p) [
  | inl (e, t) ↦ inr (
    trx,
    e,
    positive,
    ground (
      arith,
      e,
      keep_if-append (λ (x : LedgerEntry). text_eq x.payment_id p) es
          (debit_leg trx ∷ credit_leg trx ∷ []),
    ),
  )
  | inr n ↦
      subst (IsPair p)
        (ground (
          arith,
          append-nil (legs p es),
          keep_if-append (λ (x : LedgerEntry). text_eq x.payment_id p) es
              (debit_leg trx ∷ credit_leg trx ∷ []),
        ))
        h
]

legs-append_other :
    (trx : Transaction) (p : Text) (es : List LedgerEntry)
    → legs trx.payment_id es ≡ []
    → legs p es ≢ []
    → legs p (es ++ debit_leg trx ∷ credit_leg trx ∷ []) ≡ legs p es
legs-append_other trx p es none_yet some_yet = elim (Text-cases trx.payment_id p) [
  | inl (e, t) ↦ absurd (some_yet (rw e at none_yet))
  | inr n ↦ ground (
    arith,
    append-nil (legs p es),
    keep_if-append (λ (x : LedgerEntry). text_eq x.payment_id p) es
        (debit_leg trx ∷ credit_leg trx ∷ []),
  )
]

-- `Post` keeps the ledger booked on every path, whatever each of its calls answers: every payment
-- still has no leg, or one debit and one credit of the same positive amount and currency.
pub post-IsBooked :
    (r : PostReplies) (trx : Transaction) (now : Time) (db : Db)
    → IsBooked db.ledger_entries
    → IsBooked (post r trx now db).1.ledger_entries
post-IsBooked r trx now db h p = elim (post_entries r trx now db (h trx.payment_id)) [
  | inl same ↦ rw same (h p)
  | inr (none_yet, positive, e) ↦
      rw e (legs-append-IsPair trx p db.ledger_entries none_yet positive (h p))
]

-- A payment that has its legs gets no others: `Post` of any transaction with its id leaves the
-- ledger as it is.
pub post_again :
    (r : PostReplies) (trx : Transaction) (now : Time) (db : Db)
    → IsBooked db.ledger_entries
    → legs trx.payment_id db.ledger_entries ≢ []
    → (post r trx now db).1.ledger_entries ≡ db.ledger_entries
post_again r trx now db h some_yet = elim (post_entries r trx now db (h trx.payment_id)) [
  | inl same ↦ same
  | inr (none_yet, _, _) ↦ absurd (some_yet none_yet)
]

-- The legs of a payment, once booked, stay as they are whatever is posted.
pub legs-post :
    (r : PostReplies) (trx : Transaction) (now : Time) (db : Db) (p : Text)
    → IsBooked db.ledger_entries
    → legs p db.ledger_entries ≢ []
    → legs p (post r trx now db).1.ledger_entries ≡ legs p db.ledger_entries
legs-post r trx now db p h some_yet = elim (post_entries r trx now db (h trx.payment_id)) [
  | inl same ↦ rw same
  | inr (none_yet, positive, e) ↦ rw e (legs-append_other trx p db.ledger_entries none_yet some_yet)
]

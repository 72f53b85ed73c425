-- ===== src/Intake/Keyless.antt =====
-- Payments without an idempotency key of the client: the derived key is claimed, but the row is
-- stored with the empty key, and the index on the keys is unique.
use distributed_payment_pipe.Base.{
  ◌≡◌, refl, ◌⊎◌, inl, inr, true, false, List, [], ◌∷◌, some, arith,
}
use distributed_payment_pipe.Text.{Text, codes}
use distributed_payment_pipe.Errors.{Failure, wrap, ok, err, Result-cases, Reply-cases}
use distributed_payment_pipe.Domain.{Transaction}
use distributed_payment_pipe.Db.{Db, clashes, select_key}
use distributed_payment_pipe.Store.{SaveReplies, save_with_outbox}
use distributed_payment_pipe.Idempotency.{derive_key, claim}
use distributed_payment_pipe.Intake.{
  IdempotencyStore, Server, Packages, CallInput, SubmitPaymentRequest, World, prepare, accepted,
  answer, submit_payment,
}
use distributed_payment_pipe.Intake.Outcomes.{accept_fails, duplicate_response}

select_key-clashes :
    (t r : Transaction) (rows : List Transaction)
    → select_key t.idempotency_key rows ≡ some r
    → clashes t rows ≡ true
unfolding select_key clashes
select_key-clashes t r [] h = cc
select_key-clashes t r (x ∷ rows) h = ground (arith, select_key-clashes t r rows)

save_clashes :
    (r : SaveReplies) (t : Transaction) (payload : Text) (db : Db)
    → clashes t db.transactions ≡ true
    → (e : Failure) × (save_with_outbox r t payload db ≡ (err e, db))
unfolding save_with_outbox
save_clashes r t payload db h = elim (Reply-cases r.begin) [
  | inr (e, b) ↦ (wrap (codes "begin transaction: ") e, ground arith)
  | inl b ↦ elim (Reply-cases r.insert_row) [
    | inr (e, c) ↦ (wrap (codes "insert transaction: ") e, ground arith)
    | inl c ↦ (wrap (codes "insert transaction: ") r.clash, ground arith)
  ]
]

module _ {ℓ} {R : Type ℓ} (lib : Packages) (server : Server R) where
  -- If the table has a row with the same idempotency key, a call stores nothing, also if its claim is
  -- granted; it returns an error or a duplicate. So once one payment without a client's key is stored,
  -- no other payment without one can be, although their derived keys differ.
  pub submit_payment_keyless :
      (i : CallInput) (req : SubmitPaymentRequest) (w : World R) (idem : IdempotencyStore R)
      (t r : Transaction)
      → prepare lib server i.payment_id req ≡ ok (idem, t)
      → select_key t.idempotency_key w.db.transactions ≡ some r
      → let (o, w') = submit_payment lib server i req w in
        (w'.db ≡ w.db)
        × (((e : Failure) × (o ≡ err e))
            ⊎ ((existing : Text) × (o ≡ ok (duplicate_response i existing))))
  unfolding submit_payment answer accepted
  submit_payment_keyless i req w idem t r prepared taken =
      let claimed =
        (claim idem.client idem.ttl_seconds (derive_key lib.sha256_hex t) t.payment_id w.redis).0 in
      let (e, fails) = accept_fails lib server i t w.db (λ payload.
        save_clashes i.save (accepted lib server i.now t) payload w.db
          (select_key-clashes (accepted lib server i.now t) r w.db.transactions taken)) in
      elim (Result-cases claimed) [
        | inr (f, c) ↦ rw (prepared, c, submit_payment, answer) (refl, inl (_, refl))
        | inl ((false, existing), c) ↦
            rw (prepared, c, submit_payment, answer) (refl, inr (existing, refl))
        | inl ((true, existing), c) ↦
            rw (prepared, c, fails, submit_payment, answer) (refl, inl (e, refl))
      ]

-- ===== src/Pipeline/Stored.antt =====
-- A call of SubmitPayment in which nothing fails.
use distributed_payment_pipe.Base.{◌≡◌, refl, true, false, List, [], ◌∷◌, ◌++◌, some, arith}
use distributed_payment_pipe.Text.{Text, text_eq_refl}
use distributed_payment_pipe.Errors.{ok, nil, done, committed}
use distributed_payment_pipe.Domain.{Transaction}
use distributed_payment_pipe.Db.{Db, clashes, select_payment}
use distributed_payment_pipe.Store.{SaveReplies, save_with_outbox}
use distributed_payment_pipe.Store.Save.{HasSaved}
use distributed_payment_pipe.Idempotency.{derive_key, claim}
use distributed_payment_pipe.Outbox.{new_payment_received_event}
use distributed_payment_pipe.Intake.{
  IdempotencyStore, Server, Packages, CallInput, SubmitPaymentRequest, World, prepare, accept,
  accepted, answer, submit_payment, validate,
}
use distributed_payment_pipe.Intake.Outcomes.{stored_response}

abbrev pub SaveDone : SaveReplies → Type 0
SaveDone r =
    (r.begin ≡ done) × (r.insert_row ≡ done) × (r.insert_event ≡ done) × (r.commit ≡ committed)

save_saves :
    (r : SaveReplies) (t : Transaction) (payload : Text) (db : Db)
    → SaveDone r
    → clashes t db.transactions ≡ false
    → ((save_with_outbox r t payload db).0 ≡ nil)
      × HasSaved t payload db (save_with_outbox r t payload db).1
unfolding save_with_outbox
save_saves r t payload db answered fresh = ground arith

-- The new row is found by its id.
pub select_payment-append :
    (t : Transaction) (rows : List Transaction)
    → clashes t rows ≡ false
    → select_payment t.payment_id (rows ++ t ∷ []) ≡ some t
unfolding select_payment clashes
select_payment-append t [] h = ground (arith, text_eq_refl t.payment_id)
select_payment-append t (x ∷ rows) h = ground (arith, select_payment-append t rows)

module _ {ℓ} {R : Type ℓ} (lib : Packages) (server : Server R) where
  -- The call reaches the store, and every answer is good.
  pub record IsSmooth (i : CallInput) (req : SubmitPaymentRequest) (w : World R) (t : Transaction)
      (payload : Text) : Type ℓ where
    pub idem : IdempotencyStore R
    pub prepared : prepare lib server i.payment_id req ≡ ok (idem, t)
    pub granted :
        (claim idem.client idem.ttl_seconds (derive_key lib.sha256_hex t) t.payment_id w.redis).0
        ≡ ok (true, [])
    pub valid : validate lib server t ≡ nil
    pub encoded :
        lib.marshal (new_payment_received_event i.event_id (accepted lib server i.now t))
        ≡ ok payload
    pub saves : SaveDone i.save
    pub fresh : clashes t w.db.transactions ≡ false

  pub submit_payment_stores :
      (i : CallInput) (req : SubmitPaymentRequest) (w : World R) (t : Transaction) (payload : Text)
      → IsSmooth i req w t payload
      → let (o, w') = submit_payment lib server i req w in
        (o ≡ ok (stored_response i t)) × HasSaved (accepted lib server i.now t) payload w.db w'.db
  unfolding submit_payment answer accept clashes
  submit_payment_stores i req w t payload h =
      let (good, has) =
        save_saves i.save (accepted lib server i.now t) payload w.db h.saves
          (unfold accepted in h.fresh) in
      rw (h.prepared, h.granted, h.valid, h.encoded, good, submit_payment, answer, accept)
        (refl, has)

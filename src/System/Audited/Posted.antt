-- ===== src/System/Audited/Posted.antt =====
-- `Post` writes an entry for each move.
use distributed_payment_pipe.Base.{◌≡◌, ◌≢◌, refl, sym, ◌∙◌, ap, ◌⊎◌, inl, inr, some, arith, subst}
use distributed_payment_pipe.Text.{Text, text_eq, text_eq_iff, text_eq_refl, Text-cases}
use distributed_payment_pipe.Domain.{
  Time, State, Transaction, state_validated, state_captured, state_failed, state_settled,
}
use distributed_payment_pipe.Db.{Db, StateTransition, rows_affected, select_payment}
use distributed_payment_pipe.Store.{UpdateReplies, moved, update_state}
use distributed_payment_pipe.Store.Keys.{IsKeyed}
use distributed_payment_pipe.Store.Update.{
  select_payment-set_state, rows_affected-select, row_of_hit,
}
use distributed_payment_pipe.Ledger.{PostReplies, post}
use distributed_payment_pipe.System.Consistent.{post_frame}
use distributed_payment_pipe.System.Audited.{Agrees, IsLogged, IsAudited, replay-append}

-- A row in the state VALIDATED agrees with no other state.
validated-Agrees :
    (s : State) (t : Transaction)
    → t.state ≡ state_validated
    → Agrees s (some t)
    → s ≡ state_validated
unfolding text_eq
validated-Agrees s t h (inl e) = e ∙ h
validated-Agrees s t h (inr (e, settled)) =
    absurd (cc ((text_eq_iff state_validated state_settled).1 (sym h ∙ settled)))

-- The move of a payment from VALIDATED, with its entry.
moved-IsLogged :
    (q : Text) (to : State) (now : Time) (db : Db)
    → IsKeyed db.transactions
    → rows_affected q state_validated db.transactions ≢ 0
    → ((p : Text) → IsLogged db.state_transitions db.transactions p)
    → let db' = moved q state_validated to now db in
      (p : Text) → IsLogged db'.state_transitions db'.transactions p
unfolding moved
moved-IsLogged q to now db k affected h p =
    let e : StateTransition = record {
      payment_id = q;
      from_state = state_validated;
      to_state = to;
      created_at = now;
    } in
    let (s, told, agrees) = h p in
    let (t, found, was) =
      row_of_hit state_validated (select_payment q db.transactions)
        (rw (rows_affected-select q state_validated db.transactions k) at affected) in
    let after = select_payment-set_state q state_validated to now db.transactions p in
    elim (Text-cases q p) [
      | inr other ↦ (
        s,
        ground (arith, other, told, replay-append p state_validated e db.state_transitions),
        rw (after, other) agrees,
      )
      | inl (same, equal) ↦
          let seen = ap (λ u. select_payment u db.transactions) (sym same) ∙ found in
          let starts = validated-Agrees s t was (subst (Agrees s) seen agrees) in
          let hit = (text_eq_iff t.state state_validated).1 was in
          (
            to,
            ground (
              arith,
              equal,
              told,
              starts,
              text_eq_refl state_validated,
              replay-append p state_validated e db.state_transitions,
            ),
            rw (after, equal, seen, hit) (inl refl),
          )
    ]

-- What `Post` does to the payments and the log: nothing, or one move from VALIDATED with its entry.
Moves : Db → Db → Text → State → Time → Type 0
Moves db db' q to now =
    (rows_affected q state_validated db.transactions ≢ 0)
    × (db'.transactions ≡ (moved q state_validated to now db).transactions)
    × (db'.state_transitions ≡ (moved q state_validated to now db).state_transitions)

update_state_log :
    (r : UpdateReplies) (q : Text) (to : State) (now : Time) (db : Db)
    → let db' = (update_state r q state_validated to now db).1 in
      ((db'.transactions ≡ db.transactions) × (db'.state_transitions ≡ db.state_transitions))
      ⊎ Moves db db' q to now
unfolding update_state Moves
update_state_log r q to now db = ground arith

post_log :
    (r : PostReplies) (trx : Transaction) (now : Time) (db : Db)
    → let db' = (post r trx now db).1 in
      ((db'.transactions ≡ db.transactions) × (db'.state_transitions ≡ db.state_transitions))
      ⊎ Moves db db' trx.payment_id state_captured now
      ⊎ Moves db db' trx.payment_id state_failed now
unfolding post Moves
post_log r trx now db = ground (
  arith,
  update_state_log r.update trx.payment_id state_captured now db,
  update_state_log r.update trx.payment_id state_failed now db,
)

moves-IsLogged :
    (db db' : Db) (q : Text) (to : State) (now : Time)
    → IsAudited db
    → Moves db db' q to now
    → (p : Text) → IsLogged db'.state_transitions db'.transactions p
unfolding Moves
moves-IsLogged db db' q to now h (affected, rows, log) p =
    rw (rows, log) (moved-IsLogged q to now db h.keyed affected h.logged p)

pub post-IsAudited :
    (r : PostReplies) (trx : Transaction) (now : Time) (db : Db)
    → IsAudited db
    → IsAudited (post r trx now db).1
post-IsAudited r trx now db h = record {
  keyed = (post_frame r trx now db h.keyed).0;
  logged = elim (post_log r trx now db) [
    | inl (rows, log) ↦ λ p. rw (rows, log) (h.logged p)
    | inr (inl move) ↦ moves-IsLogged db _ trx.payment_id state_captured now h move
    | inr (inr move) ↦ moves-IsLogged db _ trx.payment_id state_failed now h move
  ];
}

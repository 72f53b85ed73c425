-- ===== src/Kafka/Consume/Keeps.antt =====
-- What a handler keeps, the loop of `Consume` keeps.
use distributed_payment_pipe.Base.{ℕ, suc, List, [], ◌∷◌, some, inl, inr, Bool-cases, Option-cases}
use distributed_payment_pipe.Text.{Text, text_eq}
use distributed_payment_pipe.Errors.{Outcome-cases, CommitReply, commit_outcome, Reply, Reply-cases}
use distributed_payment_pipe.Kafka.{Handler}
use distributed_payment_pipe.Kafka.Consume.{
  Record, Poll, Consumed, handle_records, poll_once, consume_loop, consume,
}

module _ {ℓ κ} {S : Type ℓ} (P : S → Type κ) (handle : Handler S)
    (keep : (key payload : Text) (s : S) → P s → P (handle key payload s).1) where
  handle_records_keeps :
      (commit : ℕ → CommitReply) (n : ℕ) (rs : List Record) (w : Consumed S)
      → P w.world
      → P (handle_records handle commit n rs w).1.world
  unfolding handle_records
  handle_records_keeps commit n [] w h = h
  handle_records_keeps commit n (r ∷ rs) w h =
      elim (Outcome-cases (handle r.key r.value w.world).0) [
        | inr (e, f) ↦ rw (f, handle_records) (keep r.key r.value w.world h)
        | inl f ↦ elim (Outcome-cases (commit_outcome (commit n))) [
          | inr (e, g) ↦ rw (f, g, handle_records) (keep r.key r.value w.world h)
          | inl g ↦
              rw (f, g, handle_records)
                (handle_records_keeps commit (suc n) rs _ (keep r.key r.value w.world h))
        ]
      ]

  poll_once_keeps : (p : Poll) (w : Consumed S) → P w.world → P (poll_once handle p w).1.world
  unfolding poll_once
  poll_once_keeps p w h =
      let handled = handle_records_keeps p.commit 0 p.records w h in
      elim (Bool-cases p.is_client_closed) [
        | inl closed ↦ rw (closed, poll_once) h
        | inr live ↦ elim (Outcome-cases (handle_records handle p.commit 0 p.records w).0) [
          | inl good ↦ rw (live, good, poll_once) handled
          | inr (e, bad) ↦ rw (live, bad, poll_once) handled
        ]
      ]

  consume_loop_keeps :
      (ps : List Poll) (w : Consumed S) → P w.world → P (consume_loop handle ps w).1.world
  unfolding consume_loop
  consume_loop_keeps [] w h = h
  consume_loop_keeps (p ∷ ps) w h = elim (Option-cases (poll_once handle p w).0) [
    | inr (o, ends) ↦ rw (ends, consume_loop) (poll_once_keeps p w h)
    | inl goes ↦ rw (goes, consume_loop) (consume_loop_keeps ps _ (poll_once_keeps p w h))
  ]

  pub consume_keeps :
      (brokers : List Text) (topic group : Text) (new_client : Reply) (ps : List Poll)
      (w : Consumed S)
      → P w.world
      → P (consume (some brokers) topic group (some handle) new_client ps w).1.world
  unfolding consume
  consume_keeps [] topic group new_client ps w h = h
  consume_keeps (b ∷ bs) topic group new_client ps w h = elim (Bool-cases (text_eq topic [])) [
    | inl no_topic ↦ rw (no_topic, consume) h
    | inr topic_given ↦ elim (Bool-cases (text_eq group [])) [
      | inl no_group ↦ rw (topic_given, no_group, consume) h
      | inr group_given ↦ elim (Reply-cases new_client) [
        | inr (e, bad) ↦ rw (topic_given, group_given, bad, consume) h
        | inl good ↦ rw (topic_given, group_given, good, consume) (consume_loop_keeps ps w h)
      ]
    ]
  ]

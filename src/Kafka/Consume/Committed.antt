-- ===== src/Kafka/Consume/Committed.antt =====
-- What `Consume` commits, against what its handler has accepted.
use distributed_payment_pipe.Base.{
  ℕ, suc, ◌≤◌, ◌≡◌, refl, sym, ap, ◌⊎◌, inl, inr, List, [], ◌∷◌, ◌++◌, map, append-nil,
  append_assoc, map-append, none, some, length, arith, Bool-cases,
}
use distributed_payment_pipe.Text.{Text}
use distributed_payment_pipe.Errors.{
  Failure, ok, err, Outcome, nil, Outcome-cases, CommitReply, CommitReply-cases, after_commit,
}
use distributed_payment_pipe.Kafka.{Handler}
use distributed_payment_pipe.Kafka.Consume.{
  Record, Poll, Consumed, Next, handle_records, poll_once, consume_loop, after_poll,
}

-- A key and a payload, as the handler sees them.
abbrev pub Entry : Type 0
Entry = Text × Text

abbrev pub entry : Record → Entry
entry r = (r.key, r.value)

abbrev note_entry : Outcome → Entry → List Entry → List Entry
note_entry (ok _) m log = log ++ m ∷ []
note_entry (err _) m log = log

-- A handler that also keeps the entries for which it returned nil, the oldest first.
abbrev pub logged {ℓ} : {S : Type ℓ} → Handler S → Handler (S × List Entry)
logged handle key payload (s, log) =
    let (o, s') = handle key payload s in (o, (s', note_entry o (key, payload) log))

-- Of the records, the first ones are committed, in order, then come the pending ones, which are
-- accepted but not committed, at most one; and the rest are neither.
pub record HasConsumed {ℓ} {S : Type ℓ} (records : List Record) (w w' : Consumed (S × List Entry))
    : Type ℓ where
  pub settled : List Record
  pub pending : List Record
  pub others : List Record
  pub split : records ≡ settled ++ (pending ++ others)
  pub committed : w'.committed ≡ w.committed ++ settled
  pub accepted : w'.world.1 ≡ w.world.1 ++ map entry (settled ++ pending)
  pub one_pending : length pending ≤ 1

abbrev pub all_records : List Poll → List Record
all_records [] = []
all_records (p ∷ ps) = p.records ++ all_records ps

module _ {ℓ} {S : Type ℓ} (handle : Handler S) where
  nothing : (records : List Record) (w : Consumed (S × List Entry)) → HasConsumed records w w
  nothing records w = record {
    settled = [];
    pending = [];
    others = records;
    split = refl;
    committed = sym (append-nil w.committed);
    accepted = sym (append-nil w.world.1);
    one_pending = omega arith;
  }

  -- Records that are accepted and committed, before others.
  after_all :
      (done records : List Record) (w v : Consumed (S × List Entry))
      {w' : Consumed (S × List Entry)}
      → v.committed ≡ w.committed ++ done
      → v.world.1 ≡ w.world.1 ++ map entry done
      → HasConsumed records v w'
      → HasConsumed (done ++ records) w w'
  after_all done records w v marked noted h = record {
    settled = done ++ h.settled;
    pending = h.pending;
    others = h.others;
    split = rw h.split (sym (append_assoc done h.settled (h.pending ++ h.others)));
    committed = rw (h.committed, marked) (append_assoc w.committed done h.settled);
    accepted =
        rw
          (
            h.accepted,
            noted,
            append_assoc done h.settled h.pending,
            map-append entry done (h.settled ++ h.pending),
          )
          (append_assoc w.world.1 (map entry done) (map entry (h.settled ++ h.pending)));
    one_pending = h.one_pending;
  }

  -- The loop stops at a record: before its handler accepts it, before its commit, or after.
  stop_rejected :
      (r : Record) (rs : List Record) (w : Consumed (S × List Entry)) (s : S × List Entry)
      → s.1 ≡ w.world.1
      → HasConsumed (r ∷ rs) w (record { world = s; committed = w.committed })
  stop_rejected r rs w s noted = record {
    settled = [];
    pending = [];
    others = r ∷ rs;
    split = refl;
    committed = sym (append-nil w.committed);
    accepted = rw noted (sym (append-nil w.world.1));
    one_pending = omega arith;
  }

  stop_pending :
      (r : Record) (rs : List Record) (w v : Consumed (S × List Entry))
      → v.committed ≡ w.committed
      → v.world.1 ≡ w.world.1 ++ entry r ∷ []
      → HasConsumed (r ∷ rs) w v
  stop_pending r rs w v marked noted = record {
    settled = [];
    pending = r ∷ [];
    others = rs;
    split = refl;
    committed = rw marked (sym (append-nil w.committed));
    accepted = noted;
    one_pending = omega arith;
  }

  -- What `handle_records` does, and that it has done it for every record if it returns nil.
  Handled : List Record → Consumed (S × List Entry) → Outcome × Consumed (S × List Entry) → Type ℓ
  Handled records w result =
      HasConsumed records w result.1
      × (((e : Failure) × (result.0 ≡ err e))
          ⊎ ((result.0 ≡ nil)
              × (result.1.committed ≡ w.committed ++ records)
              × (result.1.world.1 ≡ w.world.1 ++ map entry records)))

  handle_records-Handled :
      (commit : ℕ → CommitReply) (n : ℕ) (records : List Record) (w : Consumed (S × List Entry))
      → Handled records w (handle_records (logged handle) commit n records w)
  unfolding Handled handle_records
  handle_records-Handled commit n [] w =
      (nothing [] w, inr (refl, sym (append-nil w.committed), sym (append-nil w.world.1)))
  handle_records-Handled commit n (r ∷ rs) w =
      let handled = logged handle r.key r.value w.world in
      let note = λ (o : Outcome). note_entry o (entry r) w.world.1 in
      let marks = λ (c : CommitReply). after_commit c w.committed (w.committed ++ r ∷ []) in
      let v : Consumed (S × List Entry) = record {
        world = handled.1;
        committed = marks (commit n);
      } in
      elim (Outcome-cases (handle r.key r.value w.world.0).0) [
        | inr (e, h) ↦
            rw (h, handle_records) (stop_rejected r rs w handled.1 (ap note h), inl (_, refl))
        | inl h ↦ elim (CommitReply-cases (commit n)) [
          | inr (inl (e, k)) ↦
              rw (h, k, handle_records)
                (stop_pending r rs w v (ap marks k) (ap note h), inl (_, refl))
          | inr (inr (e, k)) ↦
              rw (h, k, handle_records)
                (after_all (r ∷ []) rs w v (ap marks k) (ap note h) (nothing rs v), inl (_, refl))
          | inl k ↦
              let (rest, ending) = handle_records-Handled commit (suc n) rs v in
              rw (h, k, handle_records)
                (
                  after_all (r ∷ []) rs w v (ap marks k) (ap note h) rest,
                  elim ending [
                    | inl stops ↦ inl stops
                    | inr (good, c, l) ↦ inr (
                      good,
                      rw (c, ap marks k) (append_assoc w.committed (r ∷ []) rs),
                      rw (l, ap note h) (append_assoc w.world.1 (entry r ∷ []) (map entry rs)),
                    )
                  ],
                )
        ]
      ]

  -- More records that the loop does not come to.
  before_more :
      (records more : List Record) (w w' : Consumed (S × List Entry))
      → HasConsumed records w w'
      → HasConsumed (records ++ more) w w'
  before_more records more w w' h = record {
    settled = h.settled;
    pending = h.pending;
    others = h.others ++ more;
    split =
        rw
          (
            h.split,
            append_assoc h.settled (h.pending ++ h.others) more,
            append_assoc h.pending h.others more,
          )
          refl;
    committed = h.committed;
    accepted = h.accepted;
    one_pending = h.one_pending;
  }

  -- The loop goes on only if every record has been accepted and committed.
  Polled : List Record → Consumed (S × List Entry) → Next × Consumed (S × List Entry) → Type ℓ
  Polled records w result =
      HasConsumed records w result.1
      × (((o : Outcome) × (result.0 ≡ some o))
          ⊎ ((result.0 ≡ none)
              × (result.1.committed ≡ w.committed ++ records)
              × (result.1.world.1 ≡ w.world.1 ++ map entry records)))

  Next-cases : (x : Next) → ((o : Outcome) × (x ≡ some o)) ⊎ (x ≡ none)
  Next-cases none = inr refl
  Next-cases (some o) = inl (o, refl)

  poll_once-Polled :
      (p : Poll) (w : Consumed (S × List Entry))
      → Polled p.records w (poll_once (logged handle) p w)
  unfolding Polled Handled poll_once
  poll_once-Polled p w =
      let (h, ending) = handle_records-Handled p.commit 0 p.records w in
      elim (Bool-cases p.is_client_closed) [
        | inl closed ↦ rw (closed, poll_once) (nothing p.records w, inl (_, refl))
        | inr live ↦ elim ending [
          | inl (e, stops) ↦ rw (live, stops, poll_once) (h, inl (_, refl))
          | inr (good, c, l) ↦ elim (Next-cases (after_poll p)) [
            | inl (o, stops) ↦ rw (live, good, stops, poll_once) (h, inl (_, refl))
            | inr goes ↦ rw (live, good, goes, poll_once) (h, inr (refl, c, l))
          ]
        ]
      ]

  consume_loop-Polled :
      (polls : List Poll) (w : Consumed (S × List Entry))
      → Polled (all_records polls) w (consume_loop (logged handle) polls w)
  unfolding Polled consume_loop
  consume_loop-Polled [] w =
      (nothing [] w, inr (refl, sym (append-nil w.committed), sym (append-nil w.world.1)))
  consume_loop-Polled (p ∷ ps) w =
      let now = poll_once (logged handle) p w in
      let (h, ending) = poll_once-Polled p w in
      elim ending [
        | inl (o, stops) ↦
            rw (stops, consume_loop)
              (before_more p.records (all_records ps) w now.1 h, inl (_, refl))
        | inr (goes, c, l) ↦
            let (rest, next) = consume_loop-Polled ps now.1 in
            rw (goes, consume_loop)
              (
                after_all p.records (all_records ps) w now.1 c l rest,
                elim next [
                  | inl stops ↦ inl stops
                  | inr (on, c', l') ↦ inr (
                    on,
                    rw (c', c) (append_assoc w.committed p.records (all_records ps)),
                    rw (l', l, map-append entry p.records (all_records ps))
                        (append_assoc w.world.1 (map entry p.records) (map entry (all_records ps))),
                  )
                ],
              )
      ]

  -- Whatever the client, the broker and the handler answer, `Consume` commits the offsets of the
  -- first records that it polled, in order and without a gap, and each of them only after its handler
  -- returned nil; at most one further record is accepted and not committed, and none is skipped. As
  -- long as the loop runs, every polled record is accepted and committed.
  pub consume_loop-HasConsumed :
      (polls : List Poll) (w : Consumed (S × List Entry))
      → let (next, w') = consume_loop (logged handle) polls w in
        HasConsumed (all_records polls) w w'
        × (((o : Outcome) × (next ≡ some o))
            ⊎ ((next ≡ none)
                × (w'.committed ≡ w.committed ++ all_records polls)
                × (w'.world.1 ≡ w.world.1 ++ map entry (all_records polls))))
  unfolding Polled
  consume_loop-HasConsumed polls w = consume_loop-Polled polls w

-- ===== src/Settlement/Engine/Lost.antt =====
-- Payments of a group that fails: the engine never comes back to them.
use distributed_payment_pipe.Base.{ℕ, suc, ◌≡◌, refl, true, false, List, [], ◌∷◌, arith, All}
use distributed_payment_pipe.Base.Int.{pos, ◌-ℤ◌, ◌≤ℤ◌, ◌<ℤ◌, -ℤ_parts, ltb_ℤ, eqb_ℤ}
use distributed_payment_pipe.Errors.{Failure, failed, ok}
use distributed_payment_pipe.Domain.{Time, Transaction}
use distributed_payment_pipe.Db.{Db}
use distributed_payment_pipe.Settlement.{
  CapturedGroup, persist_batch, aggregate_captured, in_window,
}
use distributed_payment_pipe.Settlement.Engine.{
  Engine, Tick, Encoder, GroupInput, TickInput, process_group, process_groups, tick, settle,
  sub_time,
}
use distributed_payment_pipe.Settlement.Engine.Windows.{
  window_start_known, windows, IsChain, windows-IsChain, nonzero_of_pos,
}

-- A group whose transaction cannot be opened changes nothing.
process_group_fails :
    (enc : Encoder) (i : GroupInput) (g : CapturedGroup) (start end : Time) (db : Db) (f : Failure)
    → i.replies.begin ≡ failed f
    → (process_group enc i g start end db).1 ≡ db
unfolding process_group persist_batch
process_group_fails enc i g start end db f h = ground arith

process_groups_fail :
    (enc : Encoder) (inputs : ℕ → GroupInput) (faults : ℕ → Failure)
    → ((n : ℕ) → (inputs n).replies.begin ≡ failed (faults n))
    → (n : ℕ) (gs : List CapturedGroup) (start end : Time) (db : Db)
    → process_groups enc inputs n gs start end db ≡ db
unfolding process_groups
process_groups_fail enc inputs faults h n [] start end db = refl
process_groups_fail enc inputs faults h n (g ∷ gs) start end db =
    rw (process_group_fails enc (inputs n) g start end db (faults n) (h n))
      (process_groups_fail enc inputs faults h (suc n) gs start end db)

-- A payment of a window was created before each window of a chain that begins at its end or later.
chain-created :
    (start end from size : Time) (t : Transaction) (ws : List (TickInput × Time × Time))
    → in_window start end t ≡ true
    → pos 0 <ℤ size
    → end ≤ℤ from
    → IsChain size from ws
    → All (λ (w : TickInput × Time × Time). t.created_at <ℤ w.1) ws
unfolding in_window
chain-created start end from size t [] h positive later chain = tt
chain-created start end from size t ((i, s, u) ∷ ws) h positive later (begins, long, chain) = (
  ground (arith, begins),
  chain-created start end u size t ws h positive (ground (arith, begins, -ℤ_parts u s)) chain,
)

-- If the query of a full window is answered and the database refuses to open the transaction of
-- each group, the tick changes no table and moves the engine on to the end of the window all the
-- same; and a payment of the window was created before every window that the engine settles in
-- whatever ticks follow, so that none of them covers it. The size of a window is positive, the end
-- of the last window known, and every tick later than the buffer after the zero time. An engine
-- that is started anew has another first window, which this does not speak of.
pub tick_strands :
    (i : TickInput) (now : Time) (e : Engine) (db : Db) (groups : List CapturedGroup)
    (faults : ℕ → Failure) (t : Transaction) (ts : List Tick)
    → let window_end = now -ℤ e.config.buffer in
      pos 0 <ℤ e.config.window_size
      → pos 0 <ℤ window_end
      → All (λ (next : Tick). pos 0 <ℤ next.at -ℤ e.config.buffer) ts
      → eqb_ℤ e.last_window_end (pos 0) ≡ false
      → ltb_ℤ (sub_time window_end e.last_window_end) e.config.window_size ≡ false
      → aggregate_captured i.collation i.aggregate e.last_window_end window_end db ≡ ok groups
      → ((n : ℕ) → (i.groups n).replies.begin ≡ failed (faults n))
      → in_window e.last_window_end window_end t ≡ true
      → (tick i now e db ≡ (record e { last_window_end = window_end }, db))
        × All
            (λ (w : TickInput × Time × Time). t.created_at <ℤ w.1)
            (windows ts (record e { last_window_end = window_end }) db)
unfolding tick settle
tick_strands i now e db groups faults t ts size positive late known full found refused h =
    let end = now -ℤ e.config.buffer in
    let next = record e { last_window_end = end } in
    (
      ground (
        arith,
        window_start_known e end known,
        process_groups_fail i.encoder i.groups faults refused 0 groups e.last_window_end end db,
      ),
      chain-created e.last_window_end end end e.config.window_size t (windows ts next db) h size
          (omega arith) (windows-IsChain ts next db size (nonzero_of_pos end positive) late).0,
    )

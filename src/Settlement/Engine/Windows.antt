-- ===== src/Settlement/Engine/Windows.antt =====
-- The windows that the engine settles, tick by tick.
use distributed_payment_pipe.Base.{
  ◌≡◌, refl, ◌⊎◌, inl, inr, true, false, List, [], ◌∷◌, arith, Bool-cases, All, if◌then◌else◌,
}
use distributed_payment_pipe.Base.Int.{ℤ, pos, negsuc, ◌-ℤ◌, ◌≤ℤ◌, ◌<ℤ◌, ltb_ℤ, eqb_ℤ}
use distributed_payment_pipe.Errors.{Failure, ok, err, nil, Outcome-cases}
use distributed_payment_pipe.Domain.{Time}
use distributed_payment_pipe.Db.{Db}
use distributed_payment_pipe.Settlement.Engine.{
  Engine, TickInput, Tick, tick, run_ticks, settle, sub_time, saturate, window_start,
}

-- A difference is at least a positive duration if its nearest `Duration` is.
saturate-le : (d size : ℤ) → pos 0 ≤ℤ size → ltb_ℤ (saturate d) size ≡ false → size ≤ℤ d
unfolding saturate
saturate-le (pos n) size positive h = ground arith
saturate-le (negsuc n) size positive h = ground arith

settle_err :
    (i : TickInput) (start end : Time) (db : Db) (e : Failure)
    → (settle i start end db).0 ≡ err e
    → (settle i start end db).1 ≡ db
unfolding settle
settle_err i start end db e h = ground arith

-- If the size of a window is not negative, one tick ends in one of three ways. Its window is shorter
-- than the size, or it cannot be settled: then the start of the window is kept as the end of the last
-- one, and no table changes. Or it settles, without an error, the whole time from that start to its
-- end, which is at least as long as the size, and that end is the start of the next window.
tick_cases :
    (i : TickInput) (now : Time) (e : Engine) (db : Db)
    → pos 0 ≤ℤ e.config.window_size
    → let window_end = now -ℤ e.config.buffer in
      let start = window_start e window_end in
      let short = ltb_ℤ (sub_time window_end start) e.config.window_size in
      ((short ≡ true) × (tick i now e db ≡ (record e { last_window_end = start }, db)))
      ⊎ ((short ≡ false)
          × ((f : Failure) × ((settle i start window_end db).0 ≡ err f))
          × (tick i now e db ≡ (record e { last_window_end = start }, db)))
      ⊎ ((short ≡ false)
          × (e.config.window_size ≤ℤ window_end -ℤ start)
          × ((settle i start window_end db).0 ≡ nil)
          × (tick i now e db
              ≡ (record e { last_window_end = window_end }, (settle i start window_end db).1)))
unfolding tick
tick_cases i now e db h =
    let end = now -ℤ e.config.buffer in
    let start = window_start e end in
    elim (Bool-cases (ltb_ℤ (sub_time end start) e.config.window_size)) [
      | inl short ↦ inl (short, rw (short, tick))
      | inr long ↦ elim (Outcome-cases (settle i start end db).0) [
        | inl good ↦ inr (
            inr (
              long,
              saturate-le (end -ℤ start) e.config.window_size h long,
              good,
              rw (long, good, tick),
            ))
        | inr (f, bad) ↦
            inr (inl (long, (f, bad), rw (long, bad, tick) (rw (settle_err i start end db f bad))))
      ]
    ]

-- Every window that a run settles without an error, with what it gets from outside: the window of
-- each tick that is not shorter than the size, from where the engine says that it begins to the time
-- of the tick less the buffer.
abbrev pub windows : List Tick → Engine → Db → List (TickInput × Time × Time)
windows [] e db = []
windows (t ∷ ts) e db =
    let end = t.at -ℤ e.config.buffer in
    let start = window_start e end in
    let (e', db') = tick t.input t.at e db in
    let rest = windows ts e' db' in
    if ltb_ℤ (sub_time end start) e.config.window_size
    then rest
    else elim (settle t.input start end db).0 [ ok _ ↦ (t.input, start, end) ∷ rest | err _ ↦ rest ]

-- The tables after each of the windows has been settled, in order.
abbrev pub settle_each : List (TickInput × Time × Time) → Db → Db
settle_each [] db = db
settle_each ((i, s, t) ∷ ws) db = settle_each ws (settle i s t db).1

-- Each window is at least as long as the size, and begins where the one before it ends.
abbrev pub IsChain : ℤ → Time → List (TickInput × Time × Time) → Type 0
IsChain size from [] = Unit
IsChain size from ((i, s, t) ∷ ws) = (s ≡ from) × (size ≤ℤ t -ℤ s) × IsChain size t ws

pub window_start_known :
    (e : Engine) (end : Time)
    → eqb_ℤ e.last_window_end (pos 0) ≡ false
    → window_start e end ≡ e.last_window_end
unfolding window_start
window_start_known e end h = ground arith

pub nonzero_of_pos : (a : ℤ) → pos 0 <ℤ a → eqb_ℤ a (pos 0) ≡ false
nonzero_of_pos a h = ground arith

module _ (t : Tick) (ts : List Tick) (e : Engine) (db : Db) where
  run_ticks-cons :
      let (e', db') = tick t.input t.at e db in run_ticks (t ∷ ts) e db ≡ run_ticks ts e' db'
  unfolding run_ticks
  run_ticks-cons = refl

  windows_short :
      let end = t.at -ℤ e.config.buffer in
      let (e', db') = tick t.input t.at e db in
      ltb_ℤ (sub_time end (window_start e end)) e.config.window_size ≡ true
      → windows (t ∷ ts) e db ≡ windows ts e' db'
  windows_short short = rw short refl

  windows_failed :
      let end = t.at -ℤ e.config.buffer in
      let (e', db') = tick t.input t.at e db in
      ltb_ℤ (sub_time end (window_start e end)) e.config.window_size ≡ false
      → (f : Failure) → (settle t.input (window_start e end) end db).0 ≡ err f
      → windows (t ∷ ts) e db ≡ windows ts e' db'
  windows_failed long f bad = rw (long, bad) refl

  windows_settled :
      let end = t.at -ℤ e.config.buffer in
      let (e', db') = tick t.input t.at e db in
      ltb_ℤ (sub_time end (window_start e end)) e.config.window_size ≡ false
      → (settle t.input (window_start e end) end db).0 ≡ nil
      → windows (t ∷ ts) e db ≡ (t.input, window_start e end, end) ∷ windows ts e' db'
  windows_settled long good = rw (long, good) refl

-- The windows that a run settles, if it starts from a known end, follow one another without gap or
-- overlap, each as long as the size or longer, and the tables after the run are those after settling
-- these windows in order, if the size of a window is positive and every tick comes later than the
-- buffer after the zero time.
pub windows-IsChain :
    (ts : List Tick) (e : Engine) (db : Db)
    → pos 0 <ℤ e.config.window_size
    → eqb_ℤ e.last_window_end (pos 0) ≡ false
    → All (λ (t : Tick). pos 0 <ℤ t.at -ℤ e.config.buffer) ts
    → IsChain e.config.window_size e.last_window_end (windows ts e db)
      × ((run_ticks ts e db).1 ≡ settle_each (windows ts e db) db)
windows-IsChain [] e db size known late = (tt, unfold run_ticks in refl)
windows-IsChain (t ∷ ts) e db size known (l, ls) =
    let end = t.at -ℤ e.config.buffer in
    let start = window_start e end in
    let from_last = window_start_known e end known in
    let kept = record e { last_window_end = e.last_window_end } in
    let again = windows-IsChain ts kept db size known ls in
    elim (tick_cases t.input t.at e db (omega arith)) [
      | inl (short, waits) ↦
          rw (run_ticks-cons t ts e db, windows_short t ts e db short, waits, from_last) again
      | inr (inl (long, (f, bad), waits)) ↦
          rw (run_ticks-cons t ts e db, windows_failed t ts e db long f bad, waits, from_last) again
      | inr (inr (long, enough, good, goes)) ↦
          let (chain, tables) =
            windows-IsChain ts (record e { last_window_end = end }) (settle t.input start end db).1
              size (nonzero_of_pos end l) ls in
          rw (run_ticks-cons t ts e db, windows_settled t ts e db long good, goes)
            ((from_last, enough, chain), tables)
    ]

-- ===== src/Kafka/Retry/Attempts.antt =====
-- The loop of attempts, against a relation that says which calls of the handler are made.
use distributed_payment_pipe.Base.{
  ℕ, zero, suc, ◌+◌, ◌*◌, ◌≤◌, ◌≡◌, ◌≢◌, ap, inl, inr, true, false, Option, none, some, arith,
  Bool-cases,
}
use distributed_payment_pipe.Text.{Text}
use distributed_payment_pipe.Errors.{
  Failure, non_retryable, errors_is, Outcome-cases, err, Outcome, nil,
}
use distributed_payment_pipe.Kafka.{Handler}
use distributed_payment_pipe.Kafka.Retry.{Ending, succeeded, gave_up, attempts}

-- `Tries budget n s ending t`: with at most `budget` calls allowed, exactly `n` calls of the
-- handler lead from the state `s` to `t`. A success and a non-retryable error end the calls, any
-- other error leads to the next call, and the last error is kept if the budget is used up.
pub data Tries {ℓ} {S : Type ℓ} (handle : S → Outcome × S) : ℕ → ℕ → S → Ending → S → Type ℓ where
  success : {budget : ℕ} {s t : S} → handle s ≡ (nil, t) → Tries handle (suc budget) 1 s succeeded t
  reject :
      {budget : ℕ} {s t : S} (e : Failure)
      → handle s ≡ (err e, t)
      → errors_is e non_retryable ≡ true
      → Tries handle (suc budget) 1 s (gave_up (some e)) t
  exhaust :
      {s t : S} (e : Failure)
      → handle s ≡ (err e, t)
      → errors_is e non_retryable ≡ false
      → Tries handle 1 1 s (gave_up (some e)) t
  retry :
      {budget n : ℕ} {s t u : S} {ending : Ending} (e : Failure)
      → handle s ≡ (err e, t)
      → errors_is e non_retryable ≡ false
      → Tries handle budget n t ending u
      → Tries handle (suc budget) (suc n) s ending u

-- The sleeps, at most `attempt`² tenths of a second after each attempt from `attempt` on.
backoff : ℕ → ℕ → ℕ
backoff zero attempt = 0
backoff (suc left) attempt = attempt * attempt * 100 + backoff left (suc attempt)

abbrev pyramid : ℕ → ℕ
pyramid n = n * (n + 1) * (2 * n + 1)

backoff_closed :
    (left a : ℕ) → backoff left (suc a) * 6 + 100 * pyramid a ≡ 100 * pyramid (a + left)
unfolding backoff
backoff_closed zero a = omega arith
backoff_closed (suc left) a = omega (arith, backoff_closed left (suc a))

module _ {ℓ} {S : Type ℓ} (handler : Handler S) (key payload : Text) where
  -- The call with the outcome `o`.
  call_is :
      (s : S) (o : Outcome)
      → (handler key payload s).0 ≡ o
      → handler key payload s ≡ (o, (handler key payload s).1)
  call_is s o h = ap (λ x. (x, (handler key payload s).1)) h

  -- With a budget of one or more, the loop makes calls as the relation says, at most as many as the
  -- budget allows, and ends as the relation says.
  pub attempts-Tries :
      (left attempt : ℕ) (last : Option Failure) (slept : ℕ) (s : S)
      → let a = attempts handler key payload (suc left) attempt last slept s in
        (n : ℕ) × (n ≤ suc left) × Tries (handler key payload) (suc left) n s a.ending a.world
  unfolding attempts
  attempts-Tries zero attempt last slept s = elim (Outcome-cases (handler key payload s).0) [
    | inl h ↦ (1, omega arith, rw (h, attempts) (success (call_is s nil h)))
    | inr (e, h) ↦ elim (Bool-cases (errors_is e non_retryable)) [
      | inl stop ↦ (1, omega arith, rw (h, stop, attempts) (reject e (call_is s (err e) h) stop))
      | inr again ↦
          (1, omega arith, rw (h, again, attempts) (exhaust e (call_is s (err e) h) again))
    ]
  ]
  attempts-Tries (suc left) attempt last slept s = elim (Outcome-cases (handler key payload s).0) [
    | inl h ↦ (1, omega arith, rw (h, attempts) (success (call_is s nil h)))
    | inr (e, h) ↦ elim (Bool-cases (errors_is e non_retryable)) [
      | inl stop ↦ (1, omega arith, rw (h, stop, attempts) (reject e (call_is s (err e) h) stop))
      | inr again ↦
          let (n, few, rest) =
            attempts-Tries left (suc attempt) (some e) (slept + attempt * attempt * 100)
              (handler key payload s).1 in
          (suc n, omega arith, rw (h, again, attempts) (retry e (call_is s (err e) h) again rest))
    ]
  ]

  slept-le :
      (left attempt : ℕ) (last : Option Failure) (slept : ℕ) (s : S)
      → (attempts handler key payload left attempt last slept s).slept
        ≤ slept + backoff left attempt
  unfolding attempts backoff
  slept-le zero attempt last slept s = omega arith
  slept-le (suc left) attempt last slept s = elim (Outcome-cases (handler key payload s).0) [
    | inl h ↦ rw (h, attempts) (omega arith)
    | inr (e, h) ↦ elim (Bool-cases (errors_is e non_retryable)) [
      | inl stop ↦ rw (h, stop, attempts) (omega arith)
      | inr again ↦
          let later =
            slept-le left (suc attempt) (some e) (slept + attempt * attempt * 100)
              (handler key payload s).1 in
          rw (h, again, attempts) (omega (arith, later))
    ]
  ]

  -- `max_attempts` = m attempts sleep for at most 100 · (1² + … + m²) milliseconds in all, which is
  -- 100 · m (m + 1) (2m + 1) / 6.
  pub slept_bound :
      (m : ℕ) (s : S)
      → (attempts handler key payload m 1 none 0 s).slept * 6 ≤ 100 * (m * (m + 1) * (2 * m + 1))
  slept_bound m s = omega (arith, slept-le m 1 none 0 s, backoff_closed m 0)

-- After at least one call the loop has an error to go on with.
pub Tries-ending {ℓ} :
    {S : Type ℓ} {handle : S → Outcome × S} {budget n : ℕ} {s t : S} {ending : Ending}
    → Tries handle budget n s ending t
    → ending ≢ gave_up none
Tries-ending (success _) = λ e. cc
Tries-ending (reject _ _ _) = λ e. cc
Tries-ending (exhaust _ _ _) = λ e. cc
Tries-ending (retry _ _ _ rest) = Tries-ending rest

-- What every call of the handler keeps, the loop keeps.
pub attempts_keep {ℓ κ} :
    {S : Type ℓ} (P : S → Type κ) (handler : Handler S) (key payload : Text)
    → ((s : S) → P s → P (handler key payload s).1)
    → (left attempt : ℕ) (last : Option Failure) (slept : ℕ) (s : S) → P s
    → P (attempts handler key payload left attempt last slept s).world
unfolding attempts
attempts_keep P handler key payload keep zero attempt last slept s h = h
attempts_keep P handler key payload keep (suc left) attempt last slept s h =
    elim (Outcome-cases (handler key payload s).0) [
      | inl good ↦ rw (good, attempts) (keep s h)
      | inr (e, bad) ↦ elim (Bool-cases (errors_is e non_retryable)) [
        | inl stop ↦ rw (bad, stop, attempts) (keep s h)
        | inr again ↦
            rw (bad, again, attempts)
              (attempts_keep P handler key payload keep left (suc attempt) (some e)
                (slept + attempt * attempt * 100) (handler key payload s).1 (keep s h))
      ]
    ]

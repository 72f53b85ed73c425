-- ===== src/Fraud/Levels.antt =====
-- The score against the weights of the rules in tenths.
use distributed_payment_pipe.Base.{
  ℕ, ◌+◌, ◌*◌, ◌^◌, ◌≤◌, ◌≡◌, refl, Bool, true, false, ltb, leb, if◌then◌else◌, arith,
}
use distributed_payment_pipe.Base.Int.{ℤ}
use distributed_payment_pipe.Errors.{Result}
use distributed_payment_pipe.Domain.{Transaction}
use distributed_payment_pipe.Fraud.{
  RiskLevel, risk_low, risk_medium, risk_high, risk_critical, score_of, apply_rules, add_float,
  round_to, to_risk_level, cap, is_large, is_frequent, is_new_account,
}

-- The weights in tenths, at most 10.
abbrev pub tenths : Bool → Bool → Bool → ℕ
tenths large frequent new_account =
    let sum =
      (if large then 4 else 0) + (if frequent then 5 else 0) + (if new_account then 3 else 0) in
    if ltb 10 sum then 10 else sum

-- The level of a number of tenths.
abbrev pub level_of_tenths : ℕ → RiskLevel
level_of_tenths n =
    if leb 8 n
    then risk_critical
    else if leb 5 n
    then risk_high
    else if leb 2 n
    then risk_medium
    else risk_low

-- A float64 is within 2^-53 of a number of tenths.
abbrev pub IsNear : ℕ → ℕ → Type 0
IsNear score n = (score * 10 ≤ n * 2 ^ 55 + 40) × (n * 2 ^ 55 ≤ score * 10 + 40)

rules-IsNear :
    (large frequent new_account : Bool)
    → let score = cap (apply_rules large frequent new_account).1 in
      let n = tenths large frequent new_account in
      IsNear score n × (to_risk_level score ≡ level_of_tenths n)
unfolding apply_rules add_float round_to to_risk_level
rules-IsNear true true true = ((omega arith, omega arith), refl)
rules-IsNear true true false = ((omega arith, omega arith), refl)
rules-IsNear true false true = ((omega arith, omega arith), refl)
rules-IsNear true false false = ((omega arith, omega arith), refl)
rules-IsNear false true true = ((omega arith, omega arith), refl)
rules-IsNear false true false = ((omega arith, omega arith), refl)
rules-IsNear false false true = ((omega arith, omega arith), refl)
rules-IsNear false false false = ((omega arith, omega arith), refl)

-- For every payment and every answer of Redis, the rounding of the float64 sum never changes the
-- result: the score is within 2^-53 of the sum of the weights of the rules that fire, or of 1 if that
-- sum is more, and the risk level is the one that the exact sum has.
pub score_of-IsNear :
    (t : Transaction) (count : Result ℤ)
    → let s = score_of t count in
      let n = tenths (is_large t) (is_frequent count) (is_new_account t) in
      IsNear s.score n × (s.risk_level ≡ level_of_tenths n)
unfolding score_of
score_of-IsNear t count = rules-IsNear (is_large t) (is_frequent count) (is_new_account t)

-- ===== src/Commands/Services/Interval.antt =====
-- When the process of the settlement engine panics.
use distributed_payment_pipe.Base.{
  ◌⊎◌, ◌*◌, ◌^◌, Bool-cases, ◌≡◌, ◌≢◌, refl, ◌↔◌, inl, inr, Bool, List, [], ◌∷◌, arith, true, false,
}
use distributed_payment_pipe.Base.Int.{ℤ, pos, leb_ℤ, ◌≤ℤ◌}
use distributed_payment_pipe.Text.{Text, codes}
use distributed_payment_pipe.Errors.{Failure, Result, Result-cases, ok, err, Reply, done}
use distributed_payment_pipe.Db.{Db}
use distributed_payment_pipe.Configuration.{Environment, env_duration, engine_config}
use distributed_payment_pipe.Settlement.Engine.{Tick}
use distributed_payment_pipe.Commands.{Exit}
use distributed_payment_pipe.Commands.Services.{run_settlement, loop_exit, new_engine}

-- What an environment sets a duration to.
abbrev pub IsSetTo : (Text → Result ℤ) → Text → ℤ → Type 0
IsSetTo parse_duration s d = (s ≢ []) × (parse_duration s ≡ ok d)

List-cases : (s : Text) → (s ≡ []) ⊎ (s ≢ [])
List-cases [] = inl refl
List-cases (x ∷ s) = inr (λ e. cc)

env_duration_set :
    (parse_duration : Text → Result ℤ) (env : Environment) (key : Text) (fallback : ℤ)
    → env key ≢ []
    → env_duration parse_duration env key fallback
      ≡ elim (parse_duration (env key)) [ ok d ↦ d | err e ↦ fallback ]
unfolding env_duration
env_duration_set parse_duration env key fallback h = ground (arith, h)

env_duration_unset :
    (parse_duration : Text → Result ℤ) (env : Environment) (key : Text) (fallback : ℤ)
    → env key ≡ []
    → leb_ℤ fallback (pos 0) ≡ false
    → leb_ℤ (env_duration parse_duration env key fallback) (pos 0) ≢ true
unfolding env_duration
env_duration_unset parse_duration env key fallback unset positive = ground (arith, unset, positive)

env_duration-le :
    (parse_duration : Text → Result ℤ) (env : Environment) (key : Text) (fallback : ℤ)
    → leb_ℤ fallback (pos 0) ≡ false
    → (leb_ℤ (env_duration parse_duration env key fallback) (pos 0) ≡ true)
      ↔ ((d : ℤ) × IsSetTo parse_duration (env key) d × (d ≤ℤ pos 0))
env_duration-le parse_duration env key fallback positive = elim (List-cases (env key)) [
  | inl unset ↦ (
    λ h. absurd (env_duration_unset parse_duration env key fallback unset positive h),
    λ (d, (set, _), _). absurd (set unset),
  )
  | inr set ↦
      rw (env_duration_set parse_duration env key fallback set)
        (elim (Result-cases (parse_duration (env key))) [
          | inl (d, good) ↦
              rw good ((λ h. (d, (set, refl), ground arith)), (λ (d', (_, e), low). ground arith))
          | inr (f, bad) ↦ rw bad ((λ h. absurd (cc)), (λ (d', (_, e), low). absurd (cc)))
        ])
]

abbrev minute : ℤ
minute = pos (60 * 10 ^ 9)

-- The interval of the engine.
interval : (Text → Result ℤ) → Environment → ℤ
interval parse_duration env = env_duration parse_duration env (codes "SETTLEMENT_INTERVAL") minute

not_crashed : (cancelled : Bool) → loop_exit cancelled ≢ Exit.crashed
not_crashed true = λ e. cc
not_crashed false = λ e. cc

-- The interval is a duration that the environment sets, or a minute if it sets none.
abbrev pub IsInterval : (Text → Result ℤ) → Text → ℤ → Type 0
IsInterval parse_duration s interval =
    IsSetTo parse_duration s interval
    ⊎ (((s ≡ []) ⊎ ((f : Failure) × (parse_duration s ≡ err f))) × (interval ≡ pos 60000000000))

env_duration-IsInterval :
    (parse_duration : Text → Result ℤ) (env : Environment)
    → IsInterval parse_duration (env (codes "SETTLEMENT_INTERVAL")) (interval parse_duration env)
unfolding interval env_duration
env_duration-IsInterval parse_duration env =
    let key = codes "SETTLEMENT_INTERVAL" in
    elim (List-cases (env key)) [
      | inl unset ↦ inr (inl unset, ground (arith, unset))
      | inr set ↦ elim (Result-cases (parse_duration (env key))) [
        | inl (d, good) ↦ inl (set, rw (env_duration_set parse_duration env key minute set, good))
        | inr (f, bad) ↦
            inr (inr (f, bad), rw (env_duration_set parse_duration env key minute set, bad))
      ]
    ]

-- If the pool is made, the settlement process panics exactly if its environment sets the interval
-- to a duration that is not positive. The interval of its engine is the duration that the
-- environment sets, or a minute, 60000000000 nanoseconds, if it is not set or not a duration.
pub run_settlement-crashed_iff :
    (parse_duration : Text → Result ℤ) (env : Environment) (new_pool : Text → Reply)
    (ticks : List Tick) (cancelled : Bool) (db : Db)
    → ((url : Text) → new_pool url ≡ done)
    → (((run_settlement parse_duration env new_pool ticks cancelled db).0 ≡ Exit.crashed)
        ↔ ((d : ℤ) × IsSetTo parse_duration (env (codes "SETTLEMENT_INTERVAL")) d × (d ≤ℤ pos 0)))
      × IsInterval parse_duration
          (env (codes "SETTLEMENT_INTERVAL"))
          (new_engine parse_duration env).config.interval
unfolding run_settlement engine_config interval
run_settlement-crashed_iff parse_duration env new_pool ticks cancelled db connects =
    let (there, back) =
      env_duration-le parse_duration env (codes "SETTLEMENT_INTERVAL") minute refl in
    let low = leb_ℤ (interval parse_duration env) (pos 0) in
    (
      elim (Bool-cases low) [
        | inl crashes ↦ (λ h. there crashes, λ set. rw (connects _, crashes, run_settlement) refl)
        | inr runs ↦ (
          λ h. absurd (not_crashed cancelled (rw (connects _, runs, run_settlement) at h)),
          λ set. absurd (cc (back set, runs)),
        )
      ],
      env_duration-IsInterval parse_duration env,
    )

-- ===== src/Domain/Tests.antt =====
-- The state machine at concrete states.
use distributed_payment_pipe.Base.{◌≤◌, ◌≡◌, refl, ◌↔◌, [], ◌∷◌, length}
use distributed_payment_pipe.Text.{codes, text_eq}
use distributed_payment_pipe.Errors.{nil, err, new_error}
use distributed_payment_pipe.Domain.{
  state_received, state_validated, state_captured, state_settled, state_failed, transition,
}
use distributed_payment_pipe.Domain.Lifecycle.{Arrow, IsRoute, transition_iff, route-length-le}

failed_is_final :
    transition state_failed state_settled
    ≡ err (new_error (codes "illegal state transition: FAILED -> SETTLED"))
unfolding transition text_eq
failed_is_final = refl

transition_iff_example :
    (transition state_captured state_settled ≡ nil) ↔ Arrow state_captured state_settled
transition_iff_example = transition_iff state_captured state_settled

captured-IsRoute : IsRoute state_received (state_validated ∷ state_captured ∷ state_settled ∷ [])
unfolding transition text_eq
captured-IsRoute = (refl, (refl, (refl, tt)))

route-length-le_example : length (state_validated ∷ state_captured ∷ state_settled ∷ []) ≤ 5
route-length-le_example =
    route-length-le state_received (state_validated ∷ state_captured ∷ state_settled ∷ [])
      captured-IsRoute

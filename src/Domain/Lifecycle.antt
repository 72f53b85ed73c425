-- ===== src/Domain/Lifecycle.antt =====
-- What the table of transitions in internal/domain/states.go allows.
use distributed_payment_pipe.Base.{
  ℕ, ◌+◌, ◌≤◌, ◌<◌, ◌≡◌, refl, sym, subst, ◌↔◌, ◌⊎◌, inl, inr, true, false, List, [], ◌∷◌, arith,
  length,
}
use distributed_payment_pipe.Text.{text_eq, Text-cases}
use distributed_payment_pipe.Dict.{get}
use distributed_payment_pipe.Errors.{nil}
use distributed_payment_pipe.Domain.{
  State, state_received, state_validated, state_authorized, state_captured, state_settled,
  state_reconciled, state_failed, allowed, slices_contains, transition,
}

-- The life of a payment as a diagram: the seven stages and the arrows between them.
pub data Stage : Type 0 where
  received validated authorized captured settled reconciled failed : Stage

abbrev pub label : Stage → State
label received = state_received
label validated = state_validated
label authorized = state_authorized
label captured = state_captured
label settled = state_settled
label reconciled = state_reconciled
label failed = state_failed

pub data Edge : Stage → Stage → Type 0 where
  validate : Edge received validated
  authorize : Edge validated authorized
  capture : Edge validated captured
  capture_authorized : Edge authorized captured
  settle : Edge captured settled
  reconcile : Edge settled reconciled
  fail_received : Edge received failed
  fail_validated : Edge validated failed
  fail_authorized : Edge authorized failed
  fail_captured : Edge captured failed

Edge-transition : {a b : Stage} → Edge a b → transition (label a) (label b) ≡ nil
unfolding transition text_eq
Edge-transition validate = refl
Edge-transition authorize = refl
Edge-transition capture = refl
Edge-transition capture_authorized = refl
Edge-transition settle = refl
Edge-transition reconcile = refl
Edge-transition fail_received = refl
Edge-transition fail_validated = refl
Edge-transition fail_authorized = refl
Edge-transition fail_captured = refl

-- Two states of the program that an arrow of the diagram joins.
abbrev pub Arrow : State → State → Type 0
Arrow from to = (a : Stage) × (b : Stage) × (from ≡ label a) × (to ≡ label b) × Edge a b

-- A state that has an allowed transition is one of the seven.
source-Stage : (from to : State) → transition from to ≡ nil → (a : Stage) × (from ≡ label a)
unfolding transition
source-Stage from to h = elim (Text-cases state_received from) [
  | inl (e, t) ↦ (received, cc)
  | inr n₁ ↦ elim (Text-cases state_validated from) [
    | inl (e, t) ↦ (validated, cc)
    | inr n₂ ↦ elim (Text-cases state_authorized from) [
      | inl (e, t) ↦ (authorized, cc)
      | inr n₃ ↦ elim (Text-cases state_captured from) [
        | inl (e, t) ↦ (captured, cc)
        | inr n₄ ↦ elim (Text-cases state_settled from) [
          | inl (e, t) ↦ (settled, cc)
          | inr n₅ ↦ absurd (ground arith)
        ]
      ]
    ]
  ]
]

-- `to` is one of the listed states.
abbrev OneOf : List State → State → Type 0
OneOf [] to = ⊥
OneOf (x ∷ xs) to = (to ≡ x) ⊎ OneOf xs to

slices_contains-OneOf : (xs : List State) (to : State) → slices_contains xs to ≡ true → OneOf xs to
unfolding slices_contains
slices_contains-OneOf [] to h = cc
slices_contains-OneOf (x ∷ xs) to h = elim (Text-cases x to) [
  | inl (e, _) ↦ inl (sym e)
  | inr n ↦ inr (slices_contains-OneOf xs to (ground arith))
]

-- The row of the table for a stage.
targets : Stage → List State
targets a = get [] (label a) allowed

transition-OneOf : (a : Stage) (to : State) → transition (label a) to ≡ nil → OneOf (targets a) to
unfolding transition targets
transition-OneOf a to h = slices_contains-OneOf (get [] (label a) allowed) to (ground arith)

target-Edge :
    (a : Stage) (to : State) → OneOf (targets a) to → (b : Stage) × (to ≡ label b) × Edge a b
unfolding targets get text_eq
target-Edge received to (inl e) = (validated, e, validate)
target-Edge received to (inr (inl e)) = (failed, e, fail_received)
target-Edge received to (inr (inr h)) = elim h [ ]
target-Edge validated to (inl e) = (authorized, e, authorize)
target-Edge validated to (inr (inl e)) = (captured, e, capture)
target-Edge validated to (inr (inr (inl e))) = (failed, e, fail_validated)
target-Edge validated to (inr (inr (inr h))) = elim h [ ]
target-Edge authorized to (inl e) = (captured, e, capture_authorized)
target-Edge authorized to (inr (inl e)) = (failed, e, fail_authorized)
target-Edge authorized to (inr (inr h)) = elim h [ ]
target-Edge captured to (inl e) = (settled, e, settle)
target-Edge captured to (inr (inl e)) = (failed, e, fail_captured)
target-Edge captured to (inr (inr h)) = elim h [ ]
target-Edge settled to (inl e) = (reconciled, e, reconcile)
target-Edge settled to (inr h) = elim h [ ]
target-Edge reconciled to h = elim h [ ]
target-Edge failed to h = elim h [ ]

transition-Arrow : (from to : State) → transition from to ≡ nil → Arrow from to
transition-Arrow from to h =
    let (a, e) = source-Stage from to h in
    let (b, e', edge) = target-Edge a to (transition-OneOf a to (rw e at h)) in (a, b, e, e', edge)

Arrow-transition : (from to : State) → Arrow from to → transition from to ≡ nil
Arrow-transition from to (a, b, e, e', edge) = rw (e, e') (Edge-transition edge)

-- `Transition` accepts a pair of states exactly when an arrow of the diagram joins them, whatever
-- two texts it is given.
pub transition_iff : (from to : State) → (transition from to ≡ nil) ↔ Arrow from to
transition_iff from to = (transition-Arrow from to, Arrow-transition from to)

Edge-ne : {a b : Stage} → Edge a b → text_eq (label a) (label b) ≡ false
unfolding text_eq
Edge-ne validate = refl
Edge-ne authorize = refl
Edge-ne capture = refl
Edge-ne capture_authorized = refl
Edge-ne settle = refl
Edge-ne reconcile = refl
Edge-ne fail_received = refl
Edge-ne fail_validated = refl
Edge-ne fail_authorized = refl
Edge-ne fail_captured = refl

-- No arrow leads from a state to itself.
pub Arrow-ne : (from to : State) → Arrow from to → text_eq from to ≡ false
Arrow-ne from to (a, b, e, e', edge) = rw (e, e') (Edge-ne edge)

-- Every arrow leads to a stage of greater rank, so the diagram has no cycle.
rank : Stage → ℕ
rank received = 0
rank validated = 1
rank authorized = 2
rank captured = 3
rank settled = 4
rank reconciled = 5
rank failed = 5

Edge-rank : {a b : Stage} → Edge a b → rank a < rank b
unfolding rank
Edge-rank validate = omega arith
Edge-rank authorize = omega arith
Edge-rank capture = omega arith
Edge-rank capture_authorized = omega arith
Edge-rank settle = omega arith
Edge-rank reconcile = omega arith
Edge-rank fail_received = omega arith
Edge-rank fail_validated = omega arith
Edge-rank fail_authorized = omega arith
Edge-rank fail_captured = omega arith

rank-le : (a : Stage) → rank a ≤ 5
unfolding rank
rank-le received = omega arith
rank-le a = omega arith

-- A sequence of states in which `Transition` allows each move.
abbrev pub IsRoute : State → List State → Type 0
IsRoute s [] = Unit
IsRoute s (t ∷ ts) = (transition s t ≡ nil) × IsRoute t ts

route_from : (a : Stage) (ts : List State) → IsRoute (label a) ts → rank a + length ts ≤ 5
route_from a [] h = omega (arith, rank-le a)
route_from a (t ∷ ts) (h, hs) =
    let (b, e, edge) = target-Edge a t (transition-OneOf a t h) in
    let later = route_from b ts (rw e at hs) in omega (arith, Edge-rank edge, later)

-- No payment moves for ever: from any state at most five moves can follow one another.
pub route-length-le : (s : State) (ts : List State) → IsRoute s ts → length ts ≤ 5
route-length-le s [] h = omega arith
route-length-le s (t ∷ ts) h =
    let (a, e) = source-Stage s t h.0 in
    omega (arith, route_from a (t ∷ ts) (subst (λ x. IsRoute x (t ∷ ts)) e h))
